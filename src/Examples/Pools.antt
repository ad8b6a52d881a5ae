-- ===== src/Examples/Pools.antt =====
-- A pool of two servers, one of them ejected until the time 100.
use twemproxy.Common.{refl, arith, [], ◌∷◌, true, false, some, Returns}
use twemproxy.Server.{Server, ServerPool, DistType}
use twemproxy.Hashkit.Fnv.{hash_fnv1a_64}
use twemproxy.Dist.Fill.{live_sum}
use twemproxy.Dist.Routes.Defs.{Updated, IsAllocated}
use twemproxy.Dist.Routes.Ketama.{ketama_update-Updated, IsRing, ring_points_of}
use twemproxy.Dist.Routes.Modula.{IsWeighted, modula_update-Updated}
use twemproxy.Dist.Routes.Random.{IsUniform, random_update-Updated}
use twemproxy.Dist.Ketama.{ketama_update}
use twemproxy.Dist.Modula.{modula_update}
use twemproxy.Dist.Random.{random_update}
use twemproxy.Pool.Route.{server_pool_run}
use twemproxy.Pool.Run.{CanRun}
use twemproxy.Pool.Live.{RoutesAll, server_pool_run-server_pool_idx}
use twemproxy.Pool.Eject.{Unrouted, ejected, server_failure-Unrouted}
use twemproxy.Pool.Failure.{ServerRef, server_failure}
use twemproxy.Examples.Library.{c_library, c_library-IsCalls}

abbrev pub server_a : Server
server_a = record {
  name = b'a' ∷ [];
  weight = 1;
  ns_conn_q = 0;
  s_conn_q = [];
  next_retry = 0;
  failure_count = 1;
}

abbrev pub server_b : Server
server_b = record {
  name = b'b' ∷ [];
  weight = 2;
  ns_conn_q = 0;
  s_conn_q = [];
  next_retry = 100;
  failure_count = 0;
}

abbrev pub server_c : Server
server_c = record {
  name = b'c' ∷ [];
  weight = 3;
  ns_conn_q = 0;
  s_conn_q = [];
  next_retry = 0;
  failure_count = 0;
}

abbrev pub pool_of : DistType → ServerPool
pool_of d = record {
  server = server_a ∷ server_b ∷ server_c ∷ [];
  redis_master = [];
  ncontinuum = 0;
  nserver_continuum = 0;
  continuum = [];
  nlive_server = 0;
  next_rebuild = 0;
  dist_type = d;
  key_hash = hash_fnv1a_64;
  hash_tag = b'{' ∷ b'}' ∷ [];
  server_connections = 1;
  server_retry_timeout = 30;
  server_failure_limit = 2;
  require_auth = false;
  auto_eject_hosts = true;
  redis = true;
}

can_run : CanRun 50 (pool_of DistType.ketama)
unfolding live_sum
can_run = record {
  alloc = (omega arith, omega arith);
  heavy = (omega arith, (omega arith, (omega arith, tt)));
  few = omega arith;
  light = omega arith;
}

server_pool_run-server_pool_idx_example :
    Returns
      (server_pool_run c_library
        (record { now = some 50; allocates = true })
        (pool_of DistType.ketama))
      (RoutesAll 7 50 (b'k' ∷ b'1' ∷ []))
server_pool_run-server_pool_idx_example =
    server_pool_run-server_pool_idx c_library 7 50 true (pool_of DistType.ketama) (b'k' ∷ b'1' ∷ [])
      c_library-IsCalls can_run

ketama_update-Updated_example :
    Returns (ketama_update c_library (some 50) true (pool_of DistType.ketama)) (
      Updated
        (IsRing 50)
        160
        (ring_points_of c_library 50 (pool_of DistType.ketama))
        50
        true
        (pool_of DistType.ketama))
ketama_update-Updated_example =
    ketama_update-Updated c_library (c_library-IsCalls.sorts) (c_library-IsCalls.shares) 50 true
      (pool_of DistType.ketama) (can_run.alloc) (can_run.heavy) (can_run.few)
      (omega (arith, can_run.light))

allocated : (d : DistType) → IsAllocated 1 (pool_of d)
allocated d = (omega arith, omega arith)

modula_update-Updated_example : Returns (modula_update (some 50) true (pool_of DistType.modula)) (
    Updated
      (IsWeighted 50)
      1
      (live_sum true 50 (λ s. s.weight) (server_a ∷ server_b ∷ server_c ∷ []))
      50
      true
      (pool_of DistType.modula))
unfolding live_sum
modula_update-Updated_example =
    modula_update-Updated 50 true (pool_of DistType.modula) (allocated DistType.modula)
      (omega arith) (omega arith)

random_update-Updated_example : Returns (random_update (some 50) true (pool_of DistType.random)) (
    Updated
      (IsUniform 50)
      1
      (live_sum true 50 (λ _. 1) (server_a ∷ server_b ∷ server_c ∷ []))
      50
      true
      (pool_of DistType.random))
unfolding live_sum
random_update-Updated_example =
    random_update-Updated 50 true (pool_of DistType.random) (allocated DistType.random)
      (omega arith)

CanRun-ejected : CanRun 60 (ejected (pool_of DistType.ketama) 0 server_a 50)
unfolding live_sum
CanRun-ejected = record {
  alloc = (omega arith, omega arith);
  heavy = (omega arith, (omega arith, (omega arith, tt)));
  few = omega arith;
  light = omega arith;
}

server_failure-Unrouted_example :
    Returns
      (server_failure c_library
        (some 50)
        (record { now = some 60; allocates = true })
        (pool_of DistType.ketama)
        (ServerRef.in_pool 0))
      (Unrouted 0 true)
server_failure-Unrouted_example =
    server_failure-Unrouted c_library 50 60 true (pool_of DistType.ketama) 0 server_a
      c_library-IsCalls CanRun-ejected refl refl (omega arith) (omega arith) (omega arith)
