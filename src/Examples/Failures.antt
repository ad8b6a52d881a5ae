-- ===== src/Examples/Failures.antt =====
-- Failures and retries of the servers of the pool.
use twemproxy.Common.{◌≡◌, refl, arith, inl, inr, [], ◌∷◌, replicate, true, get_elem?, some, ◌>>=◌}
use twemproxy.Server.{Status, ServerPool, DistType}
use twemproxy.Dist.Census.{
  is_live, census, no_census, revive, count_server, weigh_server, revive_all,
}
use twemproxy.Dist.CensusLaws.{IsEarliest, census-IsEarliest}
use twemproxy.Dist.Fill.{live_sum}
use twemproxy.Dist.Routes.Defs.{Updated}
use twemproxy.Pool.Route.{server_pool_run, server_pool_update}
use twemproxy.Pool.Retry.{server_pool_update_retries}
use twemproxy.Pool.Failure.{ServerRef, server_ok}
use twemproxy.Pool.Streak.{failures, failed, server_ok-failures}
use twemproxy.Examples.Library.{c_library}
use twemproxy.Examples.Pools.{server_a, server_b, server_c, pool_of}

census-IsEarliest_example :
    IsEarliest true 50
      (server_a ∷ server_b ∷ server_c ∷ [])
      (census true 50 (server_a ∷ server_b ∷ server_c ∷ []) no_census).next_rebuild
census-IsEarliest_example = census-IsEarliest true 50 (server_a ∷ server_b ∷ server_c ∷ [])

server_ok-failures_example :
    (server_ok (pool_of DistType.modula) (ServerRef.in_pool 0) >>= λ pool'.
    failures c_library
      (λ n. some n)
      (λ n. record { now = some n; allocates = true })
      1
      pool'
      (ServerRef.in_pool 0))
    ≡ some (failed (pool_of DistType.modula) 0 server_a 1)
server_ok-failures_example =
    server_ok-failures c_library (λ n. some n) (λ n. record { now = some n; allocates = true })
      (pool_of DistType.modula) 0 1 server_a refl refl (omega arith) (omega arith)

-- The pool as random_update leaves it at the time 50.
abbrev updated_pool : ServerPool
updated_pool = record (pool_of DistType.random) {
  nlive_server = 2;
  next_rebuild = 100;
  ncontinuum = 2;
  nserver_continuum = 12;
  continuum =
      record { index = 0; value = 0 }
      ∷ record { index = 2; value = 0 }
      ∷ replicate 10 (record { index = 0; value = 0 });
}

updated_pool-Updated :
    Updated
      (λ pool. pool.ncontinuum ≡ 2)
      1
      2
      50
      true
      (pool_of DistType.random)
      (Status.ok, updated_pool)
unfolding revive_all revive live_sum census count_server weigh_server
updated_pool-Updated = record {
  revived = refl;
  nlive = refl;
  rebuild = census-IsEarliest true 50 (server_a ∷ server_b ∷ server_c ∷ []);
  allocated = (omega arith, omega arith);
  configured = refl;
  outcome = inr (inl (refl, omega arith, refl, refl));
}

server_pool_update_retries_example :
    (server_pool_update c_library
        (some 120)
        (record { now = some 121; allocates = true })
        updated_pool
      ≡ server_pool_run c_library (record { now = some 121; allocates = true }) updated_pool)
    × (get_elem? updated_pool.server 1 ≡ some server_b)
    × (is_live true 121 server_b ≡ true)
server_pool_update_retries_example =
    server_pool_update_retries c_library (λ pool. pool.ncontinuum ≡ 2) 1 2 50 120 121 1 true true
      (pool_of DistType.random) updated_pool Status.ok server_b updated_pool-Updated refl refl refl
      (omega arith) (omega arith)
