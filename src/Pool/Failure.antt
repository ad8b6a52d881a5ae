-- ===== src/Pool/Failure.antt =====
-- server_failure and server_ok of src/nc_server.c.
use twemproxy.Common.{
  ℕ, ◌+◌, List, [], ◌∷◌, Bool, false, not, ◌&&◌, Option, none, some, ◌>>=◌, ◌==◌, ltb,
  if◌then◌else◌, u32, get_elem?, set, length,
}
use twemproxy.Server.{Server, ServerPool}
use twemproxy.Dist.Ketama.{Calls}
use twemproxy.Pool.Route.{Moment, server_pool_run}

-- A pointer to a server: a place in `pool->server` or in `pool->redis_master`.
pub data ServerRef : Type 0 where
  in_pool : ℕ → ServerRef
  in_master : ℕ → ServerRef

-- The calls of the statistics.
pub data Stat : Type 0 where
  server_ejected_at : ServerRef → ℕ → Stat
  server_ejects : Stat

unfoldable pub deref : ServerPool → ServerRef → Option Server
deref pool (ServerRef.in_pool i) = get_elem? pool.server i
deref pool (ServerRef.in_master i) = get_elem? pool.redis_master i

unfoldable pub assign : ServerPool → ServerRef → Server → ServerPool
assign pool (ServerRef.in_pool i) s = record pool { server = set pool.server i s }
assign pool (ServerRef.in_master i) s = record pool { redis_master = set pool.redis_master i s }

-- `server == master`, the server at 0 of `redis_master`.
unfoldable pub is_master : ServerRef → Bool
is_master (ServerRef.in_pool i) = false
is_master (ServerRef.in_master i) = i == 0

-- The ejection itself. The status of the update is only logged.
unfoldable pub eject :
    Calls → ℕ → Moment → ServerPool → ServerRef → Server → Option (ServerPool × List Stat)
eject calls now later pool ref s =
    server_pool_run calls later (
      assign pool ref
        (record s { failure_count = 0; next_retry = now + pool.server_retry_timeout }))
    >>= λ (status, pool'). some (pool', Stat.server_ejected_at ref now ∷ Stat.server_ejects ∷ [])

-- `now` is the clock of the function, `later` what server_pool_run meets.
unfoldable pub server_failure :
    Calls → Option ℕ → Moment → ServerPool → ServerRef → Option (ServerPool × List Stat)
server_failure calls now later pool ref =
    if not pool.auto_eject_hosts
    then some (pool, [])
    else (if (pool.redis && ltb 0 (length pool.redis_master)) && is_master ref
        then some (pool, [])
        else (deref pool ref >>= λ s.
            let failed = record s { failure_count = u32 (s.failure_count + 1) } in
            let pool' = assign pool ref failed in
            if ltb failed.failure_count pool.server_failure_limit
            then some (pool', [])
            else (elim now [
              | none ↦ some (pool', [])
              | some time ↦ eject calls time later pool' ref failed
            ])))

unfoldable pub server_ok : ServerPool → ServerRef → Option ServerPool
server_ok pool ref = deref pool ref >>= λ s. some (
    if s.failure_count == 0
    then pool
    else assign pool ref (record s { failure_count = 0; next_retry = 0 }))
