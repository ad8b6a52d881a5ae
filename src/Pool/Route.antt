-- ===== src/Pool/Route.antt =====
-- server_pool_run, server_pool_hash, server_pool_idx and server_pool_update of src/nc_server.c, and
-- nc_strchr of src/nc_string.h.
use twemproxy.Common.{
  ℕ, ◌+◌, ◌-◌, List, [], ◌∷◌, Bool, not, Option, none, some, ◌==◌, ltb, leb, if◌then◌else◌, get_or,
  length, take, drop,
}
use twemproxy.Server.{Status, ServerPool, DistType}
use twemproxy.Dist.Ketama.{Calls, ketama_update, ketama_dispatch}
use twemproxy.Dist.Modula.{modula_update, modula_dispatch}
use twemproxy.Dist.Random.{random_update, random_dispatch}

-- What a call of the clock and of the allocator gives.
pub record Moment : Type 0 where
  pub now : Option ℕ
  pub allocates : Bool

-- The switch over `dist_type`.
unfoldable pub run_update : Calls → Moment → ServerPool → DistType → Option (Status × ServerPool)
run_update calls at pool DistType.ketama = ketama_update calls at.now at.allocates pool
run_update calls at pool DistType.modula = modula_update at.now at.allocates pool
run_update calls at pool DistType.random = random_update at.now at.allocates pool

unfoldable pub server_pool_run : Calls → Moment → ServerPool → Option (Status × ServerPool)
server_pool_run calls at pool = run_update calls at pool pool.dist_type

unfoldable pub server_pool_hash : ServerPool → List ℕ → ℕ
server_pool_hash pool key =
    if length pool.server == 1 then 0 else (if length key == 0 then 0 else pool.key_hash key)

-- The offset of the first `c`, where the text begins at the offset `p`.
unfoldable pub nc_strchr : ℕ → List ℕ → ℕ → Option ℕ
nc_strchr p [] c = none
nc_strchr p (b ∷ bytes) c = if b == c then some p else nc_strchr (p + 1) bytes c

-- The part of the key that is hashed: what stands between the two characters of the tag, if the
-- key has both and something stands between them.
unfoldable pub tagged_key : List ℕ → List ℕ → List ℕ
tagged_key hash_tag key =
    if length hash_tag == 0 then key else (elim (nc_strchr 0 key (get_or hash_tag 0 0)) [
      | none ↦ key
      | some tag_start ↦
          elim (nc_strchr (tag_start + 1) (drop (tag_start + 1) key) (get_or hash_tag 1 0)) [
            | none ↦ key
            | some tag_end ↦
                if ltb 1 (tag_end - tag_start)
                then take (tag_end - (tag_start + 1)) (drop (tag_start + 1) key)
                else key
          ]
    ])

-- The switch over `dist_type`, for the part of the key that is hashed. `drawn` is what `random` of
-- the C library returns.
unfoldable pub dispatch : ℕ → ServerPool → DistType → List ℕ → Option ℕ
dispatch drawn pool DistType.ketama part =
    ketama_dispatch pool.continuum pool.ncontinuum (server_pool_hash pool part)
dispatch drawn pool DistType.modula part =
    modula_dispatch pool.continuum pool.ncontinuum (server_pool_hash pool part)
dispatch drawn pool DistType.random part = random_dispatch drawn pool.continuum pool.ncontinuum

unfoldable pub server_pool_idx : ℕ → ServerPool → List ℕ → Option ℕ
server_pool_idx drawn pool key = dispatch drawn pool pool.dist_type (tagged_key pool.hash_tag key)

-- The first moment is that of the test, the second that of the update.
unfoldable pub server_pool_update :
    Calls → Option ℕ → Moment → ServerPool → Option (Status × ServerPool)
server_pool_update calls now later pool =
    if not pool.auto_eject_hosts
    then some (Status.ok, pool)
    else (if pool.next_rebuild == 0 then some (Status.ok, pool) else (elim now [
      | none ↦ some (Status.error, pool)
      | some time ↦
          if leb time pool.next_rebuild
          then (if pool.nlive_server == 0
              then some (Status.error, pool)
              else some (Status.ok, pool))
          else server_pool_run calls later pool
    ]))
