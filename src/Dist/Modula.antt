-- ===== src/Dist/Modula.antt =====
-- src/hashkit/nc_modula.c.
use twemproxy.Common.{
  ℕ, ◌+◌, ◌*◌, ◌%◌, List, Bool, Option, none, some, ◌>>=◌, ◌==◌, ltb, if◌then◌else◌, u32, get_elem?,
}
use mathlib.Core.Option
use twemproxy.Server.{Status, Continuum, ServerPool}
use twemproxy.Dist.Census.{pool_census, counted}
use twemproxy.Dist.Cursor.{Cursor, start, put_point, add_points, for_count, for_live, realloc}

-- The points of one server, `weight` of them.
unfoldable pub modula_points : ℕ → ℕ → Cursor → Option Cursor
modula_points index weight c =
    for_count weight 0 (λ _ c'. put_point index 0 c' >>= λ c''. some (add_points 1 c'')) c

-- The last loop, over the servers that are live.
unfoldable pub modula_fill : ℕ → ServerPool → Option (Status × ServerPool)
modula_fill now pool =
    for_live pool.auto_eject_hosts now (λ i s c. modula_points i s.weight c) 0 pool.server
      (start pool.continuum)
    >>= λ c. some (Status.ok, record pool { continuum = c.mem; ncontinuum = c.pointer_counter })

-- The allocation for a larger total weight, when it succeeds.
unfoldable pub modula_grow : ℕ → ServerPool → ServerPool
modula_grow total_weight pool =
    let nserver_continuum = u32 (total_weight + 10) in
    let ncontinuum = u32 (nserver_continuum * 1) in
    record pool {
      continuum = realloc ncontinuum pool.continuum;
      nserver_continuum = nserver_continuum;
    }

-- `now` is `none` where `nc_usec_now` fails; `allocates` says whether `nc_realloc` succeeds.
unfoldable pub modula_update : Option ℕ → Bool → ServerPool → Option (Status × ServerPool)
modula_update none allocates pool = some (Status.error, pool)
modula_update (some now) allocates pool =
    let t = pool_census now pool in
    if t.nlive_server == 0
    then some (Status.ok, counted now pool)
    else (if ltb pool.nserver_continuum t.total_weight
        then (if allocates
            then modula_fill now (modula_grow t.total_weight (counted now pool))
            else some (Status.enomem, counted now pool))
        else modula_fill now (counted now pool))

-- `none` is a division by zero or a read behind the allocation.
unfoldable pub modula_dispatch : List Continuum → ℕ → ℕ → Option ℕ
modula_dispatch continuum ncontinuum hash =
    if ncontinuum == 0
    then none
    else Option.map (λ c. c.index) (get_elem? continuum (hash % ncontinuum))
