-- ===== src/Dist/Random.antt =====
-- src/hashkit/nc_random.c. The seeding by `srandom` has no effect that the model sees.
use twemproxy.Common.{
  ℕ, ◌+◌, ◌*◌, ◌%◌, List, Bool, Option, none, some, ◌>>=◌, ◌==◌, ltb, if◌then◌else◌, u32, get_elem?,
}
use mathlib.Core.Option
use twemproxy.Server.{Status, Continuum, ServerPool}
use twemproxy.Dist.Census.{pool_census, counted}
use twemproxy.Dist.Cursor.{start, put_point, add_points, for_live, realloc}

-- The last loop: one point for each server that is live.
unfoldable pub random_fill : ℕ → ServerPool → Option (Status × ServerPool)
random_fill now pool =
    for_live pool.auto_eject_hosts now (λ i s c. put_point i 0 c >>= λ c'. some (add_points 1 c')) 0
      pool.server (start pool.continuum)
    >>= λ c. some (Status.ok, record pool { continuum = c.mem; ncontinuum = c.pointer_counter })

unfoldable pub random_grow : ℕ → ServerPool → ServerPool
random_grow nlive_server pool =
    let nserver_continuum = u32 (nlive_server + 10) in
    let ncontinuum = u32 (nserver_continuum * 1) in
    record pool {
      continuum = realloc ncontinuum pool.continuum;
      nserver_continuum = nserver_continuum;
    }

-- `now` is `none` where `nc_usec_now` fails; `allocates` says whether `nc_realloc` succeeds.
unfoldable pub random_update : Option ℕ → Bool → ServerPool → Option (Status × ServerPool)
random_update none allocates pool = some (Status.error, pool)
random_update (some now) allocates pool =
    let t = pool_census now pool in
    if t.nlive_server == 0
    then some (Status.ok, counted now pool)
    else (if ltb pool.nserver_continuum t.nlive_server
        then (if allocates
            then random_fill now (random_grow t.nlive_server (counted now pool))
            else some (Status.enomem, counted now pool))
        else random_fill now (counted now pool))

-- `drawn` is what `random` of the C library returns.
unfoldable pub random_dispatch : ℕ → List Continuum → ℕ → Option ℕ
random_dispatch drawn continuum ncontinuum =
    if ncontinuum == 0
    then none
    else Option.map (λ c. c.index) (get_elem? continuum (drawn % ncontinuum))
