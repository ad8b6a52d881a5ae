-- ===== src/Dist/Routes/Random.antt =====
-- random_update of src/hashkit/nc_random.c builds a continuum of the live servers alike.
use twemproxy.Common.{
  ℕ, take, ◌+◌, ◌*◌, ◌^◌, ◌≤◌, ◌<◌, ◌≡◌, refl, arith, Bool, some, Returns, Returns->>=, length,
  ◌>>=◌, ltb, u32,
}
use twemproxy.Server.{Continuum, ServerPool}
use twemproxy.Dist.Census.{no_census, revive, pool_census, counted}
use twemproxy.Dist.CensusLaws.{census-nlive, live_sum-revive_all}
use twemproxy.Dist.Cursor.{Cursor, put_point, add_points}
use twemproxy.Dist.Fill.{
  IsFilled, live_sum, put_point-IsFilled, add_points-IsFilled, length-realloc,
}
use twemproxy.Dist.Random.{random_fill, random_grow, random_update}
use twemproxy.Dist.Routes.Points.{
  live_points, put_one, for_live-all, IsShared, HasPoints, Filled-IsShared,
}
use twemproxy.Dist.Routes.Defs.{
  IsLivePoint, IsRouted, IsAllocated, Updated, Filled, Filled→Routed, Updated-branches,
  for_live-start,
}

module _ (Q : Continuum → Type 0) (cap : ℕ) (small : cap < 2 ^ 32) where
  random_point-IsFilled :
      (i n : ℕ) (c : Cursor)
      → Q (record { index = i; value = 0 })
      → IsFilled Q cap small n n c
      → n + 1 ≤ cap
      → Returns
          (put_point i 0 c >>= λ c'. some (add_points 1 c'))
          (IsFilled Q cap small (n + 1) (n + 1))
  random_point-IsFilled i n c q h room =
      Returns->>= (IsFilled Q cap small (n + 1) n) _ (put_point i 0 c) _
        (put_point-IsFilled Q cap small i 0 n n c h (omega arith) q)
        (λ c' h'. add_points-IsFilled Q cap small 1 (n + 1) n c' h' room)

random_fill-IsRouted :
    (now : ℕ) (pool : ServerPool)
    → length pool.continuum < 2 ^ 32
    → live_sum pool.auto_eject_hosts now (λ _. 1) pool.server ≤ length pool.continuum
    → Returns
        (random_fill now pool)
        (Filled (IsRouted now) (live_sum pool.auto_eject_hosts now (λ _. 1) pool.server) pool)
unfolding random_fill
random_fill-IsRouted now pool small room =
    Returns->>= (IsFilled Q cap small total total) (Filled (IsRouted now) total pool) _ _
      (for_live-start pool.auto_eject_hosts now (λ _. 1) _ pool.server pool.continuum cap small refl
        room (λ i s n c q h fits. random_point-IsFilled Q cap small i n c (q 0) h fits))
      (λ c h. (
        refl,
        refl,
        refl,
        refl,
        refl,
        h.sized,
        record { fits = omega (arith, h.counted, h.sized, room); live = rw h.counted h.written },
        h.counted,
        refl,
      ))
  where
    Q : Continuum → Type 0
    Q = IsLivePoint pool.auto_eject_hosts now pool.server

    cap : ℕ
    cap = length pool.continuum

    total : ℕ
    total = live_sum pool.auto_eject_hosts now (λ _. 1) pool.server

-- One point of each live server, and no other.
abbrev pub IsUniform : ℕ → ServerPool → Type 0
IsUniform now pool = IsShared (λ _. 1) now pool

random_fill-points :
    (now : ℕ) (pool : ServerPool)
    → length pool.continuum < 2 ^ 32
    → live_sum pool.auto_eject_hosts now (λ _. 1) pool.server ≤ length pool.continuum
    → Returns (random_fill now pool) (HasPoints (λ _. 1) now)
unfolding random_fill
random_fill-points now pool small room =
    Returns->>=
      (λ c.
        take c.pointer_counter c.mem ≡ live_points (λ _. 1) pool.auto_eject_hosts now 0 pool.server)
      (HasPoints (λ _. 1) now) _ _
      (for_live-all (λ _. 1) pool.auto_eject_hosts now (length pool.continuum) _
        (λ i n points s c fits ready.
          put_one i n (length pool.continuum) points c small (omega (arith, fits)) ready)
        pool.continuum pool.server refl room)
      (λ c h. h)

random_fill-Filled :
    (now : ℕ) (pool : ServerPool)
    → length pool.continuum < 2 ^ 32
    → live_sum pool.auto_eject_hosts now (λ _. 1) pool.server ≤ length pool.continuum
    → Returns
        (random_fill now pool)
        (Filled (IsUniform now) (live_sum pool.auto_eject_hosts now (λ _. 1) pool.server) pool)
random_fill-Filled now pool small room =
    Filled-IsShared (λ _. 1) now _ pool (random_fill now pool)
      (random_fill-IsRouted now pool small room) (random_fill-points now pool small room)

-- With a continuum as it was allocated and fewer than 2 ^ 32 - 10 live servers, random_update does
-- nothing undefined: if a server is live the points in use are exactly one for each live server, in the
-- order of the servers, or it reports that the allocation failed.
pub random_update-Updated :
    (now : ℕ) (allocates : Bool) (pool : ServerPool)
    → IsAllocated 1 pool
    → live_sum pool.auto_eject_hosts now (λ _. 1) pool.server + 10 < 2 ^ 32
    → Returns (random_update (some now) allocates pool) (
        Updated
          (IsUniform now)
          1
          (live_sum pool.auto_eject_hosts now (λ _. 1) pool.server)
          now
          allocates
          pool)
unfolding random_update random_grow
random_update-Updated now allocates pool alloc small =
    Updated-branches (IsUniform now) 1 total now allocates pool alloc (omega arith)
      (ltb pool.nserver_continuum (pool_census now pool).nlive_server)
      (random_fill now (random_grow (pool_census now pool).nlive_server (counted now pool)))
      (random_fill now (counted now pool))
      (λ live grows.
        Filled→Routed (IsUniform now) 1 total now pool grown _ refl refl refl
          (omega (arith, weighed, grown_length)) refl
          (rw same_total at (
            random_fill-Filled now grown (omega (arith, grown_length, weighed))
              (omega (arith, grown_length, weighed, same_total)))))
      (λ live keeps.
        Filled→Routed (IsUniform now) 1 total now pool (counted now pool) _ refl refl refl alloc
          refl
          (rw same_total at (
            random_fill-Filled now (counted now pool) alloc.1
              (ground (arith, same_total, weighed)))))
  where
    total : ℕ
    total = live_sum pool.auto_eject_hosts now (λ _. 1) pool.server

    weighed : (pool_census now pool).nlive_server ≡ total
    weighed =
        omega (arith, census-nlive pool.auto_eject_hosts now pool.server no_census (omega arith))

    same_total : live_sum pool.auto_eject_hosts now (λ _. 1) (counted now pool).server ≡ total
    same_total =
        live_sum-revive_all pool.auto_eject_hosts now (λ _. 1) pool.server
          (λ s. unfold revive in ground arith)

    grown : ServerPool
    grown = random_grow (pool_census now pool).nlive_server (counted now pool)

    grown_length : length grown.continuum ≡ u32 (u32 ((pool_census now pool).nlive_server + 10) * 1)
    grown_length = length-realloc _ pool.continuum
