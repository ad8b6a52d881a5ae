-- ===== src/Dist/Routes/Modula.antt =====
-- modula_update of src/hashkit/nc_modula.c builds a continuum of the live servers by weight.
use twemproxy.Common.{
  ℕ, take, ◌+◌, ◌*◌, ◌^◌, ◌≤◌, ◌<◌, ◌≡◌, refl, arith, Bool, some, Returns, Returns->>=, length,
  ◌>>=◌, ltb, u32,
}
use twemproxy.Server.{Continuum, ServerPool}
use twemproxy.Dist.Census.{no_census, revive, pool_census, counted}
use twemproxy.Dist.CensusLaws.{census-total, live_sum-revive_all}
use twemproxy.Dist.Cursor.{Cursor, put_point, add_points}
use twemproxy.Dist.Fill.{
  IsFilled, live_sum, put_point-IsFilled, add_points-IsFilled, for_count-IsFilled, length-realloc,
}
use twemproxy.Dist.Modula.{modula_points, modula_fill, modula_grow, modula_update}
use twemproxy.Dist.Routes.Points.{
  live_points, put_many, for_live-all, IsShared, HasPoints, Filled-IsShared,
}
use twemproxy.Dist.Routes.Defs.{
  IsLivePoint, IsRouted, IsAllocated, Updated, Filled, Filled→Routed, Updated-branches,
  for_live-start,
}

module _ (Q : Continuum → Type 0) (cap : ℕ) (small : cap < 2 ^ 32) where
  modula_points-IsFilled :
      (i weight n : ℕ) (c : Cursor)
      → Q (record { index = i; value = 0 })
      → IsFilled Q cap small n n c
      → n + weight ≤ cap
      → Returns (modula_points i weight c) (IsFilled Q cap small (n + weight) (n + weight))
  unfolding modula_points
  modula_points-IsFilled i weight n c q h room =
      let once : weight * 1 ≡ weight = omega arith in
      let body = λ (j : ℕ) (c' : Cursor). put_point i 0 c' >>= λ c''. some (add_points 1 c'') in
      rw once at (
        for_count-IsFilled Q cap small 1 1 body weight 0 n n c
          (λ j n' m' c' h' fits counts.
            Returns->>= (IsFilled Q cap small (n' + 1) m') _ (put_point i 0 c') _
              (put_point-IsFilled Q cap small i 0 n' m' c' h' (omega arith) q)
              (λ c'' h''. add_points-IsFilled Q cap small 1 (n' + 1) m' c'' h'' counts))
          h (omega arith) (omega arith))

modula_fill-IsRouted :
    (now : ℕ) (pool : ServerPool)
    → length pool.continuum < 2 ^ 32
    → live_sum pool.auto_eject_hosts now (λ s. s.weight) pool.server ≤ length pool.continuum
    → Returns (modula_fill now pool) (
        Filled (IsRouted now) (live_sum pool.auto_eject_hosts now (λ s. s.weight) pool.server) pool)
unfolding modula_fill
modula_fill-IsRouted now pool small room =
    Returns->>= (IsFilled Q cap small total total) (Filled (IsRouted now) total pool) _ _
      (for_live-start pool.auto_eject_hosts now (λ s. s.weight) _ pool.server pool.continuum cap
        small refl room
        (λ i s n c q h fits. modula_points-IsFilled Q cap small i s.weight n c (q 0) h fits))
      (λ c h. (
        refl,
        refl,
        refl,
        refl,
        refl,
        h.sized,
        record { fits = omega (arith, h.counted, h.sized, room); live = rw h.counted h.written },
        h.counted,
        refl,
      ))
  where
    Q : Continuum → Type 0
    Q = IsLivePoint pool.auto_eject_hosts now pool.server

    cap : ℕ
    cap = length pool.continuum

    total : ℕ
    total = live_sum pool.auto_eject_hosts now (λ s. s.weight) pool.server

-- As many points of each live server as its weight, and no other.
abbrev pub IsWeighted : ℕ → ServerPool → Type 0
IsWeighted now pool = IsShared (λ s. s.weight) now pool

modula_fill-points :
    (now : ℕ) (pool : ServerPool)
    → length pool.continuum < 2 ^ 32
    → live_sum pool.auto_eject_hosts now (λ s. s.weight) pool.server ≤ length pool.continuum
    → Returns (modula_fill now pool) (HasPoints (λ s. s.weight) now)
unfolding modula_fill modula_points
modula_fill-points now pool small room =
    Returns->>=
      (λ c.
        take c.pointer_counter c.mem
        ≡ live_points (λ s. s.weight) pool.auto_eject_hosts now 0 pool.server)
      (HasPoints (λ s. s.weight) now) _ _
      (for_live-all (λ s. s.weight) pool.auto_eject_hosts now (length pool.continuum) _
        (λ i n points s c fits ready.
          put_many i n (length pool.continuum) s.weight 0 points c small fits ready)
        pool.continuum pool.server refl room)
      (λ c h. h)

modula_fill-Filled :
    (now : ℕ) (pool : ServerPool)
    → length pool.continuum < 2 ^ 32
    → live_sum pool.auto_eject_hosts now (λ s. s.weight) pool.server ≤ length pool.continuum
    → Returns (modula_fill now pool) (
        Filled
          (IsWeighted now)
          (live_sum pool.auto_eject_hosts now (λ s. s.weight) pool.server)
          pool)
modula_fill-Filled now pool small room =
    Filled-IsShared (λ s. s.weight) now _ pool (modula_fill now pool)
      (modula_fill-IsRouted now pool small room) (modula_fill-points now pool small room)

-- With a continuum as it was allocated, fewer than 2 ^ 32 live servers and no overflow in the total
-- weight, modula_update does nothing undefined: if a server is live the points in use are exactly as
-- many for each live server as its weight, in the order of the servers, or it reports that the
-- allocation failed.
pub modula_update-Updated :
    (now : ℕ) (allocates : Bool) (pool : ServerPool)
    → IsAllocated 1 pool
    → live_sum pool.auto_eject_hosts now (λ _. 1) pool.server < 2 ^ 32
    → live_sum pool.auto_eject_hosts now (λ s. s.weight) pool.server + 10 < 2 ^ 32
    → Returns (modula_update (some now) allocates pool) (
        Updated
          (IsWeighted now)
          1
          (live_sum pool.auto_eject_hosts now (λ s. s.weight) pool.server)
          now
          allocates
          pool)
unfolding modula_update modula_grow
modula_update-Updated now allocates pool alloc small light =
    Updated-branches (IsWeighted now) 1 total now allocates pool alloc small
      (ltb pool.nserver_continuum (pool_census now pool).total_weight)
      (modula_fill now (modula_grow (pool_census now pool).total_weight (counted now pool)))
      (modula_fill now (counted now pool))
      (λ live grows.
        Filled→Routed (IsWeighted now) 1 total now pool grown _ refl refl refl
          (omega (arith, weighed, grown_length)) refl
          (rw same_total at (
            modula_fill-Filled now grown (omega (arith, grown_length, weighed))
              (omega (arith, grown_length, weighed, same_total)))))
      (λ live keeps.
        Filled→Routed (IsWeighted now) 1 total now pool (counted now pool) _ refl refl refl alloc
          refl
          (rw same_total at (
            modula_fill-Filled now (counted now pool) alloc.1
              (ground (arith, same_total, weighed)))))
  where
    total : ℕ
    total = live_sum pool.auto_eject_hosts now (λ s. s.weight) pool.server

    weighed : (pool_census now pool).total_weight ≡ total
    weighed =
        omega (arith, census-total pool.auto_eject_hosts now pool.server no_census (omega arith))

    same_total :
        live_sum pool.auto_eject_hosts now (λ s. s.weight) (counted now pool).server ≡ total
    same_total =
        live_sum-revive_all pool.auto_eject_hosts now (λ s. s.weight) pool.server
          (λ s. unfold revive in ground arith)

    grown : ServerPool
    grown = modula_grow (pool_census now pool).total_weight (counted now pool)

    grown_length : length grown.continuum ≡ u32 (u32 ((pool_census now pool).total_weight + 10) * 1)
    grown_length = length-realloc _ pool.continuum
