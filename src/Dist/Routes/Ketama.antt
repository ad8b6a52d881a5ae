-- ===== src/Dist/Routes/Ketama.antt =====
-- ketama_update of src/hashkit/nc_ketama.c builds a sorted continuum of the live servers.
use twemproxy.Common.{
  ℕ, ◌+◌, ◌-◌, ◌*◌, ◌/◌, ◌^◌, ◌≤◌, ◌<◌, ◌≡◌, refl, ◌∙◌, ap, arith, List, [], ◌∷◌, ◌++◌, Bool,
  Option, some, Returns, Returns->>=, length, take, drop, ltb, u32, All, length-append, length-take,
  length-drop, zero, suc,
}
use native.Mathlib.Nat.{add-zero}
use twemproxy.Server.{Server, Continuum, ServerPool}
use twemproxy.Dist.Census.{no_census, revive, pool_census, counted}
use twemproxy.Dist.CensusLaws.{census-total, census-nlive, live_sum-revive_all}
use twemproxy.Dist.Cursor.{Cursor, put_point, for_count}
use twemproxy.Dist.Fill.{
  IsFilled, live_sum, put_point-IsFilled, add_points-IsFilled, for_count-IsFilled, length-realloc,
}
use twemproxy.Dist.Ketama.{
  Calls, host_key, ketama_hash, ketama_item_cmp, ketama_points, ketama_fill, ketama_grow,
  ketama_update,
}
use twemproxy.Dist.Search.{IsAscending}
use twemproxy.Dist.Share.{IsShare, share_sum-le, live_sum-le_weight, live_sum-u32-le}
use twemproxy.Dist.Sort.{
  IsSort, ketama_item_cmp-IsComparison, IsOrdered→IsAscending, All-perm, length-perm,
}
use twemproxy.Dist.Routes.Defs.{
  IsLivePoint, IsRouted, IsAllocated, Updated, Filled, Filled→Routed, Updated-branches,
  for_live-start,
}

module _ (Q : Continuum → Type 0) (cap : ℕ) (small : cap < 2 ^ 32) (calls : Calls) where
  -- The four points of one hash of a host key.
  abbrev four_points : ℕ → List ℕ → ℕ → Cursor → Option Cursor
  four_points i name pointer_index =
      for_count 4 0 (λ x. put_point i (ketama_hash calls (host_key name (pointer_index - 1)) x))

  four_points-IsFilled :
      (i : ℕ) (name : List ℕ) (j n m : ℕ) (c : Cursor)
      → ((value : ℕ) → Q (record { index = i; value = value }))
      → IsFilled Q cap small n m c
      → n + 4 ≤ cap
      → m + 0 ≤ cap
      → Returns (four_points i name j c) (IsFilled Q cap small (n + 4) (m + 0))
  four_points-IsFilled i name j n m c q h fits counts =
      for_count-IsFilled Q cap small 1 0 _ 4 0 n m c
        (λ x n' m' c' h' fits' counts'.
          rw add-zero (put_point-IsFilled Q cap small i _ n' m' c' h' (omega arith) (q _)))
        h fits counts

  ketama_points-IsFilled :
      (i : ℕ) (name : List ℕ) (hashes n : ℕ) (c : Cursor)
      → ((value : ℕ) → Q (record { index = i; value = value }))
      → IsFilled Q cap small n n c
      → n + hashes * 4 ≤ cap
      → Returns
          (ketama_points calls i name (hashes * 4) c)
          (IsFilled Q cap small (n + hashes * 4) (n + hashes * 4))
  unfolding ketama_points
  ketama_points-IsFilled i name hashes n c q h room =
      Returns->>= (IsFilled Q cap small (n + hashes * 4) n) _
        (for_count (hashes * 4 / 4) 1 (four_points i name) c) _ written
        (λ c' h'. add_points-IsFilled Q cap small (hashes * 4) (n + hashes * 4) n c' h' room)
    where
      written :
          Returns
            (for_count (hashes * 4 / 4) 1 (four_points i name) c)
            (IsFilled Q cap small (n + hashes * 4) n)
      written =
          let quarter : hashes * 4 / 4 ≡ hashes = omega arith in
          let unmoved : n + hashes * 0 ≡ n = omega arith in
          rw quarter (
            rw unmoved at (
              for_count-IsFilled Q cap small 4 0 (four_points i name) hashes 1 n n c
                (λ j n' m' c' h' fits counts.
                  four_points-IsFilled i name j n' m' c' q h' fits counts)
                h room (omega arith)))

-- A continuum that ketama_dispatch can search: points of live servers, their values ascending.
pub record IsRing (now : ℕ) (pool : ServerPool) : Type 0 where
  pub routed : IsRouted now pool
  pub ascending : IsAscending (take pool.ncontinuum pool.continuum)

-- `pointer_per_server` of a server.
abbrev pub points_of : Calls → ℕ → ℕ → Server → ℕ
points_of calls total nlive s = u32 (calls.share s.weight total nlive * 4)

-- All the points that the live servers get.
abbrev pub ring_points_of : Calls → ℕ → ServerPool → ℕ
ring_points_of calls now pool =
    live_sum pool.auto_eject_hosts now
      (points_of calls (live_sum pool.auto_eject_hosts now (λ s. s.weight) pool.server)
        (live_sum pool.auto_eject_hosts now (λ _. 1) pool.server))
      pool.server

take-append {ℓ} : {A : Type ℓ} (n : ℕ) (xs ys : List A) → length xs ≡ n → take n (xs ++ ys) ≡ xs
take-append zero [] ys h = refl
take-append zero (x ∷ xs) ys h = absurd (omega arith)
take-append (suc n) [] ys h = absurd (omega arith)
take-append (suc n) (x ∷ xs) ys h = ap (λ t. x ∷ t) (take-append n xs ys (omega arith))

-- The sort and the rest of the array behind it.
module _ (now : ℕ) (pool : ServerPool) (calls : Calls) (sorts : IsSort calls.qsort)
    (mem : List Continuum) (n : ℕ) (fits : n ≤ length mem)
    (live : All (IsLivePoint pool.auto_eject_hosts now pool.server) (take n mem)) where
  abbrev sorted_part : List Continuum
  sorted_part = calls.qsort ketama_item_cmp (take n mem)

  abbrev sorted_mem : List Continuum
  sorted_mem = sorted_part ++ drop n mem

  sorted_length : length sorted_part ≡ n
  sorted_length =
      omega (arith, length-perm (sorts.moves ketama_item_cmp (take n mem)), length-take n mem)

  length-sorted_mem : length sorted_mem ≡ length mem
  length-sorted_mem =
      omega (arith, length-append sorted_part (drop n mem), length-drop n mem, sorted_length)

  sorted-IsRing : IsRing now (record pool { ncontinuum = n; continuum = sorted_mem })
  sorted-IsRing =
      let front = take-append n sorted_part (drop n mem) sorted_length in
      record {
        routed = record {
          fits = omega (arith, length-sorted_mem);
          live = rw front (
              All-perm (IsLivePoint pool.auto_eject_hosts now pool.server)
                (sorts.moves ketama_item_cmp (take n mem)) live);
        };
        ascending = rw front (
            IsOrdered→IsAscending sorted_part
              (sorts.orders ketama_item_cmp (take n mem) ketama_item_cmp-IsComparison));
      }

module _ (calls : Calls) (sorts : IsSort calls.qsort) where
  ketama_fill-Filled :
      (now total : ℕ) (pool : ServerPool)
      → length pool.continuum < 2 ^ 32
      → live_sum pool.auto_eject_hosts now (points_of calls total pool.nlive_server) pool.server
        ≤ length pool.continuum
      → Returns (ketama_fill calls now total pool) (
          Filled
            (IsRing now)
            (live_sum pool.auto_eject_hosts now
              (points_of calls total pool.nlive_server)
              pool.server)
            pool)
  unfolding ketama_fill
  ketama_fill-Filled now total pool small room =
      Returns->>= (IsFilled Q cap small points points) (Filled (IsRing now) points pool) _ _
        (for_live-start pool.auto_eject_hosts now (points_of calls total pool.nlive_server) _
          pool.server pool.continuum cap small refl room
          (λ i s n c q h fits. server_points i s n c q h fits))
        (λ c h.
          let inside : points ≤ length c.mem = omega (arith, h.sized, room) in
          rw h.counted (
            refl,
            refl,
            refl,
            refl,
            refl,
            length-sorted_mem now pool calls sorts c.mem points inside h.written ∙ h.sized,
            sorted-IsRing now pool calls sorts c.mem points inside h.written,
            refl,
            refl,
          ))
    where
      Q : Continuum → Type 0
      Q = IsLivePoint pool.auto_eject_hosts now pool.server

      cap : ℕ
      cap = length pool.continuum

      points : ℕ
      points =
          live_sum pool.auto_eject_hosts now (points_of calls total pool.nlive_server) pool.server

      server_points :
          (i : ℕ) (s : Server) (n : ℕ) (c : Cursor)
          → ((value : ℕ) → Q (record { index = i; value = value }))
          → IsFilled Q cap small n n c
          → n + points_of calls total pool.nlive_server s ≤ cap
          → Returns (ketama_points calls i s.name (points_of calls total pool.nlive_server s) c) (
              IsFilled Q cap small
                (n + points_of calls total pool.nlive_server s)
                (n + points_of calls total pool.nlive_server s))
      server_points i s n c q h fits =
          let pps = points_of calls total pool.nlive_server s in
          let fours : pps / 4 * 4 ≡ pps = omega arith in
          rw fours at (
            ketama_points-IsFilled Q cap small calls i s.name (pps / 4) n c q h
              (omega (arith, fours)))

module _ (calls : Calls) (sorts : IsSort calls.qsort) (law : IsShare calls.share) (now : ℕ)
    (allocates : Bool) (pool : ServerPool) (alloc : IsAllocated 160 pool)
    (heavy : All (λ s. 0 < s.weight) pool.server)
    (few : live_sum pool.auto_eject_hosts now (λ _. 1) pool.server ≤ 25000)
    (light : live_sum pool.auto_eject_hosts now (λ s. s.weight) pool.server < 2 ^ 32) where
  abbrev nlive : ℕ
  nlive = live_sum pool.auto_eject_hosts now (λ _. 1) pool.server

  abbrev weight : ℕ
  weight = live_sum pool.auto_eject_hosts now (λ s. s.weight) pool.server

  abbrev ring_points : ℕ
  ring_points = ring_points_of calls now pool

  counts : (pool_census now pool).nlive_server ≡ nlive
  counts = omega (arith, census-nlive pool.auto_eject_hosts now pool.server no_census (omega arith))

  weighed : (pool_census now pool).total_weight ≡ weight
  weighed =
      omega (arith, census-total pool.auto_eject_hosts now pool.server no_census (omega arith))

  -- The allocation for a live server holds its points.
  ring_points-le : 0 < nlive → ring_points ≤ nlive * 160
  ring_points-le live =
      let heavy_enough = live_sum-le_weight pool.auto_eject_hosts now pool.server heavy in
      let shares =
        share_sum-le calls.share law pool.auto_eject_hosts now weight nlive
          (omega (arith, heavy_enough)) pool.server refl refl few in
      omega (
        arith,
        live_sum-u32-le pool.auto_eject_hosts now (λ s. calls.share s.weight weight nlive)
            pool.server,
        shares,
      )

  -- With the C library as it is documented, a continuum as it was allocated, positive weights, at most
  -- 25,000 live servers and no overflow of the total weight, ketama_update does nothing undefined: if a
  -- server is live it leaves as many points as it computes for the live servers, each of a live
  -- server, their values ascending, or reports that the allocation failed. The values themselves are
  -- not fixed.
  pub ketama_update-Updated :
      Returns
        (ketama_update calls (some now) allocates pool)
        (Updated (IsRing now) 160 (ring_points_of calls now pool) now allocates pool)
  unfolding ketama_update ketama_grow
  ketama_update-Updated =
      Updated-branches (IsRing now) 160 ring_points now allocates pool alloc (omega arith)
        (ltb pool.nserver_continuum (pool_census now pool).nlive_server)
        (ketama_fill calls now (pool_census now pool).total_weight
          (ketama_grow (pool_census now pool).nlive_server (counted now pool)))
        (ketama_fill calls now (pool_census now pool).total_weight (counted now pool))
        (λ live grows.
          Filled→Routed (IsRing now) 160 ring_points now pool grown _ refl refl refl
            (omega (arith, counts, grown_length)) refl
            (rw same_points at (
              ketama_fill-Filled calls sorts now (pool_census now pool).total_weight grown
                (omega (arith, counts, grown_length))
                (omega (arith, same_points, counts, grown_length, ring_points-le)))))
        (λ live keeps.
          Filled→Routed (IsRing now) 160 ring_points now pool (counted now pool) _ refl refl refl
            alloc refl
            (rw same_points at (
              ketama_fill-Filled calls sorts now (pool_census now pool).total_weight
                (counted now pool) alloc.1 (ground (arith, same_points, counts, ring_points-le)))))
    where
      same_points :
          live_sum pool.auto_eject_hosts now
            (points_of calls
              (pool_census now pool).total_weight
              (pool_census now pool).nlive_server)
            (counted now pool).server
          ≡ ring_points
      same_points =
          rw (weighed, counts)
            (live_sum-revive_all pool.auto_eject_hosts now (points_of calls weight nlive)
              pool.server (λ s. unfold revive in ground arith))

      grown : ServerPool
      grown = ketama_grow (pool_census now pool).nlive_server (counted now pool)

      grown_length :
          length grown.continuum ≡ u32 (u32 ((pool_census now pool).nlive_server + 10) * 160)
      grown_length = length-realloc _ pool.continuum
