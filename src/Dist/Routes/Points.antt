-- ===== src/Dist/Routes/Points.antt =====
-- The points that modula_update and random_update write: as many for each live server as its weight,
-- or one, in the order of the servers.
use twemproxy.Common.{
  ℕ, ◌+◌, ◌^◌, ◌≤◌, ◌<◌, ◌≡◌, refl, ◌∙◌, arith, List, [], ◌∷◌, ◌++◌, Bool, Bool-cases, inl, inr,
  Option, none, some, Returns, Returns->>=, lt→ltb, if◌then◌else◌, length, take, length-set,
  take-set, replicate, zero, suc, ◌>>=◌,
}
use mathlib.Core.List.{append_assoc, append-nil}
use native.Mathlib.Numerals.{add-one}
use twemproxy.Server.{Status, Server, Continuum, ServerPool}
use twemproxy.Dist.Census.{is_live}
use twemproxy.Dist.Cursor.{Cursor, start, put_point, add_points, for_count, for_live}
use twemproxy.Dist.Fill.{live_sum}
use twemproxy.Dist.Routes.Defs.{IsRouted, Filled}

abbrev pub point_of : ℕ → Continuum
point_of i = record { index = i; value = 0 }

-- As many points of the value 0 for each live server as its weight, the first server having the index
-- `i`.
unfoldable pub live_points : (Server → ℕ) → Bool → ℕ → ℕ → List Server → List Continuum
live_points weight auto_eject now i [] = []
live_points weight auto_eject now i (s ∷ servers) =
    let later = live_points weight auto_eject now (i + 1) servers in
    if is_live auto_eject now s then replicate (weight s) (point_of i) ++ later else later

-- `n` points are written and counted.
abbrev pub Counted : ℕ → List Continuum → ℕ → Cursor → Type 0
Counted n points size c =
    (c.at ≡ n) × (c.pointer_counter ≡ n) × (length c.mem ≡ size) × (take n c.mem ≡ points)

-- One point.
pub put_one :
    (i n size : ℕ) (points : List Continuum) (c : Cursor)
    → size < 2 ^ 32
    → n < size
    → Counted n points size c
    → Returns
        (put_point i 0 c >>= λ c'. some (add_points 1 c'))
        (Counted (n + 1) (points ++ replicate 1 (point_of i)) size)
unfolding put_point add_points
put_one i n size points c small room (at_, counted, sized, written) =
    let inside : c.at < length c.mem = omega (arith, at_, sized, room) in
    rw (lt→ltb _ _ inside) (
      omega (arith, at_, small, room),
      omega (arith, counted, small, room),
      length-set c.mem c.at _ ∙ sized,
      rw (add-one, at_, take-set c.mem n _ (omega (arith, sized, room)), written) refl,
    )

-- `k` points of a server.
pub put_many :
    (i n size k j : ℕ) (points : List Continuum) (c : Cursor)
    → size < 2 ^ 32
    → n + k ≤ size
    → Counted n points size c
    → Returns
        (for_count k j (λ _ c'. put_point i 0 c' >>= λ c''. some (add_points 1 c'')) c)
        (Counted (n + k) (points ++ replicate k (point_of i)) size)
unfolding for_count
put_many i n size zero j points c small room (at_, counted, sized, written) =
    let same : n + 0 ≡ n = omega arith in
    rw (same, append-nil points) (at_, counted, sized, written)
put_many i n size (suc k) j points c small room ready =
    let same : n + suc k ≡ n + 1 + k = omega arith in
    rw same (
      Returns->>= (Counted (n + 1) (points ++ replicate 1 (point_of i)) size) _ _ _
        (put_one i n size points c small (omega (arith, room)) ready)
        (λ c' h.
          rw (append_assoc points (point_of i ∷ []) (replicate k (point_of i))) at
            (put_many i (n + 1) size k (j + 1) _ c' small (omega (arith, room)) h)))

module _ (weight : Server → ℕ) (auto_eject : Bool) (now size : ℕ)
    (body : ℕ → Server → Cursor → Option Cursor)
    (puts : (i n : ℕ) (points : List Continuum) (s : Server) (c : Cursor)
      → n + weight s ≤ size
      → Counted n points size c
      → Returns
          (body i s c)
          (Counted (n + weight s) (points ++ replicate (weight s) (point_of i)) size)) where
  for_live-points :
      (i n : ℕ) (points : List Continuum) (servers : List Server) (c : Cursor)
      → n + live_sum auto_eject now weight servers ≤ size
      → Counted n points size c
      → Returns (for_live auto_eject now body i servers c) (λ c'.
        take c'.pointer_counter c'.mem ≡ points ++ live_points weight auto_eject now i servers)
  unfolding for_live live_points live_sum
  for_live-points i n points [] c room (at_, counted, sized, written) =
      rw (counted, append-nil points) written
  for_live-points i n points (s ∷ servers) c room ready =
      elim (Bool-cases (is_live auto_eject now s)) [
        | inl live ↦
            let fits : n + (weight s + live_sum auto_eject now weight servers) ≤ size =
              rw live at room in
            rw live (
              Returns->>=
                (Counted (n + weight s) (points ++ replicate (weight s) (point_of i)) size) _ _ _
                (puts i n points s c (omega (arith, fits)) ready)
                (λ c' h.
                  rw
                    (append_assoc points (replicate (weight s) (point_of i))
                      (live_points weight auto_eject now (i + 1) servers))
                    at
                    (for_live-points (i + 1) (n + weight s) _ servers c' (omega (arith, fits)) h)))
        | inr dead ↦
            let fits : n + (0 + live_sum auto_eject now weight servers) ≤ size = rw dead at room in
            rw dead (for_live-points (i + 1) n points servers c (omega (arith, fits)) ready)
      ]

  -- From an empty continuum.
  pub for_live-all :
      (mem : List Continuum) (servers : List Server)
      → length mem ≡ size
      → live_sum auto_eject now weight servers ≤ size
      → Returns
          (for_live auto_eject now body 0 servers (start mem))
          (λ c. take c.pointer_counter c.mem ≡ live_points weight auto_eject now 0 servers)
  for_live-all mem servers sized room =
      for_live-points 0 0 [] servers (start mem) (omega (arith, room)) (refl, refl, sized, refl)

-- The continuum holds the points of each live server and no other.
pub record IsShared (weight : Server → ℕ) (now : ℕ) (pool : ServerPool) : Type 0 where
  pub routed : IsRouted now pool
  pub points :
      take pool.ncontinuum pool.continuum
      ≡ live_points weight pool.auto_eject_hosts now 0 pool.server

-- The pool that a fill leaves has the points of its live servers.
abbrev pub HasPoints : (Server → ℕ) → ℕ → Status × ServerPool → Type 0
HasPoints weight now x =
    take (x.1).ncontinuum (x.1).continuum
    ≡ live_points weight (x.1).auto_eject_hosts now 0 (x.1).server

-- What a fill leaves, with the points it wrote.
pub Filled-IsShared :
    (weight : Server → ℕ) (now total : ℕ) (pool : ServerPool) (m : Option (Status × ServerPool))
    → Returns m (Filled (IsRouted now) total pool)
    → Returns m (HasPoints weight now)
    → Returns m (Filled (IsShared weight now) total pool)
Filled-IsShared weight now total pool none h k = h
Filled-IsShared weight now total pool (some (status, pool')) h k =
    (h.0, h.1, h.2, h.3, h.4, h.5, record { routed = h.6; points = k }, h.7, h.8)
