-- ===== src/Dist/Share.antt =====
-- The share of the points that ketama_update computes in `float`, and its sum over the servers.
use twemproxy.Common.{
  ℕ, ◌+◌, ◌*◌, ◌^◌, ◌≤◌, ◌<◌, ◌≡◌, arith, List, [], ◌∷◌, Bool, Bool-cases, inl, inr, u32, All,
}
use native.Mathlib.Decide.{dec_le}
use twemproxy.Server.{Server}
use twemproxy.Dist.Census.{is_live}
use twemproxy.Dist.Fill.{live_sum}

-- The error of `floorf(weight / total * 160 / 4 * nlive + 0.0000000001)`: no operation of IEEE
-- single precision is off by more than one part in 2 ^ 24, so the seven together stay below one
-- part in 2 ^ 20, and the constant below 2 ^ -20. It is multiplied out here.
abbrev pub IsShare : (ℕ → ℕ → ℕ → ℕ) → Type 0
IsShare share =
    (weight total nlive : ℕ)
    → 0 < total
    → weight ≤ total
    → share weight total nlive * total * 2 ^ 20 ≤ 40 * nlive * weight * (2 ^ 20 + 1) + total

-- Each live server with a positive weight adds to the total weight.
pub live_sum-le_weight :
    (auto_eject : Bool) (now : ℕ) (servers : List Server)
    → All (λ s. 0 < s.weight) servers
    → live_sum auto_eject now (λ _. 1) servers ≤ live_sum auto_eject now (λ s. s.weight) servers
unfolding live_sum
live_sum-le_weight auto_eject now [] h = omega arith
live_sum-le_weight auto_eject now (s ∷ servers) h =
    let rest = live_sum-le_weight auto_eject now servers h.1 in
    let heavy : 0 < s.weight = h.0 in ground (arith, rest, heavy)

mul_mono : (a b t : ℕ) → a ≤ b → a * t ≤ b * t
mul_mono a b t h = grind arith

module _ (share : ℕ → ℕ → ℕ → ℕ) (law : IsShare share) (auto_eject : Bool) (now total nlive : ℕ)
    (positive : 0 < total) where
  shares : Server → ℕ
  shares s = share s.weight total nlive

  share_sum :
      (servers : List Server)
      → live_sum auto_eject now (λ s. s.weight) servers ≤ total
      → live_sum auto_eject now shares servers * total * 2 ^ 20
        ≤ 40 * nlive * live_sum auto_eject now (λ s. s.weight) servers * (2 ^ 20 + 1)
          + live_sum auto_eject now (λ _. 1) servers * total
  unfolding live_sum shares
  share_sum [] light = omega arith
  share_sum (s ∷ servers) light = elim (Bool-cases (is_live auto_eject now s)) [
    | inl live ↦ rw live (
        let here : s.weight + live_sum auto_eject now (λ s'. s'.weight) servers ≤ total =
          rw live at light in
        omega
          (arith, law s.weight total nlive positive (omega arith), share_sum servers (omega arith)))
    | inr dead ↦ rw dead (
        let here : 0 + live_sum auto_eject now (λ s'. s'.weight) servers ≤ total =
          rw dead at light in
        omega (arith, share_sum servers (omega arith)))
  ]

  -- For up to 25,000 servers the errors do not add up to a point: 40 points a live server suffice.
  pub share_sum-le :
      (servers : List Server)
      → live_sum auto_eject now (λ s. s.weight) servers ≡ total
      → live_sum auto_eject now (λ _. 1) servers ≡ nlive
      → nlive ≤ 25000
      → live_sum auto_eject now (λ s. share s.weight total nlive) servers ≤ 40 * nlive
  unfolding shares
  share_sum-le servers weights count few =
      let sum = rw (weights, count) at (share_sum servers (omega arith)) in
      elim (dec_le (live_sum auto_eject now (λ s. share s.weight total nlive) servers)
        (40 * nlive)) [
          | yes h ↦ h
          | no h ↦ absurd (
              omega (
                arith,
                sum,
                mul_mono (40 * nlive + 1) (live_sum auto_eject now shares servers) total
                    (omega arith),
                mul_mono nlive 25000 total few,
              ))
        ]

-- Cutting to 32 bits makes no sum larger, and four points a hash make it four times as large.
pub live_sum-u32-le :
    (auto_eject : Bool) (now : ℕ) (f : Server → ℕ) (servers : List Server)
    → live_sum auto_eject now (λ s. u32 (f s * 4)) servers ≤ live_sum auto_eject now f servers * 4
unfolding live_sum
live_sum-u32-le auto_eject now f [] = omega arith
live_sum-u32-le auto_eject now f (s ∷ servers) =
    let rest = live_sum-u32-le auto_eject now f servers in ground (arith, rest)
