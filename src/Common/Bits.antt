-- ===== src/Common/Bits.antt =====
-- Laws of `bit_xor` and `bit_and` at variables, from their digits in base 2.
use Prim.Native.Nat.{
  ℕ, zero, suc, ◌+◌, ◌-◌, ◌*◌, ◌/◌, ◌%◌, ◌^◌, ◌≤◌, ◌<◌, min, bit_and, bit_xor, digits, differ,
}
use Prim.Native.Nat.{bit_and-bitwise, bit_xor-bitwise}
use mathlib.Core.Path.{◌≡◌, refl, sym, ◌∙◌}
use native.Mathlib.Nat.{pow-suc}
use native.Mathlib.Omega.{arith}

-- Two amounts of fuel that are both enough give the same digits.
module _ (z : ℕ → ℕ) (f : ℕ → ℕ → ℕ) where
  digits_enough : (n k a b : ℕ) → a ≤ n → a ≤ k → digits z f n a b ≡ digits z f k a b
  digits_enough n k zero b hn hk = run_out n ∙ sym (run_out k)
    where
      run_out : (m : ℕ) → digits z f m zero b ≡ z b
      run_out zero = refl
      run_out (suc m) = refl
  digits_enough zero k (suc a) b hn hk = absurd (omega arith)
  digits_enough (suc n) zero (suc a) b hn hk = absurd (omega arith)
  digits_enough (suc n) (suc k) (suc a) b hn hk =
      omega (arith, digits_enough n k (suc a / 2) (b / 2) (omega arith) (omega arith))

-- The rest and the lowest digit.
pub bit_xor_halves : (x y : ℕ) → bit_xor x y ≡ 2 * bit_xor (x / 2) (y / 2) + differ (x % 2) (y % 2)
bit_xor_halves zero y = simp bit_xor-bitwise (omega arith)
bit_xor_halves (suc x) y =
    let h = suc x / 2 in
    let enough : h ≤ x = omega arith in
    simp bit_xor-bitwise
      (omega (arith, digits_enough (λ z. z) differ x h h (y / 2) enough (omega arith)))

pub bit_and_halves : (x y : ℕ) → bit_and x y ≡ 2 * bit_and (x / 2) (y / 2) + min (x % 2) (y % 2)
bit_and_halves zero y = simp bit_and-bitwise (omega arith)
bit_and_halves (suc x) y =
    let h = suc x / 2 in
    let enough : h ≤ x = omega arith in
    simp bit_and-bitwise
      (omega (arith, digits_enough (λ z. 0) min x h h (y / 2) enough (omega arith)))

differ-lt : (x y : ℕ) → x < 2 → y < 2 → differ x y < 2
differ-lt zero y hx hy = hy
differ-lt (suc x) zero hx hy = hx
differ-lt (suc zero) (suc zero) hx hy = omega arith
differ-lt (suc zero) (suc (suc y)) hx hy = absurd (omega arith)
differ-lt (suc (suc x)) (suc y) hx hy = absurd (omega arith)

differ_comm : (x y : ℕ) → x < 2 → y < 2 → differ x y ≡ differ y x
differ_comm zero zero hx hy = refl
differ_comm zero (suc y) hx hy = refl
differ_comm (suc x) zero hx hy = refl
differ_comm (suc zero) (suc zero) hx hy = refl
differ_comm (suc zero) (suc (suc y)) hx hy = absurd (omega arith)
differ_comm (suc (suc x)) (suc y) hx hy = absurd (omega arith)

differ-one : (x : ℕ) → x < 2 → differ x 1 ≡ 1 - x
differ-one zero h = refl
differ-one (suc zero) h = refl
differ-one (suc (suc x)) h = absurd (omega arith)

-- Exclusive or stays inside a width.
pub bit_xor-lt : (k a b : ℕ) → a < 2 ^ k → b < 2 ^ k → bit_xor a b < 2 ^ k
bit_xor-lt zero zero zero ha hb = omega arith
bit_xor-lt zero zero (suc b) ha hb = absurd (omega arith)
bit_xor-lt zero (suc a) b ha hb = absurd (omega arith)
bit_xor-lt (suc k) a b ha hb =
    let p = pow-suc 2 k in
    omega (
      arith,
      p,
      bit_xor_halves a b,
      differ-lt (a % 2) (b % 2) (omega arith) (omega arith),
      bit_xor-lt k (a / 2) (b / 2) (omega (arith, p)) (omega (arith, p)),
    )

bit_xor_comm_below : (n a b : ℕ) → a ≤ n → b ≤ n → bit_xor a b ≡ bit_xor b a
bit_xor_comm_below zero zero zero ha hb = refl
bit_xor_comm_below zero zero (suc b) ha hb = absurd (omega arith)
bit_xor_comm_below zero (suc a) b ha hb = absurd (omega arith)
bit_xor_comm_below (suc n) a b ha hb = omega (
  arith,
  bit_xor_halves a b,
  bit_xor_halves b a,
  differ_comm (a % 2) (b % 2) (omega arith) (omega arith),
  bit_xor_comm_below n (a / 2) (b / 2) (omega arith) (omega arith),
)

pub bit_xor_comm : (a b : ℕ) → bit_xor a b ≡ bit_xor b a
bit_xor_comm a b = bit_xor_comm_below (a + b) a b (omega arith) (omega arith)

-- The `k` lowest digits of a number, and the number with `k` digits 1.
abbrev low_digits : ℕ → ℕ → ℕ
low_digits zero x = 0
low_digits (suc k) x = low_digits k (x / 2) * 2 + x % 2

abbrev ones : ℕ → ℕ
ones zero = 0
ones (suc k) = ones k * 2 + 1

bit_and-zero : (bound x : ℕ) → x ≤ bound → bit_and x 0 ≡ 0
bit_and-zero zero x small = let none_left : x ≡ 0 = omega arith in rw none_left refl
bit_and-zero (suc bound) x small =
    let h = bit_and-zero bound (x / 2) (omega arith) in omega (arith, bit_and_halves x 0, h)

bit_and-ones : (k x : ℕ) → bit_and x (ones k) ≡ low_digits k x
bit_and-ones zero x = bit_and-zero x x (omega arith)
bit_and-ones (suc k) x =
    let half : (ones k * 2 + 1) / 2 ≡ ones k = omega arith in
    bit_and_halves x (ones k * 2 + 1) ∙ rw (half, bit_and-ones k (x / 2)) (omega arith)

bit_xor-ones : (k x : ℕ) → x ≤ ones k → bit_xor x (ones k) ≡ ones k - x
bit_xor-ones zero zero h = refl
bit_xor-ones zero (suc x) h = absurd (omega arith)
bit_xor-ones (suc k) x h =
    let half : (ones k * 2 + 1) / 2 ≡ ones k = omega arith in
    let odd : (ones k * 2 + 1) % 2 ≡ 1 = omega arith in
    bit_xor_halves x (ones k * 2 + 1)
    ∙ rw (half, odd, bit_xor-ones k (x / 2) (omega arith), differ-one (x % 2) (omega arith))
        (omega arith)

-- The low digits of an exclusive or depend on the low digits alone.
low_digits-bit_xor :
    (k a b c : ℕ)
    → low_digits k b ≡ low_digits k c
    → low_digits k (bit_xor a b) ≡ low_digits k (bit_xor a c)
low_digits-bit_xor zero a b c h = refl
low_digits-bit_xor (suc k) a b c h =
    let rest = low_digits-bit_xor k (a / 2) (b / 2) (c / 2) (omega arith) in
    let last : b % 2 ≡ c % 2 = omega arith in
    rw (halves b, halves c, lasts b, lasts c, last, rest) refl
  where
    halves : (y : ℕ) → bit_xor a y / 2 ≡ bit_xor (a / 2) (y / 2)
    halves y =
        omega (arith, bit_xor_halves a y, differ-lt (a % 2) (y % 2) (omega arith) (omega arith))

    lasts : (y : ℕ) → bit_xor a y % 2 ≡ differ (a % 2) (y % 2)
    lasts y =
        omega (arith, bit_xor_halves a y, differ-lt (a % 2) (y % 2) (omega arith) (omega arith))

-- At the widths of the code.
pub bit_and_byte : (x : ℕ) → bit_and x 255 ≡ x % 256
bit_and_byte x = omega (arith, bit_and-ones 8 x)

pub bit_and_15_bits : (x : ℕ) → bit_and x 0x7fff ≡ x % 2 ^ 15
bit_and_15_bits x = omega (arith, bit_and-ones 15 x)

pub bit_xor_byte : (a b c : ℕ) → b % 256 ≡ c % 256 → bit_xor a b % 256 ≡ bit_xor a c % 256
bit_xor_byte a b c h = omega (arith, low_digits-bit_xor 8 a b c (omega arith))

pub bit_xor-not_u32 : (x : ℕ) → x < 2 ^ 32 → bit_xor x (2 ^ 32 - 1) ≡ 2 ^ 32 - 1 - x
bit_xor-not_u32 x h = bit_xor-ones 32 x (omega arith)
