-- ===== src/Redis/Letters.antt =====
-- The names of the commands are written in small letters, and compared in any case.
use twemproxy.Common.{
  ℕ, ◌≡◌, ◌⊎◌, refl, ◌∙◌, ap, arith, List, [], ◌∷◌, Bool, inl, inr, true, false, ◌&&◌, ◌||◌, ◌==◌,
  length, bit_xor, leb, map, ◌+◌, get_or, drop, if◌then◌else◌,
}
use twemproxy.Redis.Commands.{
  Command, icmp, commands_3, commands_4, commands_5, commands_6, commands_7, commands_8, commands_9,
  commands_10, commands_11, commands_12, commands_13, commands_14, commands_15, commands_16,
  commands_of,
}

abbrev pub IsIn : Command → List Command → Type 0
IsIn c [] = ⊥
IsIn c (d ∷ rest) = (c ≡ d) ⊎ IsIn c rest

-- The small letter of a byte that is a capital letter.
abbrev pub to_lower : ℕ → ℕ
to_lower b = if leb b'A' b && leb b b'Z' then b + 32 else b

-- The name is written in small letters, whose capitals `^ 0x20` gives.
pub is_plain : List ℕ → Bool
is_plain [] = true
is_plain (c ∷ name) = leb b'a' c && leb c b'z' && (bit_xor c 0x20 + 32 == c) && is_plain name

pub all_plain : List Command → Bool
all_plain [] = true
all_plain (c ∷ rest) = is_plain (c.0) && all_plain rest

all_plain-if :
    (b : Bool) (x y : List Command)
    → all_plain x ≡ true
    → all_plain y ≡ true
    → all_plain (if b then x else y) ≡ true
all_plain-if true x y hx hy = hx
all_plain-if false x y hx hy = hy

pub tables_plain : (n : ℕ) → all_plain (commands_of n) ≡ true
unfolding commands_of commands_3 commands_4 commands_5 commands_6 commands_7 commands_8 commands_9
    commands_10 commands_11 commands_12 commands_13 commands_14 commands_15 commands_16 all_plain
    is_plain
tables_plain n = all_plain-if (n == 3) commands_3 _ refl (
    all_plain-if (n == 4) commands_4 _ refl (
      all_plain-if (n == 5) commands_5 _ refl (
        all_plain-if (n == 6) commands_6 _ refl (
          all_plain-if (n == 7) commands_7 _ refl (
            all_plain-if (n == 8) commands_8 _ refl (
              all_plain-if (n == 9) commands_9 _ refl (
                all_plain-if (n == 10) commands_10 _ refl (
                  all_plain-if (n == 11) commands_11 _ refl (
                    all_plain-if (n == 12) commands_12 _ refl (
                      all_plain-if (n == 13) commands_13 _ refl (
                        all_plain-if (n == 14) commands_14 _ refl (
                          all_plain-if (n == 15) commands_15 _ refl
                            (all_plain-if (n == 16) commands_16 _ refl refl)))))))))))))

pub IsIn-plain :
    (c : Command) (cs : List Command) → all_plain cs ≡ true → IsIn c cs → is_plain (c.0) ≡ true
unfolding all_plain
IsIn-plain c [] ok_ is_in = elim is_in [ ]
IsIn-plain c (d ∷ rest) ok_ (inl here) = ap (λ x. is_plain (x.0)) here ∙ ground (arith, ok_)
IsIn-plain c (d ∷ rest) ok_ (inr there) = IsIn-plain c rest (ground (arith, ok_)) there

-- A byte and its letter in a name.
letter_lem :
    (b c : ℕ)
    → (leb b'a' c && leb c b'z' && (bit_xor c 0x20 + 32 == c)) ≡ true
    → to_lower b ≡ c
    → (b == c || b == bit_xor c 0x20) ≡ true
letter_lem b c plain same = ground (arith, plain, same)

pub icmp-to_lower :
    (bytes name : List ℕ)
    → is_plain name ≡ true
    → map to_lower bytes ≡ name
    → icmp bytes name ≡ true
unfolding is_plain icmp
icmp-to_lower [] [] plain same = refl
icmp-to_lower [] (c ∷ name) plain same = absurd (omega (arith, ap length same))
icmp-to_lower (b ∷ bytes) [] plain same = absurd (omega (arith, ap length same))
icmp-to_lower (b ∷ bytes) (c ∷ name) plain same =
    let first = letter_lem b c (ground (arith, plain)) (ap (λ x. get_or x 0 0) same) in
    let rest = icmp-to_lower bytes name (ground (arith, plain)) (ap (drop 1) same) in
    simp (first, rest) refl

lower_letter :
    (b c : ℕ)
    → (leb b'a' c && leb c b'z' && (bit_xor c 0x20 + 32 == c)) ≡ true
    → (b == c || b == bit_xor c 0x20) ≡ true
    → to_lower b ≡ c
lower_letter b c plain same = ground (arith, plain, same)

pub to_lower-icmp :
    (bytes name : List ℕ)
    → is_plain name ≡ true
    → icmp bytes name ≡ true
    → map to_lower bytes ≡ name
unfolding is_plain icmp
to_lower-icmp [] [] plain same = refl
to_lower-icmp [] (c ∷ name) plain same = absurd (ground (arith, same))
to_lower-icmp (b ∷ bytes) [] plain same = absurd (ground (arith, same))
to_lower-icmp (b ∷ bytes) (c ∷ name) plain same =
    let first = lower_letter b c (ground (arith, plain)) (ground (arith, same)) in
    let rest = to_lower-icmp bytes name (ground (arith, plain)) (ground (arith, same)) in
    rw (first, rest) refl
