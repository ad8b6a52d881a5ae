-- ===== src/Hashkit/Bounds.antt =====
-- Keys of bytes, and the 32 bits of the CRC of src/hashkit/nc_crc32.c.
use twemproxy.Common.{
  ℕ, List, [], ◌∷◌, ◌^◌, ◌<◌, ◌≡◌, refl, arith, ltb, true, Bool, ◌&&◌, get_or, All, bit_xor,
  bit_and, zero, suc, ◌>>>◌,
}
use twemproxy.Common.Bits.{bit_xor-lt}
use twemproxy.Hashkit.Crc32.{crc32tab, crc32a_round, crc32a_loop}

-- A key holds bytes.
abbrev pub IsKey : List ℕ → Type 0
IsKey key = All (λ c. c < 256) key

all_ltb : ℕ → List ℕ → Bool
all_ltb bound [] = true
all_ltb bound (x ∷ xs) = ltb x bound && all_ltb bound xs

get_or-lt_of_all :
    (bound : ℕ) (xs : List ℕ) (i : ℕ) → 0 < bound → all_ltb bound xs ≡ true → get_or xs i 0 < bound
unfolding all_ltb
get_or-lt_of_all bound [] i pos h = pos
get_or-lt_of_all bound (x ∷ xs) zero pos h = ground arith
get_or-lt_of_all bound (x ∷ xs) (suc i) pos h = get_or-lt_of_all bound xs i pos (ground arith)

pub crc32tab-lt : (i : ℕ) → get_or crc32tab i 0 < 2 ^ 32
unfolding crc32tab all_ltb
crc32tab-lt i = get_or-lt_of_all (2 ^ 32) crc32tab i (omega arith) refl

pub crc32a_round-lt : (crc c : ℕ) → crc < 2 ^ 32 → crc32a_round crc c < 2 ^ 32
unfolding crc32a_round
crc32a_round-lt crc c h =
    let i = bit_and (bit_xor crc c) 0xff in
    bit_xor-lt 32 (get_or crc32tab i 0) (crc >>> 8) (crc32tab-lt i) (omega arith)

pub crc32a_loop-lt : (crc : ℕ) (key : List ℕ) → crc < 2 ^ 32 → crc32a_loop crc key < 2 ^ 32
unfolding crc32a_loop
crc32a_loop-lt crc [] h = h
crc32a_loop-lt crc (c ∷ key) h = crc32a_loop-lt (crc32a_round crc c) key (crc32a_round-lt crc c h)
