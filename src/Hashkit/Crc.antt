-- ===== src/Hashkit/Crc.antt =====
-- The tables of nc_crc16.c and nc_crc32.c against the polynomials they stand for, and the relation
-- of the two CRC-32 functions.
use twemproxy.Common.{
  ℕ, List, [], ◌∷◌, ◌-◌, ◌*◌, ◌/◌, ◌%◌, ◌^◌, ◌<◌, ◌≡◌, refl, arith, ltb, ◌==◌, if◌then◌else◌, Bool,
  true, ◌&&◌, get_or, bit_xor, zero, suc, char_u64,
}
use twemproxy.Common.Bits.{
  bit_xor_comm, bit_xor_byte, bit_and_byte, bit_and_15_bits, bit_xor-not_u32,
}
use twemproxy.Hashkit.Crc16.{crc16tab}
use twemproxy.Hashkit.Crc32.{
  crc32tab, crc32_round, crc32_loop, hash_crc32, crc32a_round, crc32a_loop, hash_crc32a,
}
use twemproxy.Hashkit.Bounds.{IsKey, crc32a_loop-lt}

-- One step of the division by x^16 + x^12 + x^5 + 1, the highest bit first.
abbrev ccitt_step : ℕ → ℕ
ccitt_step r = if ltb r 0x8000 then r * 2 else bit_xor (r * 2 % 2 ^ 16) 0x1021

-- One step of the division by the CRC-32 polynomial, the lowest bit first.
abbrev ieee_step : ℕ → ℕ
ieee_step r = if r % 2 == 0 then r / 2 else bit_xor (r / 2) 0xedb88320

repeat : ℕ → (ℕ → ℕ) → ℕ → ℕ
repeat zero f x = x
repeat (suc n) f x = repeat n f (f x)

-- The remainders of the byte `i` under the two polynomials, bit by bit.
pub ccitt_remainder : ℕ → ℕ
ccitt_remainder i = repeat 8 ccitt_step (i * 256)

pub ieee_remainder : ℕ → ℕ
ieee_remainder i = repeat 8 ieee_step i

-- Two functions agree on the numbers below a bound.
agree : (f g : ℕ → ℕ) → ℕ → Bool
agree f g zero = true
agree f g (suc bound) = agree f g bound && f bound == g bound

agree_at : (f g : ℕ → ℕ) (bound i : ℕ) → agree f g bound ≡ true → i < bound → f i ≡ g i
unfolding agree
agree_at f g zero i h lt = elim lt [ ]
agree_at f g (suc bound) i h lt = ground (arith, agree_at f g bound i)

crc16tab_checked : agree (λ i. get_or crc16tab i 0) ccitt_remainder 256 ≡ true
unfolding agree crc16tab ccitt_remainder repeat
crc16tab_checked = refl

crc32tab_checked : agree (λ i. get_or crc32tab i 0) ieee_remainder 256 ≡ true
unfolding agree crc32tab ieee_remainder repeat
crc32tab_checked = refl

-- At each byte the two tables hold the remainders by the CCITT polynomial, highest bit first, and
-- by the reflected IEEE polynomial, lowest bit first.
pub crc_tables :
    (i : ℕ)
    → i < 256
    → (get_or crc16tab i 0 ≡ ccitt_remainder i) × (get_or crc32tab i 0 ≡ ieee_remainder i)
crc_tables i h = (agree_at _ _ 256 i crc16tab_checked h, agree_at _ _ 256 i crc32tab_checked h)

-- The sign extension of a character does not reach the byte that indexes the table.
crc32_round-crc32a_round : (crc c : ℕ) → c < 256 → crc32_round crc c ≡ crc32a_round crc c
unfolding crc32_round crc32a_round
crc32_round-crc32a_round crc c h =
    let extended : char_u64 c % 256 ≡ c % 256 = ground arith in
    let same = bit_xor_byte crc (char_u64 c) c extended in
    rw (bit_and_byte (bit_xor crc (char_u64 c)), same, ← bit_and_byte (bit_xor crc c))
      (bit_xor_comm _ _)

crc32_loop-crc32a_loop :
    (crc : ℕ) (key : List ℕ) → IsKey key → crc32_loop crc key ≡ crc32a_loop crc key
unfolding crc32_loop crc32a_loop
crc32_loop-crc32a_loop crc [] bytes = refl
crc32_loop-crc32a_loop crc (c ∷ key) bytes =
    rw (crc32_round-crc32a_round crc c bytes.0)
      (crc32_loop-crc32a_loop (crc32a_round crc c) key bytes.1)

-- On every key of bytes `hash_crc32` is bits 16 to 30 of `hash_crc32a`.
pub hash_crc32-hash_crc32a :
    (key : List ℕ) → IsKey key → hash_crc32 key ≡ hash_crc32a key / 2 ^ 16 % 2 ^ 15
unfolding hash_crc32 hash_crc32a
hash_crc32-hash_crc32a key bytes =
    let last = crc32a_loop (2 ^ 32 - 1) key in
    let fits : last < 2 ^ 32 = crc32a_loop-lt (2 ^ 32 - 1) key (omega arith) in
    rw (crc32_loop-crc32a_loop (2 ^ 32 - 1) key bytes, bit_xor-not_u32 last fits)
      (bit_and_15_bits _)
