-- ===== src/Hashkit/Hsieh.antt =====
-- src/hashkit/nc_hsieh.c.
use twemproxy.Common.{ℕ, List, [], ◌∷◌, ◌+◌, u32, ◌<<<◌, ◌>>>◌, bit_xor, char_u32}

-- `get16bits` of two adjacent bytes.
abbrev pub get16bits : ℕ → ℕ → ℕ
get16bits b0 b1 = (b1 <<< 8) + b0

-- Four bytes of the main loop.
unfoldable pub hsieh_round : ℕ → ℕ → ℕ → ℕ → ℕ → ℕ
hsieh_round hash b0 b1 b2 b3 =
    let added = u32 (hash + get16bits b0 b1) in
    let tmp = bit_xor (u32 (get16bits b2 b3 <<< 11)) added in
    let mixed = bit_xor (u32 (added <<< 16)) tmp in u32 (mixed + mixed >>> 11)

-- The main loop, and then the end case that the number of bytes left selects.
unfoldable pub hsieh_loop : ℕ → List ℕ → ℕ
hsieh_loop hash (b0 ∷ b1 ∷ b2 ∷ b3 ∷ key) = hsieh_loop (hsieh_round hash b0 b1 b2 b3) key
hsieh_loop hash (b0 ∷ b1 ∷ b2 ∷ []) =
    let added = u32 (hash + get16bits b0 b1) in
    let mixed = bit_xor added (u32 (added <<< 16)) in
    let last = bit_xor mixed (u32 (char_u32 b2 <<< 18)) in u32 (last + last >>> 11)
hsieh_loop hash (b0 ∷ b1 ∷ []) =
    let added = u32 (hash + get16bits b0 b1) in
    let mixed = bit_xor added (u32 (added <<< 11)) in u32 (mixed + mixed >>> 17)
hsieh_loop hash (b0 ∷ []) =
    let added = u32 (hash + b0) in
    let mixed = bit_xor added (u32 (added <<< 10)) in u32 (mixed + mixed >>> 1)
hsieh_loop hash [] = hash

-- The final avalanche.
unfoldable pub hsieh_final : ℕ → ℕ
hsieh_final h0 =
    let h1 = bit_xor h0 (u32 (h0 <<< 3)) in
    let h2 = u32 (h1 + h1 >>> 5) in
    let h3 = bit_xor h2 (u32 (h2 <<< 4)) in
    let h4 = u32 (h3 + h3 >>> 17) in let h5 = bit_xor h4 (u32 (h4 <<< 25)) in u32 (h5 + h5 >>> 6)

unfoldable pub hash_hsieh : List ℕ → ℕ
hash_hsieh [] = 0
hash_hsieh (b ∷ key) = hsieh_final (hsieh_loop 0 (b ∷ key))
