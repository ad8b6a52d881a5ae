-- ===== src/Hashkit/OneAtATime.antt =====
-- src/hashkit/nc_one_at_a_time.c.
use twemproxy.Common.{ℕ, List, [], ◌∷◌, ◌+◌, u32, ◌<<<◌, ◌>>>◌, bit_xor, char_u32}

-- The body of the loop: add the character, then mix.
unfoldable pub oaat_round : ℕ → ℕ → ℕ
oaat_round value c =
    let added = u32 (value + char_u32 c) in
    let shifted = u32 (added + u32 (added <<< 10)) in bit_xor shifted (shifted >>> 6)

unfoldable pub oaat_loop : ℕ → List ℕ → ℕ
oaat_loop value [] = value
oaat_loop value (c ∷ key) = oaat_loop (oaat_round value c) key

unfoldable pub hash_one_at_a_time : List ℕ → ℕ
hash_one_at_a_time key =
    let value = oaat_loop 0 key in
    let shifted = u32 (value + u32 (value <<< 3)) in
    let mixed = bit_xor shifted (shifted >>> 11) in u32 (mixed + u32 (mixed <<< 15))
