-- ===== src/Hashkit/Murmur.antt =====
-- src/hashkit/nc_murmur.c, on a little-endian machine.
use twemproxy.Common.{ℕ, List, [], ◌∷◌, ◌+◌, ◌*◌, u32, ◌<<<◌, ◌>>>◌, bit_xor, length}

abbrev pub murmur_m : ℕ
murmur_m = 0x5bd1e995

-- The four bytes at `data`, read as an `unsigned int`.
abbrev pub word_at : ℕ → ℕ → ℕ → ℕ → ℕ
word_at b0 b1 b2 b3 = b0 + (b1 <<< 8) + (b2 <<< 16) + (b3 <<< 24)

unfoldable pub murmur_round : ℕ → ℕ → ℕ
murmur_round h word =
    let k1 = u32 (word * murmur_m) in
    let k2 = bit_xor k1 (k1 >>> 24) in
    let k3 = u32 (k2 * murmur_m) in bit_xor (u32 (h * murmur_m)) k3

-- The loop over words, and then the switch on the bytes left, which falls through.
unfoldable pub murmur_loop : ℕ → List ℕ → ℕ
murmur_loop h (b0 ∷ b1 ∷ b2 ∷ b3 ∷ key) = murmur_loop (murmur_round h (word_at b0 b1 b2 b3)) key
murmur_loop h (b0 ∷ b1 ∷ b2 ∷ []) =
    u32 (bit_xor (bit_xor (bit_xor h (b2 <<< 16)) (b1 <<< 8)) b0 * murmur_m)
murmur_loop h (b0 ∷ b1 ∷ []) = u32 (bit_xor (bit_xor h (b1 <<< 8)) b0 * murmur_m)
murmur_loop h (b0 ∷ []) = u32 (bit_xor h b0 * murmur_m)
murmur_loop h [] = h

unfoldable pub murmur_final : ℕ → ℕ
murmur_final h0 =
    let h1 = bit_xor h0 (h0 >>> 13) in let h2 = u32 (h1 * murmur_m) in bit_xor h2 (h2 >>> 15)

unfoldable pub hash_murmur : List ℕ → ℕ
hash_murmur key =
    let seed = u32 (0xdeadbeef * u32 (length key)) in
    murmur_final (murmur_loop (bit_xor seed (u32 (length key))) key)
