-- ===== src/Hashkit/Fnv.antt =====
-- src/hashkit/nc_fnv.c: the four FNV hashes.
use twemproxy.Common.{ℕ, List, [], ◌∷◌, ◌*◌, u32, u64, bit_xor, char_u32, char_u64}

abbrev pub fnv_64_init : ℕ
fnv_64_init = 0xcbf29ce484222325

abbrev pub fnv_64_prime : ℕ
fnv_64_prime = 0x100000001b3

abbrev pub fnv_32_init : ℕ
fnv_32_init = 2166136261

abbrev pub fnv_32_prime : ℕ
fnv_32_prime = 16777619

unfoldable pub fnv1_64_loop : ℕ → List ℕ → ℕ
fnv1_64_loop hash [] = hash
fnv1_64_loop hash (c ∷ key) = fnv1_64_loop (bit_xor (u64 (hash * fnv_64_prime)) (char_u64 c)) key

-- The 64-bit hash, cut to its low half on return.
unfoldable pub hash_fnv1_64 : List ℕ → ℕ
hash_fnv1_64 key = u32 (fnv1_64_loop fnv_64_init key)

unfoldable pub fnv1a_64_loop : ℕ → List ℕ → ℕ
fnv1a_64_loop hash [] = hash
fnv1a_64_loop hash (c ∷ key) =
    fnv1a_64_loop (u32 (bit_xor hash (char_u32 c) * u32 fnv_64_prime)) key

-- Computed in 32 bits throughout, in spite of its name.
unfoldable pub hash_fnv1a_64 : List ℕ → ℕ
hash_fnv1a_64 key = fnv1a_64_loop (u32 fnv_64_init) key

unfoldable pub fnv1_32_loop : ℕ → List ℕ → ℕ
fnv1_32_loop hash [] = hash
fnv1_32_loop hash (c ∷ key) = fnv1_32_loop (bit_xor (u32 (hash * fnv_32_prime)) (char_u32 c)) key

unfoldable pub hash_fnv1_32 : List ℕ → ℕ
hash_fnv1_32 key = fnv1_32_loop fnv_32_init key

unfoldable pub fnv1a_32_loop : ℕ → List ℕ → ℕ
fnv1a_32_loop hash [] = hash
fnv1a_32_loop hash (c ∷ key) = fnv1a_32_loop (u32 (bit_xor hash (char_u32 c) * fnv_32_prime)) key

unfoldable pub hash_fnv1a_32 : List ℕ → ℕ
hash_fnv1a_32 key = fnv1a_32_loop fnv_32_init key
