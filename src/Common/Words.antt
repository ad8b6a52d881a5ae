-- ===== src/Common/Words.antt =====
-- Words of C: unsigned wrap-around is `% 2 ^ w`, shifts are products and quotients by `2 ^ k`.
use Prim.Native.Nat.{ℕ, ◌+◌, ◌-◌, ◌*◌, ◌/◌, ◌%◌, ◌^◌}
use twemproxy.Common.Tests.{ltb, if◌then◌else◌}

abbrev pub u32 : ℕ → ℕ
u32 n = n % 2 ^ 32

abbrev pub u64 : ℕ → ℕ
u64 n = n % 2 ^ 64

infixl 75 ◌<<<◌ ◌>>>◌
abbrev pub ◌<<<◌ : ℕ → ℕ → ℕ
x <<< k = x * 2 ^ k

abbrev pub ◌>>>◌ : ℕ → ℕ → ℕ
x >>> k = x / 2 ^ k

-- The conversion of a `char`, which is signed on the platforms built for, to `uint32_t`.
abbrev pub char_u32 : ℕ → ℕ
char_u32 c = if ltb c 128 then c else c + 2 ^ 32 - 256

-- The same to `uint64_t`.
abbrev pub char_u64 : ℕ → ℕ
char_u64 c = if ltb c 128 then c else c + 2 ^ 64 - 256
