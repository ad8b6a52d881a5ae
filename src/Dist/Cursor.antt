-- ===== src/Dist/Cursor.antt =====
-- The writes into the continuum, `pool->continuum[continuum_index++]`, and the loops round them.
use twemproxy.Common.{
  ℕ, zero, suc, ◌+◌, ◌-◌, List, [], ◌∷◌, ◌++◌, Bool, Option, none, some, ◌>>=◌, ltb, if◌then◌else◌,
  u32, length, set, take, replicate,
}
use twemproxy.Server.{Server, Continuum}
use twemproxy.Dist.Census.{is_live}

-- The array, `continuum_index` as `at`, and `pointer_counter`.
pub record Cursor : Type 0 where
  pub mem : List Continuum
  pub at : ℕ
  pub pointer_counter : ℕ

abbrev pub start : List Continuum → Cursor
start mem = record { mem = mem; at = 0; pointer_counter = 0 }

-- A write behind the allocation is undefined behaviour.
unfoldable pub put_point : ℕ → ℕ → Cursor → Option Cursor
put_point index value c =
    if ltb c.at (length c.mem)
    then some (record c {
      mem = set c.mem c.at (record { index = index; value = value });
      at = u32 (c.at + 1);
    })
    else none

unfoldable pub add_points : ℕ → Cursor → Cursor
add_points n c = record c { pointer_counter = u32 (c.pointer_counter + n) }

-- `for (j = i; j < i + n; j++)`.
unfoldable pub for_count : ℕ → ℕ → (ℕ → Cursor → Option Cursor) → Cursor → Option Cursor
for_count zero i body c = some c
for_count (suc n) i body c = body i c >>= λ c'. for_count n (i + 1) body c'

-- The loop over the servers, which continues at one that is not live.
unfoldable pub for_live :
    Bool → ℕ → (ℕ → Server → Cursor → Option Cursor) → ℕ → List Server → Cursor → Option Cursor
for_live auto_eject now body i [] c = some c
for_live auto_eject now body i (s ∷ servers) c =
    (if is_live auto_eject now s then body i s c else some c) >>= λ c'.
    for_live auto_eject now body (i + 1) servers c'

-- `nc_realloc` to `n` points. What it does not initialise is written before it is read.
unfoldable pub realloc : ℕ → List Continuum → List Continuum
realloc n mem = take n mem ++ replicate (n - length mem) (record { index = 0; value = 0 })
