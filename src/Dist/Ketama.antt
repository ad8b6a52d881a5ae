-- ===== src/Dist/Ketama.antt =====
-- src/hashkit/nc_ketama.c. Taken as parameters: the MD5 of nc_md5.c, the share of the points that
-- the C code computes in `float`, and `qsort`.
use twemproxy.Common.{
  ℕ, zero, suc, ◌+◌, ◌-◌, ◌*◌, ◌/◌, ◌%◌, List, [], ◌∷◌, ◌++◌, Bool, Option, none, some, ◌>>=◌, ◌==◌,
  ltb, if◌then◌else◌, u32, ◌<<<◌, bit_or, get_elem?, get_or, length, take, drop,
}
use Prim.Native.Nat.{Ordering}
use twemproxy.Server.{Status, Continuum, ServerPool}
use twemproxy.Dist.Census.{pool_census, counted}
use twemproxy.Dist.Cursor.{Cursor, start, put_point, add_points, for_count, for_live, realloc}

-- What the file calls: `md5_signature`; `floorf(pct * 160 / 4 * nlive_server + 0.0000000001)` for a
-- weight, the total weight and the number of live servers; `qsort` with a comparison.
pub record Calls : Type 0 where
  pub md5_signature : List ℕ → List ℕ
  pub share : ℕ → ℕ → ℕ → ℕ
  pub qsort : (Continuum → Continuum → Ordering) → List Continuum → List Continuum

-- The digits of `%u`, by division.
decimal : ℕ → ℕ → List ℕ
decimal zero n = []
decimal (suc fuel) n =
    let rest = decimal fuel (n / 10) ++ (b'0' + n % 10) ∷ [] in
    if ltb n 10 then (b'0' + n) ∷ [] else rest

-- `snprintf(host, 273, "%.*s-%u", name, n)` with the length that is then hashed: one that exceeds
-- the buffer is cut to 273 bytes, of which the last is the terminator.
unfoldable pub host_key : List ℕ → ℕ → List ℕ
unfolding decimal
host_key name n =
    let printed = name ++ b'-' ∷ decimal 10 n in
    if ltb (length printed) 273 then printed else take 272 printed ++ 0 ∷ []

unfoldable pub ketama_hash : Calls → List ℕ → ℕ → ℕ
ketama_hash calls key alignment =
    let results = calls.md5_signature key in
    let byte = λ (i : ℕ). get_or results (i + alignment * 4) 0 % 256 in
    bit_or (bit_or (bit_or (byte 3 <<< 24) (byte 2 <<< 16)) (byte 1 <<< 8)) (byte 0)

unfoldable pub ketama_item_cmp : Continuum → Continuum → Ordering
ketama_item_cmp ct1 ct2 =
    if ct1.value == ct2.value
    then Ordering.eq
    else (if ltb ct2.value ct1.value then Ordering.gt else Ordering.lt)

-- The points of one server: four for each hash of a host key.
unfoldable pub ketama_points : Calls → ℕ → List ℕ → ℕ → Cursor → Option Cursor
ketama_points calls index name pointer_per_server c =
    for_count (pointer_per_server / 4) 1
      (λ pointer_index.
        for_count 4 0
          (λ x. put_point index (ketama_hash calls (host_key name (pointer_index - 1)) x)))
      c
    >>= λ c'. some (add_points pointer_per_server c')

-- The loop over the live servers, and the sort.
unfoldable pub ketama_fill : Calls → ℕ → ℕ → ServerPool → Option (Status × ServerPool)
ketama_fill calls now total_weight pool =
    for_live pool.auto_eject_hosts now
      (λ i s.
        ketama_points calls i s.name
          (u32 (calls.share s.weight total_weight pool.nlive_server * 4)))
      0 pool.server (start pool.continuum)
    >>= λ c. some (
      Status.ok,
      record pool {
        ncontinuum = c.pointer_counter;
        continuum =
            calls.qsort ketama_item_cmp (take c.pointer_counter c.mem)
            ++ drop c.pointer_counter c.mem;
      },
    )

unfoldable pub ketama_grow : ℕ → ServerPool → ServerPool
ketama_grow nlive_server pool =
    let nserver_continuum = u32 (nlive_server + 10) in
    let ncontinuum = u32 (nserver_continuum * 160) in
    record pool {
      continuum = realloc ncontinuum pool.continuum;
      nserver_continuum = nserver_continuum;
    }

-- `now` is `none` where `nc_usec_now` fails; `allocates` says whether `nc_realloc` succeeds.
unfoldable pub ketama_update : Calls → Option ℕ → Bool → ServerPool → Option (Status × ServerPool)
ketama_update calls none allocates pool = some (Status.error, pool)
ketama_update calls (some now) allocates pool =
    let t = pool_census now pool in
    if t.nlive_server == 0
    then some (Status.ok, counted now pool)
    else (if ltb pool.nserver_continuum t.nlive_server
        then (if allocates
            then ketama_fill calls now t.total_weight
                (ketama_grow t.nlive_server (counted now pool))
            else some (Status.enomem, counted now pool))
        else ketama_fill calls now t.total_weight (counted now pool))

-- The binary search, on fuel; `left` and `right` are offsets into the array. A read behind the
-- allocation, or no fuel, is `none`.
unfoldable pub search_loop : ℕ → List Continuum → ℕ → ℕ → ℕ → Option ℕ
search_loop zero continuum hash left right = if ltb left right then none else some right
search_loop (suc fuel) continuum hash left right =
    let middle = left + (right - left) / 2 in
    let up = search_loop fuel continuum hash (middle + 1) right in
    let down = search_loop fuel continuum hash left middle in
    if ltb left right
    then (get_elem? continuum middle >>= λ c. (if ltb c.value hash then up else down))
    else some right

unfoldable pub ketama_dispatch : List Continuum → ℕ → ℕ → Option ℕ
unfolding search_loop
ketama_dispatch continuum ncontinuum hash =
    search_loop ncontinuum continuum hash 0 ncontinuum >>= λ right.
    get_elem? continuum (if right == ncontinuum then 0 else right) >>= λ c. some c.index
