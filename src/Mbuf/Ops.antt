-- ===== src/Mbuf/Ops.antt =====
-- The buffers of src/nc_mbuf.c. A buffer holds `mbuf_offset` bytes at most, an argument; what C leaves
-- undefined, to write behind the end, is `none`, and so is a NULL for want of memory. The model keeps the
-- bytes and no addresses.
use twemproxy.Common.{
  ℕ, ◌+◌, ◌-◌, List, [], ◌∷◌, ◌++◌, Bool, ◌&&◌, not, Option, none, some, ◌>>=◌, ◌==◌, leb,
  if◌then◌else◌, length, take, drop, u32,
}

-- The bytes between `start` and `pos`, and those between `pos` and `last`.
pub record Mbuf : Type 0 where
  pub before : List ℕ
  pub bytes : List ℕ

-- The free buffers, and their counter.
pub record Free : Type 0 where
  pub nfree_mbufq : ℕ
  pub free_mbufq : List Mbuf

abbrev pub mbuf_reserved : ℕ
mbuf_reserved = 4096

abbrev pub new_mbuf : Mbuf
new_mbuf = record { before = []; bytes = [] }

-- `found`: whether nc_alloc finds memory.
unfoldable pub mbuf_get : Bool → Free → Option (Mbuf × Free)
mbuf_get found q = elim q.free_mbufq [
  | [] ↦ if found then some (new_mbuf, q) else none
  | m ∷ rest ↦ some (new_mbuf, record { nfree_mbufq = q.nfree_mbufq - 1; free_mbufq = rest })
]

unfoldable pub mbuf_put : Mbuf → Free → Free
mbuf_put m q =
    if leb mbuf_reserved q.nfree_mbufq
    then q
    else record { nfree_mbufq = q.nfree_mbufq + 1; free_mbufq = m ∷ q.free_mbufq }

unfoldable pub mbuf_rewind : Mbuf → Mbuf
mbuf_rewind m = new_mbuf

unfoldable pub mbuf_length : Mbuf → ℕ
mbuf_length m = u32 (length m.bytes)

-- The bytes between `last` and `end`.
unfoldable pub mbuf_size : ℕ → Mbuf → ℕ
mbuf_size mbuf_offset m = u32 (mbuf_offset - (length m.before + length m.bytes))

unfoldable pub mbuf_full : ℕ → Mbuf → Bool
mbuf_full mbuf_offset m = length m.before + length m.bytes == mbuf_offset

unfoldable pub mbuf_copy : ℕ → Mbuf → List ℕ → Option Mbuf
mbuf_copy mbuf_offset m src =
    if length src == 0
    then some m
    else (if not (mbuf_full mbuf_offset m) && leb (length src) (mbuf_size mbuf_offset m)
        then some (record m { bytes = m.bytes ++ src })
        else none)

-- The queue `mhdr` of the buffers of a message.
unfoldable pub mbuf_insert : List Mbuf → Mbuf → List Mbuf
mbuf_insert mhdr m = mhdr ++ m ∷ []

unfoldable pub last_mbuf : List Mbuf → Option Mbuf
last_mbuf [] = none
last_mbuf (m ∷ []) = some m
last_mbuf (m ∷ m' ∷ mhdr) = last_mbuf (m' ∷ mhdr)

-- `mbuf->last = pos`, in the last buffer.
unfoldable pub cut_last : List Mbuf → ℕ → List Mbuf
cut_last [] n = []
cut_last (m ∷ []) n = record m { bytes = take n m.bytes } ∷ []
cut_last (m ∷ m' ∷ mhdr) n = m ∷ cut_last (m' ∷ mhdr) n

-- Where `pos` stands `n` bytes behind that of the last buffer, and no string is copied before; each call
-- in the source is such.
unfoldable pub mbuf_split : ℕ → Bool → Free → List Mbuf → ℕ → Option (List Mbuf × Mbuf × Free)
mbuf_split mbuf_offset found q mhdr n = last_mbuf mhdr >>= λ m. mbuf_get found q >>= λ got.
    mbuf_copy mbuf_offset (got.0) (drop n m.bytes) >>= λ nbuf. some (cut_last mhdr n, nbuf, got.1)

-- The queue behind the split, where the bytes from `pos` on stand in a new buffer.
unfoldable pub msg_repair : ℕ → Bool → Free → List Mbuf → ℕ → Option (List Mbuf × Free)
msg_repair mbuf_offset found q mhdr n =
    mbuf_split mbuf_offset found q mhdr n >>= λ cut. some (mbuf_insert (cut.0) (cut.1), cut.2)

-- The queue of the message that is parsed, and that of the next message, if there are bytes for one.
-- `msg_found`: whether msg_get finds memory for it; where not, the new buffer is put back, and the
-- bytes behind the first message are lost with the connection.
unfoldable pub msg_parsed :
    ℕ → Bool → Bool → Free → List Mbuf → ℕ → Option (List Mbuf × List Mbuf × Free)
msg_parsed mbuf_offset found msg_found q mhdr n = last_mbuf mhdr >>= λ m.
    if length m.bytes == n
    then some (mhdr, [], q)
    else (mbuf_split mbuf_offset found q mhdr n >>= λ cut.
        if msg_found then some (cut.0, mbuf_insert [] (cut.1), cut.2) else none)

-- mbuf_init.
abbrev pub no_free : Free
no_free = record { nfree_mbufq = 0; free_mbufq = [] }
