-- ===== src/Mbuf/Keep.antt =====
-- The splits keep the bytes.
use twemproxy.Common.{
  ℕ, ◌+◌, ◌-◌, ◌^◌, ◌≤◌, ◌<◌, ◌≡◌, refl, sym, ◌∙◌, ap, arith, List, [], ◌∷◌, ◌++◌, Bool, true,
  false, some, some_inj, ◌==◌, leb, length, take, drop, take-drop, length-drop, u32,
}
use mathlib.Core.List.{append_assoc, append-nil}
use twemproxy.Mbuf.Ops.{
  Mbuf, Free, new_mbuf, mbuf_get, mbuf_size, mbuf_full, mbuf_copy, mbuf_insert, last_mbuf, cut_last,
  mbuf_split, msg_repair, msg_parsed,
}

-- The bytes of a message that are not read yet, over its buffers.
unfoldable pub unread : List Mbuf → List ℕ
unread [] = []
unread (m ∷ mhdr) = m.bytes ++ unread mhdr

cut_last-unread :
    (mhdr : List Mbuf) (m : Mbuf) (n : ℕ)
    → last_mbuf mhdr ≡ some m
    → unread (cut_last mhdr n) ++ drop n m.bytes ≡ unread mhdr
unfolding cut_last last_mbuf unread
cut_last-unread [] m n h = absurd (ground (arith, h))
cut_last-unread (m' ∷ []) m n h =
    let same = some_inj h in
    rw (← same) (
      ap (λ x. x ++ drop n m'.bytes) (append-nil (take n m'.bytes))
      ∙ take-drop m'.bytes n
      ∙ sym (append-nil m'.bytes))
cut_last-unread (m' ∷ m2 ∷ mhdr) m n h =
    append_assoc m'.bytes (unread (cut_last (m2 ∷ mhdr) n)) (drop n m.bytes)
    ∙ ap (λ x. m'.bytes ++ x) (cut_last-unread (m2 ∷ mhdr) m n h)

unread-insert : (mhdr : List Mbuf) (m : Mbuf) → unread (mbuf_insert mhdr m) ≡ unread mhdr ++ m.bytes
unfolding unread mbuf_insert
unread-insert [] m = append-nil m.bytes
unread-insert (m' ∷ mhdr) m =
    ap (λ x. m'.bytes ++ x) (unread-insert mhdr m)
    ∙ sym (append_assoc m'.bytes (unread mhdr) m.bytes)

-- A copy into a new buffer fits.
copy_new :
    (mbuf_offset : ℕ) (src : List ℕ)
    → mbuf_offset < 2 ^ 32
    → length src ≤ mbuf_offset
    → mbuf_copy mbuf_offset new_mbuf src ≡ some (record new_mbuf { bytes = src })
unfolding mbuf_copy mbuf_full mbuf_size
copy_new mbuf_offset [] small fits = refl
copy_new mbuf_offset (b ∷ src) small fits =
    let some_ : (length (b ∷ src) == 0) ≡ false = ground arith in
    let open_ : (0 + 0 == mbuf_offset) ≡ false = ground (arith, fits) in
    let room : leb (length (b ∷ src)) (u32 (mbuf_offset - (0 + 0))) ≡ true =
      ground (arith, fits, small) in
    simp (some_, open_, room) refl

get_new :
    (found : Bool) (q : Free) (got : Mbuf × Free) → mbuf_get found q ≡ some got → got.0 ≡ new_mbuf
unfolding mbuf_get
get_new found q got h = by_list q.free_mbufq found h
  where
    by_list :
        (free : List Mbuf) (b : Bool)
        → mbuf_get b (record q { free_mbufq = free }) ≡ some got
        → got.0 ≡ new_mbuf
    by_list [] true e = ap (λ x. x.0) (sym (some_inj e))
    by_list [] false e = absurd (ground (arith, e))
    by_list (m ∷ rest) b e = ap (λ x. x.0) (sym (some_inj e))

-- The split of the last buffer `m` at `n`.
split_at :
    (mbuf_offset : ℕ) (found : Bool) (q : Free) (mhdr : List Mbuf) (n : ℕ) (m : Mbuf)
    (got : Mbuf × Free)
    → mbuf_offset < 2 ^ 32
    → length m.bytes ≤ mbuf_offset
    → last_mbuf mhdr ≡ some m
    → mbuf_get found q ≡ some got
    → mbuf_split mbuf_offset found q mhdr n
      ≡ some (cut_last mhdr n, record new_mbuf { bytes = drop n m.bytes }, got.1)
unfolding mbuf_split
split_at mbuf_offset found q mhdr n m got small fits has_last has_got =
    let shorter : length (drop n m.bytes) ≤ mbuf_offset =
      omega (arith, length-drop n m.bytes, fits) in
    simp
      (
        has_last,
        has_got,
        get_new found q got has_got,
        copy_new mbuf_offset (drop n m.bytes) small shorter,
      )
      refl

last-insert : (mhdr : List Mbuf) (m : Mbuf) → last_mbuf (mbuf_insert mhdr m) ≡ some m
unfolding last_mbuf mbuf_insert
last-insert [] m = refl
last-insert (m' ∷ []) m = refl
last-insert (m' ∷ m2 ∷ mhdr) m = last-insert (m2 ∷ mhdr) m

-- A repair loses no byte: where the last buffer `m` of a message holds no more than a buffer can, and a
-- new buffer is got, msg_repair at `n` bytes behind its `pos` leaves a message with the same bytes, whose
-- last buffer holds those from `n` on and no others.
pub msg_repair-unread :
    (mbuf_offset : ℕ) (found : Bool) (q : Free) (mhdr : List Mbuf) (n : ℕ) (m : Mbuf)
    (got : Mbuf × Free)
    → mbuf_offset < 2 ^ 32
    → length m.bytes ≤ mbuf_offset
    → last_mbuf mhdr ≡ some m
    → mbuf_get found q ≡ some got
    → (mhdr' : List Mbuf) × (msg_repair mbuf_offset found q mhdr n ≡ some (mhdr', got.1))
      × (unread mhdr' ≡ unread mhdr)
      × (last_mbuf mhdr' ≡ some (record new_mbuf { bytes = drop n m.bytes }))
unfolding msg_repair
msg_repair-unread mbuf_offset found q mhdr n m got small fits has_last has_got =
    let t = record new_mbuf { bytes = drop n m.bytes } in
    (
      mbuf_insert (cut_last mhdr n) t,
      simp (split_at mbuf_offset found q mhdr n m got small fits has_last has_got) refl,
      unread-insert (cut_last mhdr n) t ∙ cut_last-unread mhdr m n has_last,
      last-insert (cut_last mhdr n) t,
    )

-- The next message gets the bytes behind the first one: where the parser has ended within the last
-- buffer `m`, at `n` bytes behind its `pos`, and memory is found, msg_parsed leaves two messages that hold
-- the bytes of the one, the second those from `n` on.
pub msg_parsed-unread :
    (mbuf_offset : ℕ) (found : Bool) (q : Free) (mhdr : List Mbuf) (n : ℕ) (m : Mbuf)
    (got : Mbuf × Free)
    → mbuf_offset < 2 ^ 32
    → length m.bytes ≤ mbuf_offset
    → n < length m.bytes
    → last_mbuf mhdr ≡ some m
    → mbuf_get found q ≡ some got
    → (first next : List Mbuf) × (msg_parsed mbuf_offset found true q mhdr n
        ≡ some (first, next, got.1))
      × (unread first ++ unread next ≡ unread mhdr)
      × (unread next ≡ drop n m.bytes)
unfolding msg_parsed mbuf_insert unread
msg_parsed-unread mbuf_offset found q mhdr n m got small fits within has_last has_got =
    let t = record new_mbuf { bytes = drop n m.bytes } in
    let more : (length m.bytes == n) ≡ false = ground (arith, within) in
    (
      cut_last mhdr n,
      t ∷ [],
      simp (has_last, more, split_at mbuf_offset found q mhdr n m got small fits has_last has_got)
          refl,
      ap (λ x. unread (cut_last mhdr n) ++ x) (append-nil (drop n m.bytes))
          ∙ cut_last-unread mhdr m n has_last,
      append-nil (drop n m.bytes),
    )
