-- ===== src/Exchange/Order.antt =====
-- Requests go to the server in the order in which they came.
use twemproxy.Common.{
  ℕ, zero, suc, ◌≡◌, ◌≢◌, refl, sym, ◌∙◌, ap, arith, List, [], ◌∷◌, ◌++◌, false, not, Bool-cases,
  inl, inr, Option, none, some, ◌==◌, if◌then◌else◌, take, drop, All, min,
}
use mathlib.Core.Option
use mathlib.Core.List.{append-nil}
use twemproxy.Message.{Msg}
use twemproxy.Exchange.Conn.{
  ServerConn, remove_msg, first_msg, next_msg, req_server_dequeue_imsgq, req_server_enqueue_omsgq,
  req_send_next, req_send_done, gather, send_all_done, msg_send_chain,
}

-- No two messages have the same id.
abbrev pub IsDistinct : List Msg → Type 0
IsDistinct [] = Unit
IsDistinct (m ∷ ms) = All (λ x. x.id ≢ m.id) ms × IsDistinct ms

-- The messages that a response is due for.
unfoldable pub expecting : List Msg → List Msg
expecting [] = []
expecting (m ∷ ms) = if not m.noreply then m ∷ expecting ms else expecting ms

first-append :
    (pre : List Msg) (m : Msg) (rest : List Msg)
    → (f : Msg) × (first_msg (pre ++ m ∷ rest) ≡ some f)
first-append [] m rest = (m, refl)
first-append (p ∷ pre) m rest = (p, refl)

All-last :
    (pre : List Msg) (m : Msg) (rest : List Msg) (P : Msg → Type 0) → All P (pre ++ m ∷ rest) → P m
All-last [] m rest P h = h.0
All-last (p ∷ pre) m rest P h = All-last pre m rest P h.1

next_msg-append :
    (pre : List Msg) (m : Msg) (rest : List Msg)
    → IsDistinct (pre ++ m ∷ rest)
    → next_msg m.id (pre ++ m ∷ rest) ≡ first_msg rest
unfolding next_msg
next_msg-append [] m rest d = ground arith
next_msg-append (p ∷ pre) m rest d =
    let other : m.id ≢ p.id = All-last pre m rest (λ x. x.id ≢ p.id) d.0 in
    let skip : (p.id == m.id) ≡ false = ground arith in rw skip (next_msg-append pre m rest d.1)

append_assoc_one :
    (pre : List Msg) (m : Msg) (rest : List Msg) → (pre ++ m ∷ []) ++ rest ≡ pre ++ m ∷ rest
append_assoc_one [] m rest = refl
append_assoc_one (p ∷ pre) m rest = ap (λ t. p ∷ t) (append_assoc_one pre m rest)

-- The connection while msg_send_chain gathers: `m` is the last message taken.
abbrev gathering : ServerConn → List Msg → Msg → ServerConn
gathering conn q m = record conn { imsg_q = q; smsg = some m.id }

req_send_next-follows :
    (conn : ServerConn) (pre : List Msg) (m : Msg) (rest : List Msg)
    → IsDistinct (pre ++ m ∷ rest)
    → req_send_next none (gathering conn (pre ++ m ∷ rest) m) ≡ (
      record (gathering conn (pre ++ m ∷ rest) m) {
        smsg = Option.map (λ x. x.id) (first_msg rest);
      },
      first_msg rest,
    )
unfolding req_send_next
req_send_next-follows conn pre m rest d =
    rw ((first-append pre m rest).1, req_send_next) (rw (next_msg-append pre m rest d) refl)

gather-rest :
    (n : ℕ) (conn : ServerConn) (pre : List Msg) (m : Msg) (rest : List Msg)
    → IsDistinct (pre ++ m ∷ rest)
    → ((gather n (gathering conn (pre ++ m ∷ rest) m)).1 ≡ take n rest)
      × (((gather n (gathering conn (pre ++ m ∷ rest) m)).0).imsg_q ≡ pre ++ m ∷ rest)
      × (((gather n (gathering conn (pre ++ m ∷ rest) m)).0).omsg_q ≡ conn.omsg_q)
unfolding gather
gather-rest zero conn pre m rest d = (refl, refl, refl)
gather-rest (suc n) conn pre m [] d =
    rw (req_send_next-follows conn pre m [] d, gather) (refl, refl, refl)
gather-rest (suc n) conn pre m (y ∷ rest) d =
    let shift = append_assoc_one pre m (y ∷ rest) in
    let h = gather-rest n conn (pre ++ m ∷ []) y rest (rw shift d) in
    let h' = rw shift at h in
    rw (req_send_next-follows conn pre m (y ∷ rest) d, gather) (ap (λ t. y ∷ t) h'.0, h'.1, h'.2)

-- The messages that await a response once `m` is sent.
abbrev awaiting : List Msg → Msg → List Msg
awaiting out m = if not m.noreply then out ++ m ∷ [] else out

req_send_done-first :
    (conn : ServerConn) (m : Msg) (q : List Msg)
    → req_send_done (record conn { imsg_q = m ∷ q }) m
      ≡ record conn { imsg_q = q; omsg_q = awaiting conn.omsg_q m }
unfolding req_send_done req_server_dequeue_imsgq req_server_enqueue_omsgq remove_msg
req_send_done-first conn m q = ground arith

awaiting-expecting :
    (out : List Msg) (m : Msg) (ms : List Msg)
    → awaiting out m ++ expecting ms ≡ out ++ expecting (m ∷ ms)
unfolding expecting
awaiting-expecting out m ms = elim (Bool-cases m.noreply) [
  | inl quiet ↦ simp quiet refl
  | inr answered ↦ simp answered (append_assoc_one out m (expecting ms))
]

send_all_done-take :
    (n : ℕ) (conn : ServerConn) (q : List Msg)
    → ((send_all_done (record conn { imsg_q = q }) (take n q)).imsg_q ≡ drop n q)
      × ((send_all_done (record conn { imsg_q = q }) (take n q)).omsg_q
          ≡ conn.omsg_q ++ expecting (take n q))
      × ((send_all_done (record conn { imsg_q = q }) (take n q)).smsg ≡ conn.smsg)
unfolding send_all_done expecting
send_all_done-take zero conn q = (refl, sym (append-nil conn.omsg_q), refl)
send_all_done-take (suc n) conn [] = (refl, sym (append-nil conn.omsg_q), refl)
send_all_done-take (suc n) conn (m ∷ q) =
    let h = send_all_done-take n (record conn { omsg_q = awaiting conn.omsg_q m }) q in
    rw (req_send_done-first conn m q, send_all_done)
      (h.0, h.1 ∙ awaiting-expecting conn.omsg_q m (take n q), h.2)

gather-take :
    (n : ℕ) (conn : ServerConn)
    → IsDistinct conn.imsg_q
    → conn.smsg ≡ none
    → ((gather n conn).1 ≡ take n conn.imsg_q)
      × (((gather n conn).0).imsg_q ≡ conn.imsg_q)
      × (((gather n conn).0).omsg_q ≡ conn.omsg_q)
unfolding gather
gather-take zero conn d idle = (refl, refl, refl)
gather-take (suc n) conn d idle = by_queue conn.imsg_q conn.smsg d idle
  where
    by_queue :
        (q : List Msg) (s : Option ℕ)
        → IsDistinct q
        → s ≡ none
        → ((gather (suc n) (record conn { imsg_q = q; smsg = s })).1 ≡ take (suc n) q)
          × (((gather (suc n) (record conn { imsg_q = q; smsg = s })).0).imsg_q ≡ q)
          × (((gather (suc n) (record conn { imsg_q = q; smsg = s })).0).omsg_q ≡ conn.omsg_q)
    by_queue q (some id) e busy = cc
    by_queue [] none e no_msg = unfold req_send_next in (refl, refl, refl)
    by_queue (m ∷ rest) none e no_msg =
        let h = gather-rest n conn [] m rest e in
        unfold req_send_next in (ap (λ t. m ∷ t) h.0, h.1, h.2)

take-take {ℓ} : {A : Type ℓ} (i j : ℕ) (xs : List A) → take i (take j xs) ≡ take (min i j) xs
take-take zero j xs = let least : min 0 j ≡ 0 = omega arith in rw least refl
take-take (suc i) zero xs = let least : min (suc i) 0 ≡ 0 = omega arith in rw least refl
take-take (suc i) (suc j) [] =
    let least : min (suc i) (suc j) ≡ suc (min i j) = omega arith in rw least refl
take-take (suc i) (suc j) (x ∷ xs) =
    let least : min (suc i) (suc j) ≡ suc (min i j) = omega arith in
    rw least (ap (λ t. x ∷ t) (take-take i j xs))

-- A chain that starts at a connection with no message in flight takes messages from the head of the
-- queue: those whose bytes went out leave it in order, the ones that expect a response wait behind
-- the earlier ones, and all others stay. The messages of the queue have different ids.
pub msg_send_chain_lem :
    (n sent : ℕ) (conn : ServerConn)
    → IsDistinct conn.imsg_q
    → conn.smsg ≡ none
    → ((msg_send_chain n sent conn).imsg_q ≡ drop (min sent n) conn.imsg_q)
      × ((msg_send_chain n sent conn).omsg_q
          ≡ conn.omsg_q ++ expecting (take (min sent n) conn.imsg_q))
      × ((msg_send_chain n sent conn).smsg ≡ none)
unfolding msg_send_chain
msg_send_chain_lem n sent conn d idle =
    let g = gather-take n conn d idle in
    let from : ServerConn = record ((gather n conn).0) { smsg = none; omsg_q = conn.omsg_q } in
    rw (g.0, g.1, g.2, take-take sent n conn.imsg_q)
      (send_all_done-take (min sent n) from conn.imsg_q)
