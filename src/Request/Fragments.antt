-- ===== src/Request/Fragments.antt =====
-- A request vector is done when all its fragments are, and is coalesced once.
use twemproxy.Common.{
  ℕ, ◌≤◌, ◌≡◌, ◌≢◌, ◌↔◌, ◌⊎◌, inl, inr, refl, ap, arith, List, [], ◌∷◌, true, false, some, ◌==◌,
  All,
}
use twemproxy.Message.{Msg}
use twemproxy.Request.Done.{MsgQueue, fragments_done, mark_fdone, stays, finish_vector, req_done}

-- The messages with the id stand at the front, one behind the other.
abbrev pub IsRun : ℕ → List Msg → Type 0
IsRun id [] = Unit
IsRun id (c ∷ rest) =
    ((c.frag_id ≡ id) × IsRun id rest) ⊎ ((c.frag_id ≢ id) × All (λ m. m.frag_id ≢ id) rest)

-- The fragments of the message's vector stand around it with no other message between them, as
-- req_recv_done enqueues them.
abbrev pub IsGathered : MsgQueue → Type 0
IsGathered q = IsRun (q.msg).frag_id q.before × IsRun (q.msg).frag_id q.after

-- A property of every message of the queue.
abbrev pub Everywhere : (Msg → Type 0) → MsgQueue → Type 0
Everywhere P q = All P q.before × P q.msg × All P q.after

-- A fragment of the vector satisfies `P`.
abbrev pub IfFragment : ℕ → (Msg → Type 0) → Msg → Type 0
IfFragment id P m = m.frag_id ≡ id → P m

pub All-vacuous :
    (id : ℕ) (P : Msg → Type 0) (ms : List Msg)
    → All (λ m. m.frag_id ≢ id) ms
    → All (IfFragment id P) ms
All-vacuous id P [] h = tt
All-vacuous id P (m ∷ ms) h = (λ e. absurd (h.0 e), All-vacuous id P ms h.1)

fragments_done_sound :
    (id : ℕ) (ms : List Msg)
    → IsRun id ms
    → fragments_done id ms ≡ true
    → All (IfFragment id (λ m. m.done ≡ true)) ms
unfolding fragments_done
fragments_done_sound id [] run h = tt
fragments_done_sound id (c ∷ rest) (inl same) h =
    let here : (c.frag_id == id) ≡ true = ground (arith, same.0) in
    let done_ : c.done ≡ true = ground (arith, h, here) in
    (λ _. done_, fragments_done_sound id rest same.1 (ground (arith, h, here, done_)))
fragments_done_sound id (c ∷ rest) (inr other) h =
    (λ e. absurd (other.0 e), All-vacuous id _ rest other.1)

fragments_done_complete :
    (id : ℕ) (ms : List Msg)
    → All (IfFragment id (λ m. m.done ≡ true)) ms
    → fragments_done id ms ≡ true
unfolding fragments_done
fragments_done_complete id [] h = refl
fragments_done_complete id (c ∷ rest) h = ground (arith, h.0, fragments_done_complete id rest h.1)

coalesces :
    (q : MsgQueue) (owner : ℕ) → (req_done q).coalesced ≡ some owner → (req_done q).answer ≡ true
unfolding req_done finish_vector
coalesces q owner h = ground arith

-- Once the message is done, its vector unmarked and its count reached, req_done is the two walks.
req_done-walks :
    (q : MsgQueue)
    → (q.msg).frag_id ≢ 0
    → (q.msg).fdone ≡ false
    → (req_done q).answer ≡ true
    → ((q.msg).nfrag ≤ (q.msg).nfrag_done)
      × ((q.msg).done ≡ true)
      × (fragments_done (q.msg).frag_id q.before ≡ true)
      × (fragments_done (q.msg).frag_id q.after ≡ true)
      × (req_done q ≡ finish_vector q)
unfolding req_done
req_done-walks q vector unmarked h = ground arith

walks-req_done :
    (q : MsgQueue)
    → (q.msg).frag_id ≢ 0
    → (q.msg).fdone ≡ false
    → (q.msg).nfrag ≤ (q.msg).nfrag_done
    → (q.msg).done ≡ true
    → fragments_done (q.msg).frag_id q.before ≡ true
    → fragments_done (q.msg).frag_id q.after ≡ true
    → req_done q ≡ finish_vector q
unfolding req_done
walks-req_done q vector unmarked counted done_ before after = ground arith

-- For a message of a vector that stands together in the queue and is not yet marked: req_done
-- answers true exactly when as many fragments are counted as the message has and every fragment of
-- the vector, before and after it and itself, is done.
pub req_done_iff :
    (q : MsgQueue)
    → IsGathered q
    → (q.msg).frag_id ≢ 0
    → (q.msg).fdone ≡ false
    → ((req_done q).answer ≡ true) ↔ (
        ((q.msg).nfrag ≤ (q.msg).nfrag_done)
        × Everywhere (IfFragment (q.msg).frag_id (λ m. m.done ≡ true)) q)
unfolding finish_vector
req_done_iff q run vector unmarked = (
  λ h.
      let w = req_done-walks q vector unmarked h in
      (
        w.0,
        (
          fragments_done_sound _ q.before run.0 w.2,
          (λ _. w.1),
          fragments_done_sound _ q.after run.1 w.3,
        ),
      ),
  λ h.
      ap (λ o. o.answer)
        (walks-req_done q vector unmarked h.0 (h.1.1 refl)
          (fragments_done_complete _ q.before h.1.0) (fragments_done_complete _ q.after h.1.2)),
)

-- A message whose vector is marked.
abbrev pub IsAnswered : Msg → Type 0
IsAnswered m =
    (before after : List Msg)
    → req_done (record { before = before; msg = m; after = after })
      ≡ stays true (record { before = before; msg = m; after = after })

marked-IsAnswered : (m : Msg) → m.done ≡ true → m.fdone ≡ true → IsAnswered m
unfolding req_done
marked-IsAnswered m done_ marked = λ before after. ground arith

mark_fdone-All :
    (id : ℕ) (ms : List Msg)
    → IsRun id ms
    → All (IfFragment id (λ m. m.done ≡ true)) ms
    → All (IfFragment id IsAnswered) (mark_fdone id ms)
unfolding mark_fdone
mark_fdone-All id [] run h = tt
mark_fdone-All id (c ∷ rest) (inl same) h =
    let here : (c.frag_id == id) ≡ true = ground (arith, same.0) in
    rw here ((λ e. marked-IsAnswered _ (h.0 e) refl), mark_fdone-All id rest same.1 h.1)
mark_fdone-All id (c ∷ rest) (inr other) h =
    let here : (c.frag_id == id) ≡ false = ground (arith, other.0) in
    rw here ((λ e. absurd (other.0 e)), All-vacuous id _ rest other.1)

-- When req_done coalesces for an unmarked vector that stands together in the queue, it does so for the
-- message's owner, and in the queue it leaves req_done answers true from every fragment of the
-- vector, with no write and no second coalesce.
pub req_done-once :
    (q : MsgQueue) (owner : ℕ)
    → IsGathered q
    → (q.msg).frag_id ≢ 0
    → (q.msg).fdone ≡ false
    → (req_done q).coalesced ≡ some owner
    → (owner ≡ (q.msg).frag_owner)
      × Everywhere (IfFragment (q.msg).frag_id IsAnswered) (req_done q).queue
unfolding finish_vector
req_done-once q owner run vector unmarked h =
    let answered : (req_done q).answer ≡ true = coalesces q owner h in
    let w = req_done-walks q vector unmarked answered in
    let same : (finish_vector q).coalesced ≡ some owner = rw w.4 at h in
    rw w.4 (
      cc,
      (
        mark_fdone-All _ q.before run.0 (fragments_done_sound _ q.before run.0 w.2),
        (λ _. marked-IsAnswered _ w.1 refl),
        mark_fdone-All _ q.after run.1 (fragments_done_sound _ q.after run.1 w.3),
      ),
    )
