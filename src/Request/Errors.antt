-- ===== src/Request/Errors.antt =====
-- A request vector is in error when one of its fragments is, and stays so.
use twemproxy.Common.{
  ℕ, ◌≡◌, ◌≢◌, ◌↔◌, inl, inr, refl, arith, List, [], ◌∷◌, true, false, ◌==◌, All,
}
use twemproxy.Message.{Msg}
use twemproxy.Request.Done.{MsgQueue, fragment_error, req_error}
use twemproxy.Request.Fragments.{IsRun, IsGathered, Everywhere, IfFragment, All-vacuous}

fragment_error_sound :
    (id : ℕ) (ms : List Msg)
    → IsRun id ms
    → fragment_error id ms ≡ false
    → All (IfFragment id (λ m. m.error ≡ false)) ms
unfolding fragment_error
fragment_error_sound id [] run h = tt
fragment_error_sound id (c ∷ rest) (inl same) h =
    let here : (c.frag_id == id) ≡ true = ground (arith, same.0) in
    let fine : c.error ≡ false = ground (arith, h, here) in
    ((λ _. fine), fragment_error_sound id rest same.1 (ground (arith, h, here, fine)))
fragment_error_sound id (c ∷ rest) (inr other) h =
    ((λ e. absurd (other.0 e)), All-vacuous id _ rest other.1)

fragment_error_complete :
    (id : ℕ) (ms : List Msg)
    → All (IfFragment id (λ m. m.error ≡ false)) ms
    → fragment_error id ms ≡ false
unfolding fragment_error
fragment_error_complete id [] h = refl
fragment_error_complete id (c ∷ rest) h = ground (arith, h.0, fragment_error_complete id rest h.1)

req_error-walks :
    (q : MsgQueue)
    → (q.msg).frag_id ≢ 0
    → (q.msg).ferror ≡ false
    → (req_error q).0 ≡ false
    → ((q.msg).error ≡ false)
      × (fragment_error (q.msg).frag_id q.before ≡ false)
      × (fragment_error (q.msg).frag_id q.after ≡ false)
unfolding req_error
req_error-walks q vector unmarked h = ground arith

walks-req_error :
    (q : MsgQueue)
    → (q.msg).frag_id ≢ 0
    → (q.msg).ferror ≡ false
    → (q.msg).error ≡ false
    → fragment_error (q.msg).frag_id q.before ≡ false
    → fragment_error (q.msg).frag_id q.after ≡ false
    → (req_error q).0 ≡ false
unfolding req_error
walks-req_error q vector unmarked fine before after = ground arith

-- For a message of a vector that stands together in the queue and is not yet marked: req_error
-- answers false exactly when no fragment of the vector, before or after it or itself, is in error.
pub req_error_iff :
    (q : MsgQueue)
    → IsGathered q
    → (q.msg).frag_id ≢ 0
    → (q.msg).ferror ≡ false
    → ((req_error q).0 ≡ false) ↔ Everywhere (IfFragment (q.msg).frag_id (λ m. m.error ≡ false)) q
req_error_iff q run vector unmarked = (
  λ h.
      let w = req_error-walks q vector unmarked h in
      (
        fragment_error_sound _ q.before run.0 w.1,
        (λ _. w.0),
        fragment_error_sound _ q.after run.1 w.2,
      ),
  λ h.
      walks-req_error q vector unmarked (h.1 refl) (fragment_error_complete _ q.before h.0)
        (fragment_error_complete _ q.after h.2),
)
