-- ===== src/Redis/Parse/Bulk.antt =====
-- The parts of a request, read from their first byte to their last one.
use twemproxy.Common.{
  ℕ, ◌-◌, ◌≡◌, refl, ◌∙◌, ap, List, [], ◌∷◌, ◌++◌, Bool, true, false, none, some, length,
}
use twemproxy.Redis.Tables.{redis_argeval}
use twemproxy.Redis.Parse.State.{State, Req, Setup, Move, Verdict}
use twemproxy.Redis.Parse.Steps.{
  cr, lf, len_step, lf_step, body_step, arg2_step, token_step, step_in,
}
use twemproxy.Redis.Parse.Token.{number, IsDigits, IsNumber, TokenIs}
use twemproxy.Redis.Parse.Loop.{Outcome, continue, finished, run}
use twemproxy.Redis.Parse.Rounds.{run_round}
use twemproxy.Redis.Parse.Resume.{resume, run-append}
use twemproxy.Redis.Parse.Repair.{run_len_sign}
use twemproxy.Redis.Parse.EvalKeys.{keys_end}

-- The request at the start of a part.
abbrev pub enters : Req → State → Req
enters r s = record r { state = s; token = none }

len_step_end :
    (accepts : Req → List ℕ → Bool) (next : State) (r : Req) (held x : List ℕ)
    → accepts (record r { token = some held }) held ≡ true
    → len_step accepts next (record r { token = some held }) cr x
      ≡ Move.go (record r { rnarg = r.rnarg - 1; token = none; state = next }) x
unfolding len_step
len_step_end accepts next r held x accepted = rw accepted refl

-- A length, and its carriage return.
pub run_length :
    (setup : Setup) (s next : State) (accepts : Req → List ℕ → Bool) (r : Req) (ds x : List ℕ)
    → step_in setup s ≡ len_step accepts next
    → ((held : List ℕ) (n : ℕ) → IsNumber b'$' held n → TokenIs (some held) s r.type r.rnarg n)
    → IsDigits ds
    → accepts (record r { state = s; token = some (b'$' ∷ ds); rlen = number 0 ds }) (b'$' ∷ ds)
      ≡ true
    → run setup (enters r s) (b'$' ∷ (ds ++ cr ∷ x))
      ≡ run setup
          (record r { state = next; token = none; rlen = number 0 ds; rnarg = r.rnarg - 1 })
          x
unfolding resume
run_length setup s next accepts r ds x is_len same ok_ accepted =
    run-append setup (enters r s) (b'$' ∷ ds) (cr ∷ x) tt
    ∙ ap (resume setup (cr ∷ x)) (run_len_sign setup s next accepts r ds is_len ok_)
    ∙ run_round setup (record r { state = s; token = some (b'$' ∷ ds); rlen = number 0 ds }) cr x
        (same _ _ (ds, refl, ok_, refl))
    ∙ ap
        (λ f.
          continue (run setup)
            (f (record r { state = s; token = some (b'$' ∷ ds); rlen = number 0 ds }) cr x))
        is_len
    ∙ ap (continue (run setup)) (
        len_step_end accepts next (record r { state = s; rlen = number 0 ds }) (b'$' ∷ ds) x
          accepted)

-- What the test behind a line feed leads to.
unfoldable pub decide : Setup → Verdict → Req → List ℕ → Outcome
decide setup Verdict.reject r x = Outcome.error r.state
decide setup Verdict.finish r x = Outcome.ok (finished r) x
decide setup (Verdict.enter s) r x = run setup (record r { state = s }) x

pub run-lf :
    (setup : Setup) (s : State) (verdict : Req → Verdict) (r : Req) (x : List ℕ)
    → step_in setup s ≡ lf_step verdict
    → run setup (enters r s) (lf ∷ x) ≡ decide setup (verdict (enters r s)) (enters r s) x
unfolding lf_step decide
run-lf setup s verdict r x is_lf =
    run_round setup (enters r s) lf x tt ∙ rw is_lf (by_verdict (verdict (enters r s)))
  where
    by_verdict :
        (v : Verdict)
        → continue (run setup) (elim v [
          | Verdict.reject ↦ Move.error s
          | Verdict.finish ↦ Move.done (enters r s) x
          | Verdict.enter s' ↦ Move.go (record (enters r s) { state = s' }) x
        ])
          ≡ decide setup v (enters r s) x
    by_verdict Verdict.reject = refl
    by_verdict Verdict.finish = refl
    by_verdict (Verdict.enter s') = refl

-- The bytes at the start of which a request stands, with their number.
abbrev pub reads : Req → State → ℕ → Req
reads r s n = record r { state = s; token = none; rlen = n }

-- A step that takes `bytes`, a carriage return behind them and nothing of `x`.
IsTaken : (Req → ℕ → List ℕ → Move) → Req → List ℕ → Move → List ℕ → Type 0
IsTaken f r [] m x = f r cr x ≡ m
IsTaken f r (a ∷ bytes) m x = f r a (bytes ++ cr ∷ x) ≡ m

run-IsTaken :
    (setup : Setup) (f : Req → ℕ → List ℕ → Move) (r : Req) (s : State) (n : ℕ) (bytes x : List ℕ)
    (m : Move)
    → step_in setup s ≡ f
    → IsTaken f (reads r s n) bytes m x
    → run setup (reads r s n) (bytes ++ cr ∷ x) ≡ continue (run setup) m
unfolding IsTaken
run-IsTaken setup f r s n [] x m is_f taken =
    run_round setup (reads r s n) cr x tt
    ∙ ap (λ g. continue (run setup) (g (reads r s n) cr x)) is_f
    ∙ ap (continue (run setup)) taken
run-IsTaken setup f r s n (a ∷ bytes) x m is_f taken =
    run_round setup (reads r s n) a (bytes ++ cr ∷ x) tt
    ∙ ap (λ g. continue (run setup) (g (reads r s n) a (bytes ++ cr ∷ x))) is_f
    ∙ ap (continue (run setup)) taken

body_step_end :
    (r : Req) (s next : State) (arg x : List ℕ)
    → IsTaken (body_step next) (reads r s (length arg)) arg (Move.go (reads r next 0) x) x
unfolding body_step IsTaken
body_step_end r s next [] x = let h = keys_end [] x in simp (h.0) refl
body_step_end r s next (a ∷ arg) x = let h = keys_end (a ∷ arg) x in simp (h.0, h.1, h.3) refl

token_step_end :
    (found : Req → List ℕ → List ℕ → Move) (r : Req) (s : State) (bytes x : List ℕ)
    → IsTaken
        (token_step found)
        (reads r s (length bytes))
        bytes
        (found (reads r s (length bytes)) bytes x)
        x
unfolding token_step IsTaken
token_step_end found r s [] x = let h = keys_end [] x in simp (h.0) refl
token_step_end found r s (a ∷ bytes) x =
    let h = keys_end (a ∷ bytes) x in simp (h.0, h.1, h.2, h.3) refl

-- The bytes of an argument that is skipped, and their carriage return.
pub run_body :
    (setup : Setup) (s next : State) (r : Req) (arg x : List ℕ)
    → step_in setup s ≡ body_step next
    → run setup (reads r s (length arg)) (arg ++ cr ∷ x) ≡ run setup (reads r next 0) x
run_body setup s next r arg x is_body =
    run-IsTaken setup _ r s (length arg) arg x _ is_body (body_step_end r s next arg x)

-- Those of the second argument, of all commands but EVAL.
pub run_arg2_body :
    (setup : Setup) (r : Req) (arg x : List ℕ)
    → redis_argeval r.type ≡ false
    → run setup (reads r State.arg2 (length arg)) (arg ++ cr ∷ x)
      ≡ run setup (reads r State.arg2_lf 0) x
unfolding step_in IsTaken
run_arg2_body setup r arg x other =
    run-IsTaken setup arg2_step r State.arg2 (length arg) arg x
      (Move.go (reads r State.arg2_lf 0) x) refl
      (taken arg (body_step_end r State.arg2 State.arg2_lf arg x))
  where
    taken :
        (bytes : List ℕ)
        → IsTaken
            (body_step State.arg2_lf)
            (reads r State.arg2 (length arg))
            bytes
            (Move.go (reads r State.arg2_lf 0) x)
            x
        → IsTaken arg2_step
            (reads r State.arg2 (length arg))
            bytes
            (Move.go (reads r State.arg2_lf 0) x)
            x
    taken [] h = simp other h
    taken (a ∷ bytes) h = simp other h

-- The bytes of a name or of a key, and their carriage return.
pub run_token :
    (setup : Setup) (s : State) (found : Req → List ℕ → List ℕ → Move) (r : Req) (bytes x : List ℕ)
    → step_in setup s ≡ token_step found
    → run setup (reads r s (length bytes)) (bytes ++ cr ∷ x)
      ≡ continue (run setup) (found (reads r s (length bytes)) bytes x)
run_token setup s found r bytes x is_token =
    run-IsTaken setup _ r s (length bytes) bytes x _ is_token (token_step_end found r s bytes x)
