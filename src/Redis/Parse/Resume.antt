-- ===== src/Redis/Parse/Resume.antt =====
-- redis_parse_req over the pieces of a request: what msg_parse of src/nc_message.c relies on when it
-- calls the parser again with the bytes that have come in since.
use twemproxy.Common.{
  ℕ, zero, suc, ◌≤◌, ◌≡◌, refl, sym, ◌∙◌, ap, arith, List, [], ◌∷◌, ◌++◌, length,
}
use mathlib.Core.List.{append-nil}
use twemproxy.Redis.Parse.State.{State, Req, Setup, Move}
use twemproxy.Redis.Parse.Steps.{step_in}
use twemproxy.Redis.Parse.Token.{IsOpen}
use twemproxy.Redis.Parse.Consume.{IsFine}
use twemproxy.Redis.Parse.Loop.{Outcome, continue, run}
use twemproxy.Redis.Parse.Rounds.{step-IsFine, run_nil, run_round}
use twemproxy.Redis.Parse.Extend.{Extends, step_in-Extends}

-- A result, and then more bytes: the parser is called again with them where it asked for more, and
-- they stand behind the request where it is at its end.
unfoldable pub resume : Setup → List ℕ → Outcome → Outcome
resume setup more (Outcome.ok r rest) = Outcome.ok r (rest ++ more)
resume setup more (Outcome.again r) = run setup r more
resume setup more (Outcome.repair r rest) = Outcome.repair r rest
resume setup more (Outcome.error s) = Outcome.error s
resume setup more (Outcome.enomem s) = Outcome.enomem s
resume setup more Outcome.starved = Outcome.starved

continue-resume :
    (setup : Setup) (s : State) (c : ℕ) (more : List ℕ) {after : List ℕ} {m m' : Move}
    → Extends s (step_in setup s) c more m m'
    → IsFine after m
    → ((r : Req) (rest : List ℕ)
        → length rest ≤ length after
        → IsOpen r
        → run setup r (rest ++ c ∷ more) ≡ resume setup (c ∷ more) (run setup r rest))
    → continue (run setup) m' ≡ resume setup (c ∷ more) (continue (run setup) m)
unfolding resume
continue-resume setup s c more (Extends.go {r} {rest}) (IsFine.go le open_) h = h r rest le open_
continue-resume setup s c more (Extends.wait {r} here eq) (IsFine.wait open_) h =
    ap (continue (run setup)) (eq ∙ ap (λ t. step_in setup t r c more) (sym here))
    ∙ sym (run_round setup r c more open_)
continue-resume setup s c more Extends.done (IsFine.done le) h = refl
continue-resume setup s c more Extends.error IsFine.error h = refl
continue-resume setup s c more Extends.enomem IsFine.enomem h = refl

resume-append :
    (setup : Setup) (n : ℕ) (r : Req) (bytes : List ℕ) (c : ℕ) (more : List ℕ)
    → length bytes ≤ n
    → IsOpen r
    → run setup r (bytes ++ c ∷ more) ≡ resume setup (c ∷ more) (run setup r bytes)
unfolding resume
resume-append setup n r [] c more le open_ = rw (run_nil setup r) refl
resume-append setup zero r (ch ∷ after) c more le open_ = absurd (omega arith)
resume-append setup (suc n) r (ch ∷ after) c more le open_ =
    run_round setup r ch (after ++ c ∷ more) open_
    ∙ continue-resume setup r.state c more (step_in-Extends setup r.state r ch c after more refl)
        (step-IsFine setup r ch after open_)
        (λ r' rest shorter o. resume-append setup n r' rest c more (omega arith) o)
    ∙ ap (resume setup (c ∷ more)) (sym (run_round setup r ch after open_))

-- However the bytes of a request are cut into reads, the parser comes to the same: if the token of the
-- request is as its state needs it, then reading `bytes ++ more` at once gives what comes of reading
-- `bytes` and then `more`, where the request is done, where it is refused, and where it goes on.
pub run-append :
    (setup : Setup) (r : Req) (bytes more : List ℕ)
    → IsOpen r
    → run setup r (bytes ++ more) ≡ resume setup more (run setup r bytes)
unfolding resume
run-append setup r bytes [] open_ = rw (append-nil bytes) (resume_nil (run setup r bytes))
  where
    resume_nil : (o : Outcome) → o ≡ resume setup [] o
    resume_nil (Outcome.ok r' rest) = rw (append-nil rest) refl
    resume_nil (Outcome.again r') = sym (run_nil setup r')
    resume_nil (Outcome.repair r' rest) = refl
    resume_nil (Outcome.error s) = refl
    resume_nil (Outcome.enomem s) = refl
    resume_nil Outcome.starved = refl
run-append setup r bytes (c ∷ more) open_ =
    resume-append setup (length bytes) r bytes c more (omega arith) open_
