-- ===== src/Redis/Reply/Resume.antt =====
-- redis_parse_rsp over the pieces of a response: its rounds, their end, and the bytes that come later.
use twemproxy.Common.{
  ℕ, zero, suc, ◌+◌, ◌≤◌, ◌≡◌, refl, sym, ◌∙◌, ap, arith, List, [], ◌∷◌, ◌++◌, length,
}
use mathlib.Core.List.{append-nil}
use twemproxy.Redis.Reply.State.{Rsp, RspMove}
use twemproxy.Redis.Reply.Steps.{rsp_step_in, rsp_step}
use twemproxy.Redis.Reply.Loop.{RspOutcome, rsp_continue, rsp_loop, rsp_run}
use twemproxy.Redis.Reply.Grow.{Grows, backs, backs-le, rsp_step-Grows}

-- How many rounds there are at most.
weight : Rsp → List ℕ → ℕ
weight r bytes = length bytes + length bytes + backs r.state

-- Two ways to go on that agree where fewer rounds are left agree behind a move.
continue-agrees :
    {c : ℕ} {more after : List ℕ} {m m' : RspMove} (r : Rsp) (ch : ℕ)
    (f g : Rsp → List ℕ → RspOutcome)
    → Grows r.state c more after m m'
    → ((r' : Rsp) (rest : List ℕ)
        → suc (weight r' rest) ≤ weight r (ch ∷ after)
        → f r' rest ≡ g r' rest)
    → rsp_continue f m ≡ rsp_continue g m
unfolding weight
continue-agrees r ch f g (Grows.go {r = r'} {rest} le) same =
    same r' rest (omega (arith, le, backs-le r'.state))
continue-agrees r ch f g (Grows.back {r = r'} {ch = b} one none_) same =
    same r' _ (omega (arith, one, none_))
continue-agrees r ch f g (Grows.wait here eq) same = refl
continue-agrees r ch f g (Grows.done le) same = refl
continue-agrees r ch f g Grows.error same = refl

loop_enough :
    (n k : ℕ) (r : Rsp) (bytes : List ℕ)
    → weight r bytes ≤ suc n
    → weight r bytes ≤ suc k
    → rsp_loop n r bytes ≡ rsp_loop k r bytes
unfolding rsp_loop weight
loop_enough n k r [] hn hk = ends n k
  where
    ends : (i j : ℕ) → rsp_loop i r [] ≡ rsp_loop j r []
    ends zero zero = refl
    ends zero (suc j) = refl
    ends (suc i) zero = refl
    ends (suc i) (suc j) = refl
loop_enough zero k r (ch ∷ after) hn hk = absurd (omega arith)
loop_enough (suc n) zero r (ch ∷ after) hn hk = absurd (omega arith)
loop_enough (suc n) (suc k) r (ch ∷ after) hn hk =
    continue-agrees r ch (rsp_loop n) (rsp_loop k) (rsp_step-Grows r.state r ch 0 after [] refl)
      (λ r' rest less. loop_enough n k r' rest (omega arith) (omega arith))

pub rsp_run_nil : (r : Rsp) → rsp_run r [] ≡ RspOutcome.again r
unfolding rsp_run rsp_loop
rsp_run_nil r = refl

-- A round of the loop.
pub rsp_run_round :
    (r : Rsp) (ch : ℕ) (after : List ℕ)
    → rsp_run r (ch ∷ after) ≡ rsp_continue rsp_run (rsp_step r ch after)
unfolding rsp_run rsp_loop weight
rsp_run_round r ch after =
    let one_more : suc (length after) + suc (length after)
        ≡ suc (length after + suc (length after)) =
      omega arith in
    ap (λ n. rsp_loop n r (ch ∷ after)) one_more
    ∙ continue-agrees r ch (rsp_loop (length after + suc (length after))) rsp_run
        (rsp_step-Grows r.state r ch 0 after [] refl)
        (λ r' rest less.
          loop_enough (length after + suc (length after)) (length rest + length rest) r' rest
            (omega (arith, less, backs-le r.state)) (omega (arith, backs-le r'.state)))

-- A result, and then more bytes.
unfoldable pub rsp_resume : List ℕ → RspOutcome → RspOutcome
rsp_resume more (RspOutcome.ok r rest) = RspOutcome.ok r (rest ++ more)
rsp_resume more (RspOutcome.again r) = rsp_run r more
rsp_resume more (RspOutcome.repair r rest) = RspOutcome.repair r rest
rsp_resume more (RspOutcome.error s) = RspOutcome.error s
rsp_resume more RspOutcome.starved = RspOutcome.starved

continue-resume :
    (r : Rsp) (ch c : ℕ) (more : List ℕ) {after : List ℕ} {m m' : RspMove}
    → Grows r.state c more after m m'
    → ((r' : Rsp) (rest : List ℕ)
        → suc (weight r' rest) ≤ weight r (ch ∷ after)
        → rsp_run r' (rest ++ c ∷ more) ≡ rsp_resume (c ∷ more) (rsp_run r' rest))
    → rsp_continue rsp_run m' ≡ rsp_resume (c ∷ more) (rsp_continue rsp_run m)
unfolding rsp_resume weight
continue-resume r ch c more (Grows.go {r = r'} {rest} le) h =
    h r' rest (omega (arith, le, backs-le r'.state))
continue-resume r ch c more (Grows.back {r = r'} one none_) h = h r' _ (omega (arith, one, none_))
continue-resume r ch c more (Grows.wait {r = r'} here eq) h =
    ap (rsp_continue rsp_run) (eq ∙ ap (λ s. rsp_step_in s r' c more) (sym here))
    ∙ sym (rsp_run_round r' c more)
continue-resume r ch c more (Grows.done le) h = refl
continue-resume r ch c more Grows.error h = refl

resume-append :
    (n : ℕ) (r : Rsp) (bytes : List ℕ) (c : ℕ) (more : List ℕ)
    → weight r bytes ≤ n
    → rsp_run r (bytes ++ c ∷ more) ≡ rsp_resume (c ∷ more) (rsp_run r bytes)
unfolding rsp_resume weight
resume-append n r [] c more le = rw (rsp_run_nil r) refl
resume-append zero r (ch ∷ after) c more le = absurd (omega arith)
resume-append (suc n) r (ch ∷ after) c more le =
    rsp_run_round r ch (after ++ c ∷ more)
    ∙ continue-resume r ch c more (rsp_step-Grows r.state r ch c after more refl)
        (λ r' rest less. resume-append n r' rest c more (omega arith))
    ∙ ap (rsp_resume (c ∷ more)) (sym (rsp_run_round r ch after))

-- However the bytes of a response are cut into reads, the parser comes to the same: reading
-- `bytes ++ more` at once gives what comes of reading `bytes` and then `more`, where the response is
-- done, where it is refused, and where it goes on.
pub rsp_run-append :
    (r : Rsp) (bytes more : List ℕ) → rsp_run r (bytes ++ more) ≡ rsp_resume more (rsp_run r bytes)
unfolding rsp_resume
rsp_run-append r bytes [] = rw (append-nil bytes) (resume_nil (rsp_run r bytes))
  where
    resume_nil : (o : RspOutcome) → o ≡ rsp_resume [] o
    resume_nil (RspOutcome.ok r' rest) = rw (append-nil rest) refl
    resume_nil (RspOutcome.again r') = sym (rsp_run_nil r')
    resume_nil (RspOutcome.repair r' rest) = refl
    resume_nil (RspOutcome.error s) = refl
    resume_nil RspOutcome.starved = refl
rsp_run-append r bytes (c ∷ more) = resume-append (weight r bytes) r bytes c more (omega arith)

-- The parser has come to an end.
abbrev pub IsEnd : RspOutcome → Type 0
IsEnd RspOutcome.starved = ⊥
IsEnd (RspOutcome.repair r rest) = ⊥
IsEnd _ = Unit

run-IsEnd : (n : ℕ) (r : Rsp) (bytes : List ℕ) → weight r bytes ≤ n → IsEnd (rsp_run r bytes)
unfolding weight
run-IsEnd n r [] le = rw (rsp_run_nil r) tt
run-IsEnd zero r (ch ∷ after) le = absurd (omega arith)
run-IsEnd (suc n) r (ch ∷ after) le = rw (rsp_run_round r ch after) (
    ends (rsp_step-Grows r.state r ch 0 after [] refl)
      (λ r' rest less. run-IsEnd n r' rest (omega arith)))
  where
    ends :
        {m m' : RspMove}
        → Grows r.state 0 [] after m m'
        → ((r' : Rsp) (rest : List ℕ)
            → suc (weight r' rest) ≤ weight r (ch ∷ after)
            → IsEnd (rsp_run r' rest))
        → IsEnd (rsp_continue rsp_run m)
    ends (Grows.go {r = r'} {rest} h) ih = ih r' rest (omega (arith, h, backs-le r'.state))
    ends (Grows.back {r = r'} one none_) ih = ih r' _ (omega (arith, one, none_))
    ends (Grows.wait here eq) ih = tt
    ends (Grows.done h) ih = tt
    ends Grows.error ih = tt

-- The parser of responses ends on every input: though it goes back by a byte at the start of a response
-- and of a nested one, two rounds for each byte are enough.
pub rsp_run-IsEnd : (r : Rsp) (bytes : List ℕ) → IsEnd (rsp_run r bytes)
rsp_run-IsEnd r bytes = run-IsEnd (weight r bytes) r bytes (omega arith)
