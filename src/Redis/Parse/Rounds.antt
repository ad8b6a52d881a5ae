-- ===== src/Redis/Parse/Rounds.antt =====
-- The loop of redis_parse_req as its rounds: the fuel is enough, and the token stays as it should.
use twemproxy.Common.{ℕ, zero, suc, ◌≤◌, ◌≡◌, refl, arith, List, [], ◌∷◌, length}
use twemproxy.Redis.Parse.State.{Req, Setup, Move}
use twemproxy.Redis.Parse.Steps.{step}
use twemproxy.Redis.Parse.Token.{IsOpen}
use twemproxy.Redis.Parse.Consume.{IsFine, step_in-IsFine}
use twemproxy.Redis.Parse.Loop.{Outcome, continue, loop, run}

pub step-IsFine :
    (setup : Setup) (r : Req) (ch : ℕ) (after : List ℕ)
    → IsOpen r
    → IsFine after (step setup r ch after)
step-IsFine setup r ch after open_ = step_in-IsFine setup r.state r ch after refl open_

-- Two ways to go on that agree on shorter inputs agree behind a move.
continue-agrees :
    {after : List ℕ} {m : Move} (f g : Req → List ℕ → Outcome)
    → IsFine after m
    → ((r : Req) (rest : List ℕ) → length rest ≤ length after → IsOpen r → f r rest ≡ g r rest)
    → continue f m ≡ continue g m
continue-agrees f g (IsFine.go {r} {rest} le open_) same = same r rest le open_
continue-agrees f g (IsFine.wait open_) same = refl
continue-agrees f g (IsFine.done le) same = refl
continue-agrees f g IsFine.error same = refl
continue-agrees f g IsFine.enomem same = refl

loop_enough :
    (setup : Setup) (n k : ℕ) (r : Req) (bytes : List ℕ)
    → length bytes ≤ n
    → length bytes ≤ k
    → IsOpen r
    → loop setup n r bytes ≡ loop setup k r bytes
unfolding loop
loop_enough setup n k r [] hn hk open_ = ends n k
  where
    ends : (i j : ℕ) → loop setup i r [] ≡ loop setup j r []
    ends zero zero = refl
    ends zero (suc j) = refl
    ends (suc i) zero = refl
    ends (suc i) (suc j) = refl
loop_enough setup zero k r (ch ∷ after) hn hk open_ = absurd (omega arith)
loop_enough setup (suc n) zero r (ch ∷ after) hn hk open_ = absurd (omega arith)
loop_enough setup (suc n) (suc k) r (ch ∷ after) hn hk open_ =
    continue-agrees (loop setup n) (loop setup k) (step-IsFine setup r ch after open_)
      (λ r' rest le o. loop_enough setup n k r' rest (omega arith) (omega arith) o)

pub run_nil : (setup : Setup) (r : Req) → run setup r [] ≡ Outcome.again r
unfolding run loop
run_nil setup r = refl

-- A round of the loop.
pub run_round :
    (setup : Setup) (r : Req) (ch : ℕ) (after : List ℕ)
    → IsOpen r
    → run setup r (ch ∷ after) ≡ continue (run setup) (step setup r ch after)
unfolding run loop
run_round setup r ch after open_ =
    continue-agrees (loop setup (length after)) (run setup) (step-IsFine setup r ch after open_)
      (λ r' rest le o. loop_enough setup (length after) (length rest) r' rest le (omega arith) o)

-- What a call of the parser leaves of the token.
abbrev pub IsOpenAfter : Outcome → Type 0
IsOpenAfter (Outcome.ok r rest) = IsOpen r
IsOpenAfter (Outcome.again r) = IsOpen r
IsOpenAfter (Outcome.repair r rest) = ⊥
IsOpenAfter (Outcome.error s) = Unit
IsOpenAfter (Outcome.enomem s) = Unit
IsOpenAfter Outcome.starved = ⊥

continue-IsOpenAfter :
    {after : List ℕ} {m : Move} (f : Req → List ℕ → Outcome)
    → IsFine after m
    → ((r : Req) (rest : List ℕ) → length rest ≤ length after → IsOpen r → IsOpenAfter (f r rest))
    → IsOpenAfter (continue f m)
continue-IsOpenAfter f (IsFine.go {r} {rest} le open_) h = h r rest le open_
continue-IsOpenAfter f (IsFine.wait open_) h = open_
continue-IsOpenAfter f (IsFine.done le) h = tt
continue-IsOpenAfter f IsFine.error h = tt
continue-IsOpenAfter f IsFine.enomem h = tt

loop-IsOpenAfter :
    (setup : Setup) (n : ℕ) (r : Req) (bytes : List ℕ)
    → length bytes ≤ n
    → IsOpen r
    → IsOpenAfter (loop setup n r bytes)
unfolding loop
loop-IsOpenAfter setup zero r [] h open_ = open_
loop-IsOpenAfter setup (suc n) r [] h open_ = open_
loop-IsOpenAfter setup zero r (ch ∷ after) h open_ = absurd (omega arith)
loop-IsOpenAfter setup (suc n) r (ch ∷ after) h open_ =
    continue-IsOpenAfter (loop setup n) (step-IsFine setup r ch after open_)
      (λ r' rest le o. loop-IsOpenAfter setup n r' rest (omega arith) o)

-- The parser ends on every input, with as much fuel as there are bytes: if the token of the request
-- is as its state needs it, then it is so again where the parser will be called again.
pub run-IsOpenAfter :
    (setup : Setup) (r : Req) (bytes : List ℕ) → IsOpen r → IsOpenAfter (run setup r bytes)
unfolding run
run-IsOpenAfter setup r bytes open_ =
    loop-IsOpenAfter setup (length bytes) r bytes (omega arith) open_
