-- ===== src/Redis/Parse/Loop.antt =====
-- The loop of redis_parse_req and its results.
use twemproxy.Common.{ℕ, zero, suc, List, [], ◌∷◌, Bool, none, some, length, if◌then◌else◌}
use twemproxy.Redis.Parse.State.{State, Req, Setup, Move}
use twemproxy.Redis.Parse.Steps.{step}

-- What a call leaves. `ok`: the request, and the bytes behind it. `again`: the buffer is read.
-- `repair`: it is full besides, and the bytes of the token are to be read again from a new one.
-- `starved`: the fuel of the model ran out.
pub data Outcome : Type 0 where
  ok : Req → List ℕ → Outcome
  again : Req → Outcome
  repair : Req → List ℕ → Outcome
  error : State → Outcome
  enomem : State → Outcome
  starved : Outcome

-- The label `done`.
abbrev pub finished : Req → Req
finished r = record r { state = State.start; token = none }

abbrev pub continue : (Req → List ℕ → Outcome) → Move → Outcome
continue next (Move.go r rest) = next r rest
continue next (Move.wait r) = Outcome.again r
continue next (Move.done r rest) = Outcome.ok (finished r) rest
continue next (Move.error s) = Outcome.error s
continue next (Move.enomem s) = Outcome.enomem s

-- The loop over the bytes between `pos` and `last`, on fuel.
unfoldable pub loop : Setup → ℕ → Req → List ℕ → Outcome
loop setup n r [] = Outcome.again r
loop setup zero r (ch ∷ after) = Outcome.starved
loop setup (suc n) r (ch ∷ after) = continue (loop setup n) (step setup r ch after)

unfoldable pub run : Setup → Req → List ℕ → Outcome
unfolding loop
run setup r bytes = loop setup (length bytes) r bytes

-- The end of the loop: whether the buffer is full and a token is open.
abbrev pub check_full : Bool → Outcome → Outcome
check_full full (Outcome.again r) = elim r.token [
  | none ↦ Outcome.again r
  | some held ↦ if full then Outcome.repair (record r { token = none }) held else Outcome.again r
]
check_full full (Outcome.ok r rest) = Outcome.ok r rest
check_full full (Outcome.repair r rest) = Outcome.repair r rest
check_full full (Outcome.error s) = Outcome.error s
check_full full (Outcome.enomem s) = Outcome.enomem s
check_full full Outcome.starved = Outcome.starved

unfoldable pub redis_parse_req : Setup → Bool → Req → List ℕ → Outcome
redis_parse_req setup full r bytes = check_full full (run setup r bytes)
