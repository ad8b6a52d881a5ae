-- ===== src/Redis/Reply/Loop.antt =====
-- The loop of redis_parse_rsp and its results.
use twemproxy.Common.{ℕ, zero, suc, ◌+◌, List, [], ◌∷◌, Bool, none, some, length, if◌then◌else◌}
use twemproxy.Redis.Reply.State.{RspState, Rsp, RspMove}
use twemproxy.Redis.Reply.Steps.{rsp_step}

-- What a call leaves. `ok`: the response, and the bytes behind it. `again`: the buffer is read.
-- `repair`: it is full besides, and the bytes of the token are to be read again from a new one.
-- `starved`: the fuel of the model ran out.
pub data RspOutcome : Type 0 where
  ok : Rsp → List ℕ → RspOutcome
  again : Rsp → RspOutcome
  repair : Rsp → List ℕ → RspOutcome
  error : RspState → RspOutcome
  starved : RspOutcome

-- The label `done`.
abbrev pub rsp_finished : Rsp → Rsp
rsp_finished r = record r { state = RspState.start; token = none }

abbrev pub rsp_continue : (Rsp → List ℕ → RspOutcome) → RspMove → RspOutcome
rsp_continue next (RspMove.go r rest) = next r rest
rsp_continue next (RspMove.wait r) = RspOutcome.again r
rsp_continue next (RspMove.done r rest) = RspOutcome.ok (rsp_finished r) rest
rsp_continue next (RspMove.error s) = RspOutcome.error s

-- The loop over the bytes between `pos` and `last`, on fuel.
unfoldable pub rsp_loop : ℕ → Rsp → List ℕ → RspOutcome
rsp_loop n r [] = RspOutcome.again r
rsp_loop zero r (ch ∷ after) = RspOutcome.starved
rsp_loop (suc n) r (ch ∷ after) = rsp_continue (rsp_loop n) (rsp_step r ch after)

-- Two rounds for each byte.
unfoldable pub rsp_run : Rsp → List ℕ → RspOutcome
rsp_run r bytes = rsp_loop (length bytes + length bytes) r bytes

-- The end of the loop: whether the buffer is full and a token is open.
abbrev pub rsp_check_full : Bool → RspOutcome → RspOutcome
rsp_check_full full (RspOutcome.again r) = elim r.token [
  | none ↦ RspOutcome.again r
  | some held ↦
      if full then RspOutcome.repair (record r { token = none }) held else RspOutcome.again r
]
rsp_check_full full (RspOutcome.ok r rest) = RspOutcome.ok r rest
rsp_check_full full (RspOutcome.repair r rest) = RspOutcome.repair r rest
rsp_check_full full (RspOutcome.error s) = RspOutcome.error s
rsp_check_full full RspOutcome.starved = RspOutcome.starved

unfoldable pub redis_parse_rsp : Bool → Rsp → List ℕ → RspOutcome
redis_parse_rsp full r bytes = rsp_check_full full (rsp_run r bytes)
