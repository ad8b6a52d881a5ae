-- ===== src/Redis/Reply/Line.antt =====
-- Lines of a response, SW_RUNTO_CRLF and SW_ALMOST_DONE of redis_parse_rsp, and the null multi bulk
-- at the end of a full buffer.
use twemproxy.Common.{
  ℕ, ◌≡◌, refl, ◌∙◌, ap, List, [], ◌∷◌, ◌++◌, Bool, true, false, Option, none, some, All, ◌==◌,
}
use mathlib.Core.List.{append_assoc, append-nil}
use twemproxy.Redis.Parse.Steps.{cr, lf}
use twemproxy.Redis.Reply.State.{RspState, Rsp}
use twemproxy.Redis.Reply.Steps.{longer, runto_step, end_step, multibulk_step, rsp_step_in}
use twemproxy.Redis.Reply.Loop.{RspOutcome, rsp_run, rsp_check_full, redis_parse_rsp}
use twemproxy.Redis.Reply.Resume.{rsp_run_nil, rsp_run_round}

-- Bytes without a carriage return.
abbrev pub IsLine : List ℕ → Type 0
IsLine bytes = All (λ b. (b == cr) ≡ false) bytes

abbrev pub longer_by : Option (List ℕ) → List ℕ → Option (List ℕ)
longer_by t [] = t
longer_by t (b ∷ bytes) = longer_by (longer t b) bytes

longer_by_lem : (held bytes : List ℕ) → longer_by (some held) bytes ≡ some (held ++ bytes)
longer_by_lem held [] = rw (append-nil held) refl
longer_by_lem held (b ∷ bytes) =
    longer_by_lem (held ++ b ∷ []) bytes ∙ rw (append_assoc held (b ∷ []) bytes) refl

-- A line up to its carriage return.
pub run_line :
    (r : Rsp) (t : Option (List ℕ)) (bytes rest : List ℕ)
    → IsLine bytes
    → rsp_run (record r { state = RspState.runto_crlf; token = t }) (bytes ++ cr ∷ rest)
      ≡ rsp_run
          (record r { state = RspState.almost_done; token = longer (longer_by t bytes) cr })
          rest
unfolding rsp_step_in runto_step
run_line r t [] rest plain = rsp_run_round _ cr rest
run_line r t (b ∷ bytes) rest (other, plain) =
    rsp_run_round (record r { state = RspState.runto_crlf; token = t }) b (bytes ++ cr ∷ rest)
    ∙ rw other (run_line r (longer t b) bytes rest plain)

-- The line feed at the end of a response.
pub run_end :
    (r : Rsp) (t : Option (List ℕ)) (rest : List ℕ)
    → rsp_run (record r { state = RspState.almost_done; token = t }) (lf ∷ rest)
      ≡ RspOutcome.ok (record r { state = RspState.start; token = none }) rest
unfolding rsp_step_in end_step
run_end r t rest = rsp_run_round (record r { state = RspState.almost_done; token = t }) lf rest

pub run_whole_line :
    (r : Rsp) (t : Option (List ℕ)) (bytes rest : List ℕ)
    → IsLine bytes
    → rsp_run (record r { state = RspState.runto_crlf; token = t }) (bytes ++ cr ∷ lf ∷ rest)
      ≡ RspOutcome.ok (record r { state = RspState.start; token = none }) rest
run_whole_line r t bytes rest plain = run_line r t bytes (lf ∷ rest) plain ∙ run_end r _ rest

-- The sign of a null multi bulk.
run_null :
    (r : Rsp) (rest : List ℕ)
    → rsp_run (record r { state = RspState.multibulk; token = none }) (b'*' ∷ b'-' ∷ rest)
      ≡ rsp_run
          (record r { state = RspState.runto_crlf; token = some (b'*' ∷ b'-' ∷ []); rnarg = 0 })
          rest
unfolding rsp_step_in multibulk_step
run_null r rest =
    rsp_run_round (record r { state = RspState.multibulk; token = none }) b'*' (b'-' ∷ rest)
    ∙ rsp_run_round (record r { state = RspState.multibulk; token = some (b'*' ∷ []); rnarg = 0 })
        b'-' rest

-- The null multi bulk that a parser is about to read.
abbrev pub null_line : List ℕ → List ℕ
null_line bytes = b'*' ∷ b'-' ∷ bytes ++ cr ∷ []

-- A null multi bulk, which may stand at the end of another, does not survive a full buffer. Read at
-- once, `*-` and a line are taken and the response is done; where the buffer ends behind the carriage
-- return, the parser asks for a repair, as the token is still open, but then to read the bytes again
-- from a new buffer, and what follows, ends in an error.
pub null-repair :
    (full : Bool) (r : Rsp) (bytes rest : List ℕ)
    → IsLine bytes
    → (redis_parse_rsp full
          (record r { state = RspState.multibulk; token = none })
          (null_line bytes ++ lf ∷ rest)
        ≡ RspOutcome.ok (record r { state = RspState.start; token = none; rnarg = 0 }) rest)
      × (redis_parse_rsp true
            (record r { state = RspState.multibulk; token = none })
            (null_line bytes)
          ≡ RspOutcome.repair
              (record r { state = RspState.almost_done; token = none; rnarg = 0 })
              (null_line bytes))
      × (redis_parse_rsp full
            (record r { state = RspState.almost_done; token = none; rnarg = 0 })
            (null_line bytes ++ lf ∷ rest)
          ≡ RspOutcome.error RspState.almost_done)
unfolding redis_parse_rsp rsp_step_in end_step
null-repair full r bytes rest plain = (
  ap (rsp_check_full full) (
      ap (rsp_run (record r { state = RspState.multibulk; token = none }))
        (ap (λ x. b'*' ∷ b'-' ∷ x) (append_assoc bytes (cr ∷ []) (lf ∷ rest)))
      ∙ run_null r (bytes ++ cr ∷ lf ∷ rest)
      ∙ run_whole_line (record r { rnarg = 0 }) _ bytes rest plain),
  ap (rsp_check_full true) (
        run_null r (bytes ++ cr ∷ [])
        ∙ run_line (record r { rnarg = 0 }) _ bytes [] plain
        ∙ rsp_run_nil _)
      ∙ rw (longer_by_lem (b'*' ∷ b'-' ∷ []) bytes) refl,
  ap (rsp_check_full full) (
      rsp_run_round (record r { state = RspState.almost_done; token = none; rnarg = 0 }) b'*'
        (b'-' ∷ bytes ++ cr ∷ [] ++ lf ∷ rest)),
)
