-- ===== src/Redis/Reply/Steps.antt =====
-- One round of the loop of redis_parse_rsp: the case of the state, at the byte `ch` with `after`
-- behind it in the buffer.
use twemproxy.Common.{
  ℕ, suc, ◌-◌, List, [], ◌∷◌, ◌++◌, Bool, true, false, ◌&&◌, ◌||◌, Option, none, some, ◌==◌, leb,
  if◌then◌else◌, length, get_or, drop,
}
use twemproxy.Message.{MsgType}
use twemproxy.Redis.Parse.Steps.{cr, lf, is_digit, add_digit}
use twemproxy.Redis.Reply.State.{RspState, Rsp, RspMove}

-- The words of error replies, by the order of the tests.
abbrev pub error_words : List (List ℕ × MsgType)
error_words =
    (b'-' ∷ b'E' ∷ b'R' ∷ b'R' ∷ [], MsgType.rsp_redis_error_err)
    ∷ (b'-' ∷ b'O' ∷ b'O' ∷ b'M' ∷ [], MsgType.rsp_redis_error_oom)
    ∷ (b'-' ∷ b'B' ∷ b'U' ∷ b'S' ∷ b'Y' ∷ [], MsgType.rsp_redis_error_busy)
    ∷ (b'-' ∷ b'N' ∷ b'O' ∷ b'A' ∷ b'U' ∷ b'T' ∷ b'H' ∷ [], MsgType.rsp_redis_error_noauth)
    ∷ (b'-' ∷ b'L' ∷ b'O' ∷ b'A' ∷ b'D' ∷ b'I' ∷ b'N' ∷ b'G' ∷ [], MsgType.rsp_redis_error_loading)
    ∷ (b'-' ∷ b'B' ∷ b'U' ∷ b'S' ∷ b'Y' ∷ b'K' ∷ b'E' ∷ b'Y' ∷ [], MsgType.rsp_redis_error_busykey)
    ∷ (b'-' ∷ b'M' ∷ b'I' ∷ b'S' ∷ b'C' ∷ b'O' ∷ b'N' ∷ b'F' ∷ [], MsgType.rsp_redis_error_misconf)
    ∷ (
      b'-' ∷ b'N' ∷ b'O' ∷ b'S' ∷ b'C' ∷ b'R' ∷ b'I' ∷ b'P' ∷ b'T' ∷ [],
      MsgType.rsp_redis_error_noscript,
    )
    ∷ (
      b'-' ∷ b'R' ∷ b'E' ∷ b'A' ∷ b'D' ∷ b'O' ∷ b'N' ∷ b'L' ∷ b'Y' ∷ [],
      MsgType.rsp_redis_error_readonly,
    )
    ∷ (
      b'-' ∷ b'W' ∷ b'R' ∷ b'O' ∷ b'N' ∷ b'G' ∷ b'T' ∷ b'Y' ∷ b'P' ∷ b'E' ∷ [],
      MsgType.rsp_redis_error_wrongtype,
    )
    ∷ (
      b'-' ∷ b'E' ∷ b'X' ∷ b'E' ∷ b'C' ∷ b'A' ∷ b'B' ∷ b'O' ∷ b'R' ∷ b'T' ∷ [],
      MsgType.rsp_redis_error_execabort,
    )
    ∷ (
      b'-' ∷ b'M' ∷ b'A' ∷ b'S' ∷ b'T' ∷ b'E' ∷ b'R' ∷ b'D' ∷ b'O' ∷ b'W' ∷ b'N' ∷ [],
      MsgType.rsp_redis_error_masterdown,
    )
    ∷ (
      b'-' ∷ b'N' ∷ b'O' ∷ b'R' ∷ b'E' ∷ b'P' ∷ b'L' ∷ b'I' ∷ b'C' ∷ b'A' ∷ b'S' ∷ [],
      MsgType.rsp_redis_error_noreplicas,
    )
    ∷ []

-- str4cmp to str11cmp, behind the test of the length.
unfoldable pub same_word : List ℕ → List ℕ → Bool
same_word [] [] = true
same_word [] (c ∷ word) = false
same_word (b ∷ bytes) [] = false
same_word (b ∷ bytes) (c ∷ word) = b == c && same_word bytes word

unfoldable pub error_type : MsgType → List (List ℕ × MsgType) → List ℕ → MsgType
error_type t [] bytes = t
error_type t (w ∷ words) bytes =
    let later = error_type t words bytes in if same_word bytes (w.0) then w.1 else later

-- One byte more between the token and `p`.
abbrev pub longer : Option (List ℕ) → ℕ → Option (List ℕ)
longer none ch = none
longer (some held) ch = some (held ++ ch ∷ [])

-- SW_START; `p` goes back by one byte.
unfoldable pub start_step : Rsp → ℕ → List ℕ → RspMove
start_step r ch after =
    let back =
      λ (s : RspState) (t : MsgType). RspMove.go (record r { state = s; type = t }) (ch ∷ after) in
    if ch == b'+'
    then back RspState.status MsgType.rsp_redis_status
    else (if ch == b'-'
        then back RspState.error MsgType.rsp_redis_error
        else (if ch == b':'
            then back RspState.integer MsgType.rsp_redis_integer
            else (if ch == b'$'
                then back RspState.bulk MsgType.rsp_redis_bulk
                else (if ch == b'*'
                    then back RspState.multibulk MsgType.rsp_redis_multibulk
                    else RspMove.error RspState.start))))

unfoldable pub error_step : Rsp → ℕ → List ℕ → RspMove
error_step r ch after = elim r.token [
  | none ↦
      if ch == b'-'
      then RspMove.go (record r { token = some (ch ∷ []) }) after
      else RspMove.error RspState.error
  | some held ↦
      if ch == b' ' || ch == cr
      then RspMove.go
          (record r {
            token = none;
            type = error_type r.type error_words held;
            state = RspState.runto_crlf;
          })
          after
      else RspMove.go (record r { token = some (held ++ ch ∷ []) }) after
]

unfoldable pub integer_step : Rsp → ℕ → List ℕ → RspMove
integer_step r ch after =
    if ch == cr
    then RspMove.go (record r { state = RspState.almost_done }) after
    else (if ch == b'-'
        then RspMove.go r after
        else (if is_digit ch
            then RspMove.go (record r { integer = add_digit r.integer ch }) after
            else RspMove.error RspState.integer_start))

unfoldable pub simple_step : Rsp → ℕ → List ℕ → RspMove
simple_step r ch after =
    if ch == cr
    then RspMove.go (record r { state = RspState.multibulk_argn_lf; rnarg = r.rnarg - 1 }) after
    else RspMove.go r after

unfoldable pub runto_step : Rsp → ℕ → List ℕ → RspMove
runto_step r ch after =
    if ch == cr
    then RspMove.go (record r { state = RspState.almost_done; token = longer r.token ch }) after
    else RspMove.go (record r { token = longer r.token ch }) after

-- SW_ALMOST_DONE and SW_BULK_ARG_LF.
unfoldable pub end_step : Rsp → ℕ → List ℕ → RspMove
end_step r ch after = if ch == lf then RspMove.done r after else RspMove.error r.state

unfoldable pub bulk_step : Rsp → ℕ → List ℕ → RspMove
bulk_step r ch after = elim r.token [
  | none ↦
      if ch == b'$'
      then RspMove.go (record r { token = some (ch ∷ []); rlen = 0 }) after
      else RspMove.error r.state
  | some held ↦
      if ch == b'-'
      then RspMove.go (record r { token = some (held ++ ch ∷ []); state = RspState.runto_crlf })
          after
      else (if is_digit ch
          then RspMove.go (record r { token = some (held ++ ch ∷ []); rlen = add_digit r.rlen ch })
              after
          else (if ch == cr
              then (if leb (length held) 1
                  then RspMove.error r.state
                  else RspMove.go (record r { token = none; state = RspState.bulk_lf }) after)
              else RspMove.error r.state))
]

-- SW_BULK_LF and SW_MULTIBULK_ARGN_LEN_LF.
unfoldable pub enter_step : RspState → Rsp → ℕ → List ℕ → RspMove
enter_step next r ch after =
    if ch == lf then RspMove.go (record r { state = next }) after else RspMove.error r.state

-- SW_BULK_ARG and SW_MULTIBULK_ARGN.
unfoldable pub skip_step : RspState → Rsp → ℕ → List ℕ → RspMove
skip_step next r ch after =
    let bytes = ch ∷ after in
    if leb (length bytes) r.rlen
    then RspMove.wait (record r { rlen = r.rlen - length bytes })
    else (if get_or bytes r.rlen 0 == cr
        then RspMove.go (record r { rlen = 0; state = next }) (drop (suc r.rlen) bytes)
        else RspMove.error r.state)

unfoldable pub multibulk_step : Rsp → ℕ → List ℕ → RspMove
multibulk_step r ch after = elim r.token [
  | none ↦
      if ch == b'*'
      then RspMove.go (record r { token = some (ch ∷ []); rnarg = 0 }) after
      else RspMove.error r.state
  | some held ↦
      if ch == b'-'
      then RspMove.go (record r { token = some (held ++ ch ∷ []); state = RspState.runto_crlf })
          after
      else (if is_digit ch
          then RspMove.go
              (record r { token = some (held ++ ch ∷ []); rnarg = add_digit r.rnarg ch }) after
          else (if ch == cr
              then (if leb (length held) 1
                  then RspMove.error r.state
                  else RspMove.go
                      (record r {
                        narg = r.rnarg;
                        token = none;
                        state = RspState.multibulk_narg_lf;
                      })
                      after)
              else RspMove.error r.state))
]

-- SW_MULTIBULK_NARG_LF and SW_MULTIBULK_ARGN_LF.
unfoldable pub next_step : Rsp → ℕ → List ℕ → RspMove
next_step r ch after =
    if ch == lf
    then (if r.rnarg == 0
        then RspMove.done r after
        else RspMove.go (record r { state = RspState.multibulk_argn_len }) after)
    else RspMove.error r.state

-- The end of the length of an element: `$-1` is told by its number and its bytes.
unfoldable pub element_len : Rsp → List ℕ → List ℕ → RspMove
element_len r held after =
    let r' = record r { rnarg = r.rnarg - 1; token = none } in
    if leb (length held) 1 || r.rnarg == 0
    then RspMove.error r.state
    else (if r.rlen == 1 && length held == 3
        then RspMove.go (record r' { rlen = 0; state = RspState.multibulk_argn_lf }) after
        else RspMove.go (record r' { state = RspState.multibulk_argn_len_lf }) after)

-- SW_MULTIBULK_ARGN_LEN; at a nested multi bulk `p` goes back by one byte.
unfoldable pub element_step : Rsp → ℕ → List ℕ → RspMove
element_step r ch after = elim r.token [
  | none ↦
      if ch == b'*'
      then RspMove.go (record r { state = RspState.multibulk }) (ch ∷ after)
      else (if ch == b':' || ch == b'+' || ch == b'-'
          then RspMove.go (record r { state = RspState.simple }) after
          else (if ch == b'$'
              then RspMove.go (record r { token = some (ch ∷ []); rlen = 0 }) after
              else RspMove.error r.state))
  | some held ↦
      if is_digit ch
      then RspMove.go (record r { token = some (held ++ ch ∷ []); rlen = add_digit r.rlen ch })
          after
      else (if ch == b'-'
          then RspMove.go (record r { token = some (held ++ ch ∷ []) }) after
          else (if ch == cr then element_len r held after else RspMove.error r.state))
]

-- The switch over the state.
unfoldable pub rsp_step_in : RspState → Rsp → ℕ → List ℕ → RspMove
rsp_step_in RspState.start r ch after = start_step r ch after
rsp_step_in RspState.status r ch after = RspMove.go (record r { state = RspState.runto_crlf }) after
rsp_step_in RspState.error r ch after = error_step r ch after
rsp_step_in RspState.integer r ch after =
    RspMove.go (record r { state = RspState.integer_start; integer = 0 }) after
rsp_step_in RspState.integer_start r ch after = integer_step r ch after
rsp_step_in RspState.simple r ch after = simple_step r ch after
rsp_step_in RspState.runto_crlf r ch after = runto_step r ch after
rsp_step_in RspState.almost_done r ch after = end_step r ch after
rsp_step_in RspState.bulk r ch after = bulk_step r ch after
rsp_step_in RspState.bulk_lf r ch after = enter_step RspState.bulk_arg r ch after
rsp_step_in RspState.bulk_arg r ch after = skip_step RspState.bulk_arg_lf r ch after
rsp_step_in RspState.bulk_arg_lf r ch after = end_step r ch after
rsp_step_in RspState.multibulk r ch after = multibulk_step r ch after
rsp_step_in RspState.multibulk_narg_lf r ch after = next_step r ch after
rsp_step_in RspState.multibulk_argn_len r ch after = element_step r ch after
rsp_step_in RspState.multibulk_argn_len_lf r ch after =
    enter_step RspState.multibulk_argn r ch after
rsp_step_in RspState.multibulk_argn r ch after = skip_step RspState.multibulk_argn_lf r ch after
rsp_step_in RspState.multibulk_argn_lf r ch after = next_step r ch after

abbrev pub rsp_step : Rsp → ℕ → List ℕ → RspMove
rsp_step r = rsp_step_in r.state r
