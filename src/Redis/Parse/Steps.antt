-- ===== src/Redis/Parse/Steps.antt =====
-- One round of the loop of redis_parse_req: the case of the state, at the byte `ch` with `after`
-- behind it in the buffer.
use twemproxy.Common.{
  ℕ, suc, ◌+◌, ◌-◌, ◌*◌, ◌%◌, List, [], ◌∷◌, ◌++◌, Bool, true, false, not, ◌&&◌, ◌||◌, Option, none,
  some, ◌==◌, ltb, leb, if◌then◌else◌, length, get_or, take, drop, u32,
}
use twemproxy.Message.{MsgType}
use twemproxy.Redis.Tables.{
  redis_argz, redis_arg0, redis_arg1, redis_arg2, redis_arg3, redis_argn, redis_argx, redis_argkvx,
  redis_argeval,
}
use twemproxy.Redis.Commands.{command_type, sets_noforward, sets_quit}
use twemproxy.Redis.Parse.State.{State, Req, Setup, Move, Verdict}

abbrev pub cr : ℕ
cr = b'\r'

abbrev pub lf : ℕ
lf = b'\n'

abbrev pub is_digit : ℕ → Bool
is_digit ch = leb b'0' ch && leb ch b'9'

-- `n * 10 + (uint32_t)(ch - '0')`.
abbrev pub add_digit : ℕ → ℕ → ℕ
add_digit n ch = u32 (n * 10 + (ch - b'0'))

abbrev pub is_unknown : MsgType → Bool
is_unknown MsgType.unknown = true
is_unknown _ = false

-- SW_START and SW_NARG.
unfoldable pub narg_step : Req → ℕ → List ℕ → Move
narg_step r ch after = elim r.token [
  | none ↦
      if ch == b'*'
      then Move.go (record r { token = some (ch ∷ []); rnarg = 0; state = State.narg }) after
      else Move.error r.state
  | some held ↦
      if is_digit ch
      then Move.go (record r { token = some (held ++ ch ∷ []); rnarg = add_digit r.rnarg ch }) after
      else (if ch == cr
          then (if r.rnarg == 0
              then Move.error r.state
              else Move.go (record r { narg = r.rnarg; token = none; state = State.narg_lf }) after)
          else Move.error r.state)
]

-- The states of a length. `accepts` is the test at its end, of the bytes of the token too.
unfoldable pub len_step : (Req → List ℕ → Bool) → State → Req → ℕ → List ℕ → Move
len_step accepts next r ch after = elim r.token [
  | none ↦
      if ch == b'$'
      then Move.go (record r { token = some (ch ∷ []); rlen = 0 }) after
      else Move.error r.state
  | some held ↦
      if is_digit ch
      then Move.go (record r { token = some (held ++ ch ∷ []); rlen = add_digit r.rlen ch }) after
      else (if ch == cr
          then (if accepts r held
              then Move.go (record r { rnarg = r.rnarg - 1; token = none; state = next }) after
              else Move.error r.state)
          else Move.error r.state)
]

-- The three tests at the end of a length.
abbrev pub type_len_accepts : Req → List ℕ → Bool
type_len_accepts r held = not (r.rlen == 0 || r.rnarg == 0)

abbrev pub key_len_accepts : Setup → Req → List ℕ → Bool
key_len_accepts setup r held = not (leb setup.mbuf_data_size r.rlen) && not (r.rnarg == 0)

abbrev pub arg_len_accepts : Req → List ℕ → Bool
arg_len_accepts r held = not (leb (length held) 1 || r.rnarg == 0)

-- The states of a line feed.
unfoldable pub lf_step : (Req → Verdict) → Req → ℕ → List ℕ → Move
lf_step verdict r ch after =
    if ch == lf
    then (elim (verdict r) [
      | Verdict.reject ↦ Move.error r.state
      | Verdict.finish ↦ Move.done r after
      | Verdict.enter s ↦ Move.go (record r { state = s }) after
    ])
    else Move.error r.state

-- The name of the command, with its type.
abbrev pub found_type : Req → List ℕ → List ℕ → Move
found_type r name rest =
    let t = command_type name in
    let r' = record r {
      rlen = 0;
      token = none;
      type = t;
      noforward = r.noforward || sets_noforward t;
      quit = r.quit || sets_quit t;
    } in
    if is_unknown t
    then Move.error r.state
    else Move.go (record r' { state = State.req_type_lf }) rest

abbrev pub found_key : Setup → Req → List ℕ → List ℕ → Move
found_key setup r key rest =
    let r' = record r { rlen = 0; token = none } in
    if setup.allocates r.keys
    then Move.go (record r' { keys = r.keys ++ key ∷ []; state = State.key_lf }) rest
    else Move.enomem r.state

abbrev pub held_bytes : Option (List ℕ) → List ℕ
held_bytes none = []
held_bytes (some held) = held

-- SW_REQ_TYPE and SW_KEY: `rlen` bytes from the token on, then a carriage return.
unfoldable pub token_step : (Req → List ℕ → List ℕ → Move) → Req → ℕ → List ℕ → Move
token_step found r ch after =
    let bytes = held_bytes r.token ++ ch ∷ after in
    if leb (length bytes) r.rlen
    then Move.wait (record r { token = some bytes })
    else (if get_or bytes r.rlen 0 == cr
        then found r (take r.rlen bytes) (drop (suc r.rlen) bytes)
        else Move.error r.state)

-- The states of an argument that is skipped: `rlen` more bytes, then a carriage return.
unfoldable pub body_step : State → Req → ℕ → List ℕ → Move
body_step next r ch after =
    let bytes = ch ∷ after in
    if leb (length bytes) r.rlen
    then Move.wait (record r { rlen = r.rlen - length bytes })
    else (if get_or bytes r.rlen 0 == cr
        then Move.go (record r { rlen = 0; state = next }) (drop (suc r.rlen) bytes)
        else Move.error r.state)

-- The number of keys of EVAL, or nothing at a byte that is no digit.
unfoldable pub count_keys : ℕ → List ℕ → Option ℕ
count_keys n [] = some n
count_keys n (ch ∷ bytes) =
    let more = count_keys (add_digit n ch) bytes in if is_digit ch then more else none

abbrev pub has_keys : List ℕ → Bool
has_keys [] = false
has_keys (ch ∷ bytes) = elim (count_keys 0 (ch ∷ bytes)) [ none ↦ false | some n ↦ not (n == 0) ]

-- SW_ARG2 for EVAL: the bytes are kept as a token besides.
unfoldable pub eval_step : Req → ℕ → List ℕ → Move
eval_step r ch after =
    let bytes = ch ∷ after in
    let held = held_bytes r.token in
    if leb (length bytes) r.rlen
    then Move.wait (record r { token = some (held ++ bytes); rlen = r.rlen - length bytes })
    else (if get_or bytes r.rlen 0 == cr
        then (if has_keys (held ++ take r.rlen bytes)
            then Move.go (record r { rlen = 0; token = none; state = State.arg2_lf })
                (drop (suc r.rlen) bytes)
            else Move.error r.state)
        else Move.error r.state)

abbrev pub arg2_step : Req → ℕ → List ℕ → Move
arg2_step r ch after =
    if redis_argeval r.type then eval_step r ch after else body_step State.arg2_lf r ch after

-- The tests behind the line feeds. `expect n s`: exactly `n` arguments are left.
abbrev pub expect : ℕ → Req → Verdict → Verdict
expect n r v = if r.rnarg == n then v else Verdict.reject

abbrev pub unless_last : Req → State → Verdict
unless_last r s = if r.rnarg == 0 then Verdict.finish else Verdict.enter s

unfoldable pub after_type : Req → Verdict
after_type r =
    if redis_argz r.type
    then Verdict.finish
    else (if r.narg == 1
        then Verdict.reject
        else (if redis_argeval r.type
            then Verdict.enter State.arg1_len
            else Verdict.enter State.key_len))

unfoldable pub after_key : Req → Verdict
after_key r =
    if redis_arg0 r.type
    then expect 0 r Verdict.finish
    else (if redis_arg1 r.type
        then expect 1 r (Verdict.enter State.arg1_len)
        else (if redis_arg2 r.type
            then expect 2 r (Verdict.enter State.arg1_len)
            else (if redis_arg3 r.type
                then expect 3 r (Verdict.enter State.arg1_len)
                else (if redis_argn r.type
                    then unless_last r State.arg1_len
                    else (if redis_argx r.type
                        then unless_last r State.key_len
                        else (if redis_argkvx r.type
                            then (if r.narg % 2 == 0
                                then Verdict.reject
                                else Verdict.enter State.arg1_len)
                            else (if redis_argeval r.type
                                then unless_last r State.argn_len
                                else Verdict.reject)))))))

unfoldable pub after_arg1 : Req → Verdict
after_arg1 r =
    if redis_arg1 r.type
    then expect 0 r Verdict.finish
    else (if redis_arg2 r.type
        then expect 1 r (Verdict.enter State.arg2_len)
        else (if redis_arg3 r.type
            then expect 2 r (Verdict.enter State.arg2_len)
            else (if redis_argn r.type
                then unless_last r State.argn_len
                else (if redis_argeval r.type
                    then (if ltb r.rnarg 2 then Verdict.reject else Verdict.enter State.arg2_len)
                    else (if redis_argkvx r.type
                        then unless_last r State.key_len
                        else Verdict.reject)))))

unfoldable pub after_arg2 : Req → Verdict
after_arg2 r =
    if redis_arg2 r.type
    then expect 0 r Verdict.finish
    else (if redis_arg3 r.type
        then expect 1 r (Verdict.enter State.arg3_len)
        else (if redis_argn r.type
            then unless_last r State.argn_len
            else (if redis_argeval r.type
                then (if ltb r.rnarg 1 then Verdict.reject else Verdict.enter State.key_len)
                else Verdict.reject)))

unfoldable pub after_arg3 : Req → Verdict
after_arg3 r =
    if redis_arg3 r.type
    then expect 0 r Verdict.finish
    else (if redis_argn r.type then unless_last r State.argn_len else Verdict.reject)

unfoldable pub after_argn : Req → Verdict
after_argn r =
    if redis_argn r.type || redis_argeval r.type
    then unless_last r State.argn_len
    else Verdict.reject

abbrev pub to : State → Req → Verdict
to s r = Verdict.enter s

-- The switch over the state.
unfoldable pub step_in : Setup → State → Req → ℕ → List ℕ → Move
step_in setup State.start = narg_step
step_in setup State.narg = narg_step
step_in setup State.narg_lf = lf_step (to State.req_type_len)
step_in setup State.req_type_len = len_step type_len_accepts State.req_type_len_lf
step_in setup State.req_type_len_lf = lf_step (to State.req_type)
step_in setup State.req_type = token_step found_type
step_in setup State.req_type_lf = lf_step after_type
step_in setup State.key_len = len_step (key_len_accepts setup) State.key_len_lf
step_in setup State.key_len_lf = lf_step (to State.key)
step_in setup State.key = token_step (found_key setup)
step_in setup State.key_lf = lf_step after_key
step_in setup State.arg1_len = len_step arg_len_accepts State.arg1_len_lf
step_in setup State.arg1_len_lf = lf_step (to State.arg1)
step_in setup State.arg1 = body_step State.arg1_lf
step_in setup State.arg1_lf = lf_step after_arg1
step_in setup State.arg2_len = len_step arg_len_accepts State.arg2_len_lf
step_in setup State.arg2_len_lf = lf_step (to State.arg2)
step_in setup State.arg2 = arg2_step
step_in setup State.arg2_lf = lf_step after_arg2
step_in setup State.arg3_len = len_step arg_len_accepts State.arg3_len_lf
step_in setup State.arg3_len_lf = lf_step (to State.arg3)
step_in setup State.arg3 = body_step State.arg3_lf
step_in setup State.arg3_lf = lf_step after_arg3
step_in setup State.argn_len = len_step arg_len_accepts State.argn_len_lf
step_in setup State.argn_len_lf = lf_step (to State.argn)
step_in setup State.argn = body_step State.argn_lf
step_in setup State.argn_lf = lf_step after_argn

abbrev pub step : Setup → Req → ℕ → List ℕ → Move
step setup r = step_in setup r.state r
