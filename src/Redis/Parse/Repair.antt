-- ===== src/Redis/Parse/Repair.antt =====
-- redis_parse_req where a token is open at the end of a full buffer: its bytes are moved to a new
-- buffer by msg_repair of src/nc_message.c and read again, with what comes behind them.
use twemproxy.Common.{
  ℕ, ◌≤◌, ◌<◌, ◌≡◌, refl, sym, ◌∙◌, ap, arith, List, [], ◌∷◌, ◌++◌, Bool, true, Option, none, some,
  length, leb,
}
use mathlib.Core.List.{append_assoc, append-nil}
use twemproxy.Redis.Parse.State.{State, Req, Setup, Move}
use twemproxy.Redis.Parse.Steps.{add_digit, narg_step, len_step, token_step, step_in}
use twemproxy.Redis.Parse.Token.{number, IsDigits, IsNumber, Holds, TokenIs, IsOpen}
use twemproxy.Redis.Parse.Loop.{Outcome, loop, run}
use twemproxy.Redis.Parse.Resume.{resume, run-append}

-- The states whose token is read again from its first byte on: all but that of the number of keys.
abbrev pub Rereads : State → Type 0
Rereads State.arg2 = ⊥
Rereads _ = Unit

-- The digits behind the sign.
loop_narg :
    (setup : Setup) (r : Req) (held ds : List ℕ) (n : ℕ)
    → IsDigits ds
    → loop setup (length ds) (record r { state = State.narg; token = some held; rnarg = n }) ds
      ≡ Outcome.again
          (record r { state = State.narg; token = some (held ++ ds); rnarg = number n ds })
unfolding loop narg_step step_in
loop_narg setup r held [] n ok_ = rw (append-nil held) refl
loop_narg setup r held (d ∷ ds) n (is_d, ok_) = rw is_d (
    loop_narg setup r (held ++ d ∷ []) ds (add_digit n d) ok_
    ∙ rw (append_assoc held (d ∷ []) ds) refl)

loop_len :
    (setup : Setup) (s next : State) (accepts : Req → List ℕ → Bool) (r : Req) (held ds : List ℕ)
    (n : ℕ)
    → step_in setup s ≡ len_step accepts next
    → IsDigits ds
    → loop setup (length ds) (record r { state = s; token = some held; rlen = n }) ds
      ≡ Outcome.again (record r { state = s; token = some (held ++ ds); rlen = number n ds })
unfolding loop len_step
loop_len setup s next accepts r held [] n is_len ok_ = rw (append-nil held) refl
loop_len setup s next accepts r held (d ∷ ds) n is_len (is_d, ok_) =
    rw (is_len, is_d)
      (loop_len setup s next accepts r (held ++ d ∷ []) ds (add_digit n d) is_len ok_
        ∙ rw (append_assoc held (d ∷ []) ds) refl)

-- A number from its sign on.
pub run_len_sign :
    (setup : Setup) (s next : State) (accepts : Req → List ℕ → Bool) (r : Req) (ds : List ℕ)
    → step_in setup s ≡ len_step accepts next
    → IsDigits ds
    → run setup (record r { state = s; token = none }) (b'$' ∷ ds)
      ≡ Outcome.again (record r { state = s; token = some (b'$' ∷ ds); rlen = number 0 ds })
unfolding run loop len_step
run_len_sign setup s next accepts r ds is_len ok_ =
    rw is_len (loop_len setup s next accepts r (b'$' ∷ []) ds 0 is_len ok_)

run_len :
    (setup : Setup) (s next : State) (accepts : Req → List ℕ → Bool) (r : Req) (held : List ℕ)
    → step_in setup s ≡ len_step accepts next
    → IsNumber b'$' held r.rlen
    → run setup (record r { state = s; token = none }) held
      ≡ Outcome.again (record r { state = s; token = some held })
run_len setup s next accepts r held is_len (ds, shape, ok_, value) = rw shape (
    run_len_sign setup s next accepts r ds is_len ok_
    ∙ ap (λ n. Outcome.again (record r { state = s; token = some (b'$' ∷ ds); rlen = n }))
        (sym value))

pub run_narg_sign :
    (setup : Setup) (r : Req) (s : State) (ds : List ℕ)
    → step_in setup s ≡ narg_step
    → IsDigits ds
    → run setup (record r { state = s; token = none }) (b'*' ∷ ds)
      ≡ Outcome.again
          (record r { state = State.narg; token = some (b'*' ∷ ds); rnarg = number 0 ds })
unfolding run loop narg_step
run_narg_sign setup r s ds is_narg ok_ = rw is_narg (loop_narg setup r (b'*' ∷ []) ds 0 ok_)

run_narg :
    (setup : Setup) (r : Req) (held : List ℕ)
    → IsNumber b'*' held r.rnarg
    → run setup (record r { state = State.narg; token = none }) held
      ≡ Outcome.again (record r { state = State.narg; token = some held })
unfolding step_in
run_narg setup r held (ds, shape, ok_, value) = rw shape (
    run_narg_sign setup r State.narg ds refl ok_
    ∙ ap (λ n. Outcome.again (record r { state = State.narg; token = some (b'*' ∷ ds); rnarg = n }))
        (sym value))

run_token :
    (setup : Setup) (s : State) (found : Req → List ℕ → List ℕ → Move) (r : Req) (held : List ℕ)
    → step_in setup s ≡ token_step found
    → (0 < length held) × (length held ≤ r.rlen)
    → run setup (record r { state = s; token = none }) held
      ≡ Outcome.again (record r { state = s; token = some held })
unfolding run loop token_step
run_token setup s found r [] is_token (some_, short) = absurd (omega arith)
run_token setup s found r (ch ∷ after) is_token (some_, short) =
    let waits : leb (length (ch ∷ after)) r.rlen ≡ true = ground (arith, short) in
    rw is_token (rw waits refl)

reread :
    (setup : Setup) (s : State) (r : Req) (held : List ℕ)
    → Rereads s
    → Holds s r.type r.rnarg r.rlen held
    → run setup (record r { state = s; token = none }) held
      ≡ Outcome.again (record r { state = s; token = some held })
unfolding step_in
reread setup State.narg r held re h = run_narg setup r held h
reread setup State.req_type_len r held re h = run_len setup _ _ _ r held refl h
reread setup State.key_len r held re h = run_len setup _ _ _ r held refl h
reread setup State.arg1_len r held re h = run_len setup _ _ _ r held refl h
reread setup State.arg2_len r held re h = run_len setup _ _ _ r held refl h
reread setup State.arg3_len r held re h = run_len setup _ _ _ r held refl h
reread setup State.argn_len r held re h = run_len setup _ _ _ r held refl h
reread setup State.req_type r held re h = run_token setup _ _ r held refl h
reread setup State.key r held re h = run_token setup _ _ r held refl h
reread setup State.start r held re h = absurd h
reread setup State.narg_lf r held re h = absurd h
reread setup State.req_type_len_lf r held re h = absurd h
reread setup State.req_type_lf r held re h = absurd h
reread setup State.key_len_lf r held re h = absurd h
reread setup State.key_lf r held re h = absurd h
reread setup State.arg1_len_lf r held re h = absurd h
reread setup State.arg1 r held re h = absurd h
reread setup State.arg1_lf r held re h = absurd h
reread setup State.arg2_len_lf r held re h = absurd h
reread setup State.arg2_lf r held re h = absurd h
reread setup State.arg3_len_lf r held re h = absurd h
reread setup State.arg3 r held re h = absurd h
reread setup State.arg3_lf r held re h = absurd h
reread setup State.argn_len_lf r held re h = absurd h
reread setup State.argn r held re h = absurd h
reread setup State.argn_lf r held re h = absurd h
reread setup State.arg2 r held re h = absurd re

-- To read an open token again loses nothing: if a token `held` is open, in any state but that of the second argument
-- (where EVAL keeps its number of keys), then to read its bytes again without the token, and more
-- behind them, comes to the same as to go on with those that are more.
pub run-repair :
    (setup : Setup) (r : Req) (held more : List ℕ)
    → Rereads r.state
    → r.token ≡ some held
    → IsOpen r
    → run setup (record r { token = none }) (held ++ more) ≡ run setup r more
unfolding resume
run-repair setup r held more re has open_ =
    run-append setup (record r { token = none }) held more tt
    ∙ ap (resume setup more) (reread setup r.state r held re (by_token r.token has open_))
    ∙ ap (λ t. run setup (record r { token = t }) more) (sym has)
  where
    by_token :
        (t : Option (List ℕ))
        → t ≡ some held
        → TokenIs t r.state r.type r.rnarg r.rlen
        → Holds r.state r.type r.rnarg r.rlen held
    by_token t eq h = rw eq at h
