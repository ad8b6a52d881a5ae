-- ===== src/Redis/Parse/Parts.antt =====
-- A bulk string of a request, read by the states of a key or of an argument.
use twemproxy.Common.{
  ℕ, suc, ◌-◌, ◌^◌, ◌<◌, ◌≡◌, refl, ◌∙◌, ap, arith, List, [], ◌∷◌, ◌++◌, Bool, true, not, ◌||◌,
  none, some, length, leb, ◌==◌,
}
use mathlib.Core.List.{append_assoc}
use twemproxy.Message.{MsgType}
use twemproxy.Redis.Print.{Spells, print_number, print_number_lem, print_bulk}
use twemproxy.Redis.Parse.State.{State, Req, Setup, Verdict}
use twemproxy.Redis.Parse.Steps.{
  cr, lf, len_step, lf_step, step_in, to, arg_len_accepts, key_len_accepts, after_key, after_arg1,
  after_arg2, after_arg3, after_argn,
}
use twemproxy.Redis.Parse.Token.{IsNumber, TokenIs}
use twemproxy.Redis.Parse.Loop.{run}
use twemproxy.Redis.Parse.Bulk.{reads, decide, run_length, run-lf}

print_bulk_append :
    (bytes rest : List ℕ)
    → print_bulk bytes ++ rest
      ≡ b'$' ∷ (print_number (length bytes) ++ cr ∷ lf ∷ (bytes ++ cr ∷ lf ∷ rest))
unfolding print_bulk
print_bulk_append bytes rest =
    rw (append_assoc (print_number (length bytes)) (cr ∷ lf ∷ (bytes ++ cr ∷ lf ∷ [])) rest)
      (rw (append_assoc bytes (cr ∷ lf ∷ []) rest) refl)

-- The states of a part: its length, its bytes and the test behind it.
pub record Stage (setup : Setup) : Type 0 where
  pub at_len : State
  pub at_len_lf : State
  pub at_body : State
  pub at_lf : State
  pub accepts : Req → List ℕ → Bool
  pub verdict : Req → Verdict
  pub is_len : step_in setup at_len ≡ len_step accepts at_len_lf
  pub is_len_lf : step_in setup at_len_lf ≡ lf_step (to at_body)
  pub is_lf : step_in setup at_lf ≡ lf_step verdict
  pub is_number :
      (t : MsgType) (rnarg n : ℕ) (held : List ℕ)
      → IsNumber b'$' held n
      → TokenIs (some held) at_len t rnarg n

module _ {setup : Setup} (stage : Stage setup) where
  -- The length of a part, up to its bytes.
  pub run_part_len :
      (r : Req) (n : ℕ) (bytes rest : List ℕ)
      → length bytes < 2 ^ 32
      → ((ds : List ℕ)
          → Spells ds (length bytes)
          → stage.accepts
              (record r {
                state = stage.at_len;
                token = some (b'$' ∷ ds);
                rlen = length bytes;
                rnarg = suc n;
              })
              (b'$' ∷ ds)
            ≡ true)
      → run setup
          (record r { state = stage.at_len; token = none; rnarg = suc n })
          (print_bulk bytes ++ rest)
        ≡ run setup
            (reads (record r { rnarg = n }) stage.at_body (length bytes))
            (bytes ++ cr ∷ lf ∷ rest)
  unfolding decide
  run_part_len r n bytes rest small accepted =
      let spelled = print_number_lem (length bytes) small in
      let ds = print_number (length bytes) in
      let x = bytes ++ cr ∷ lf ∷ rest in
      let value = spelled.1 in
      ap (run setup (record r { state = stage.at_len; token = none; rnarg = suc n }))
        (print_bulk_append bytes rest)
      ∙ run_length setup stage.at_len stage.at_len_lf stage.accepts (record r { rnarg = suc n }) ds
          (lf ∷ x) stage.is_len (λ held k h. stage.is_number r.type (suc n) k held h) (spelled.0)
          (rw value (accepted ds spelled))
      ∙ ap
          (λ k.
            run setup
              (record r { state = stage.at_len_lf; token = none; rlen = k; rnarg = suc n - 1 })
              (lf ∷ x))
          value
      ∙ ap
          (λ k.
            run setup
              (record r { state = stage.at_len_lf; token = none; rlen = length bytes; rnarg = k })
              (lf ∷ x))
          (omega arith)
      ∙ run-lf setup stage.at_len_lf (to stage.at_body)
          (record r { rlen = length bytes; rnarg = n }) x stage.is_len_lf

  -- An argument that is skipped.
  pub run_arg :
      (r : Req) (n : ℕ) (bytes rest : List ℕ)
      → length bytes < 2 ^ 32
      → ((r' : Req) (held : List ℕ) → stage.accepts r' held ≡ arg_len_accepts r' held)
      → ((x : List ℕ)
          → run setup
              (reads (record r { rnarg = n }) stage.at_body (length bytes))
              (bytes ++ cr ∷ x)
            ≡ run setup (reads (record r { rnarg = n }) stage.at_lf 0) x)
      → run setup
          (record r { state = stage.at_len; token = none; rnarg = suc n })
          (print_bulk bytes ++ rest)
        ≡ decide setup
            (stage.verdict (reads (record r { rnarg = n }) stage.at_lf 0))
            (reads (record r { rnarg = n }) stage.at_lf 0)
            rest
  run_arg r n bytes rest small is_arg body =
      run_part_len r n bytes rest small
        (λ ds spelled. is_arg _ _ ∙ arg_accepted (suc n) ds (omega arith) (spelled.2))
      ∙ body (lf ∷ rest)
      ∙ run-lf setup stage.at_lf stage.verdict (record r { rlen = 0; rnarg = n }) rest stage.is_lf
    where
      arg_accepted :
          (k : ℕ) (ds : List ℕ)
          → 0 < k
          → 0 < length ds
          → not (leb (length (b'$' ∷ ds)) 1 || k == 0) ≡ true
      arg_accepted k ds hk hd = ground (arith, hk, hd)

-- The parts of the parser.
abbrev pub key_stage : (setup : Setup) → Stage setup
unfolding step_in
key_stage setup = record {
  at_len = State.key_len;
  at_len_lf = State.key_len_lf;
  at_body = State.key;
  at_lf = State.key_lf;
  accepts = key_len_accepts setup;
  verdict = after_key;
  is_len = refl;
  is_len_lf = refl;
  is_lf = refl;
  is_number = λ t rnarg n held h. h;
}

abbrev pub arg1_stage : (setup : Setup) → Stage setup
unfolding step_in
arg1_stage setup = record {
  at_len = State.arg1_len;
  at_len_lf = State.arg1_len_lf;
  at_body = State.arg1;
  at_lf = State.arg1_lf;
  accepts = arg_len_accepts;
  verdict = after_arg1;
  is_len = refl;
  is_len_lf = refl;
  is_lf = refl;
  is_number = λ t rnarg n held h. h;
}

abbrev pub arg2_stage : (setup : Setup) → Stage setup
unfolding step_in
arg2_stage setup = record {
  at_len = State.arg2_len;
  at_len_lf = State.arg2_len_lf;
  at_body = State.arg2;
  at_lf = State.arg2_lf;
  accepts = arg_len_accepts;
  verdict = after_arg2;
  is_len = refl;
  is_len_lf = refl;
  is_lf = refl;
  is_number = λ t rnarg n held h. h;
}

abbrev pub arg3_stage : (setup : Setup) → Stage setup
unfolding step_in
arg3_stage setup = record {
  at_len = State.arg3_len;
  at_len_lf = State.arg3_len_lf;
  at_body = State.arg3;
  at_lf = State.arg3_lf;
  accepts = arg_len_accepts;
  verdict = after_arg3;
  is_len = refl;
  is_len_lf = refl;
  is_lf = refl;
  is_number = λ t rnarg n held h. h;
}

abbrev pub argn_stage : (setup : Setup) → Stage setup
unfolding step_in
argn_stage setup = record {
  at_len = State.argn_len;
  at_len_lf = State.argn_len_lf;
  at_body = State.argn;
  at_lf = State.argn_lf;
  accepts = arg_len_accepts;
  verdict = after_argn;
  is_len = refl;
  is_len_lf = refl;
  is_lf = refl;
  is_number = λ t rnarg n held h. h;
}
