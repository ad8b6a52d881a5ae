-- ===== src/Redis/Parse/Calls.antt =====
-- The parts of a request one after another: what each is followed by.
use twemproxy.Common.{
  ℕ, suc, ◌^◌, ◌<◌, ◌≡◌, refl, ◌∙◌, arith, List, [], ◌∷◌, ◌++◌, true, false, not, ◌&&◌, none,
  length, leb, ◌==◌,
}
use twemproxy.Redis.Tables.{redis_argeval}
use twemproxy.Redis.Print.{print_bulk}
use twemproxy.Redis.Parse.State.{State, Req, Setup}
use twemproxy.Redis.Parse.Steps.{
  lf, step_in, has_keys, found_key, after_key, after_arg1, after_arg2, after_arg3, after_argn,
}
use twemproxy.Redis.Parse.Loop.{run}
use twemproxy.Redis.Parse.Bulk.{decide, run-lf, run_body, run_arg2_body, run_token}
use twemproxy.Redis.Parse.EvalKeys.{run_keys}
use twemproxy.Redis.Parse.Parts.{
  run_part_len, run_arg, key_stage, arg1_stage, arg2_stage, arg3_stage, argn_stage,
}

-- The request between two parts: `n` are left, and these are its keys.
abbrev pub stands : Req → State → ℕ → List (List ℕ) → Req
stands r s n keys = record r { state = s; token = none; rlen = 0; rnarg = n; keys = keys }

module _ (setup : Setup) (r : Req) (n : ℕ) (keys : List (List ℕ)) (bytes rest : List ℕ)
    (small : length bytes < 2 ^ 32) where
  pub key_then :
      length bytes < setup.mbuf_data_size
      → setup.allocates keys ≡ true
      → run setup (stands r State.key_len (suc n) keys) (print_bulk bytes ++ rest)
        ≡ decide setup
            (after_key (stands r State.key_lf n (keys ++ bytes ∷ [])))
            (stands r State.key_lf n (keys ++ bytes ∷ []))
            rest
  unfolding step_in
  key_then fits allocated =
      run_part_len (key_stage setup) (stands r State.key_len n keys) n bytes rest small
        (λ ds spelled. accepted n fits)
      ∙ run_token setup State.key (found_key setup) (stands r State.key n keys) bytes (lf ∷ rest)
          refl
      ∙ rw allocated (
          run-lf setup State.key_lf after_key (stands r State.key_lf n (keys ++ bytes ∷ [])) rest
            refl)
    where
      accepted :
          (k : ℕ)
          → length bytes < setup.mbuf_data_size
          → (not (leb setup.mbuf_data_size (length bytes)) && not (suc k == 0)) ≡ true
      accepted k h = ground (arith, h)

  pub arg1_then :
      run setup (stands r State.arg1_len (suc n) keys) (print_bulk bytes ++ rest)
      ≡ decide setup
          (after_arg1 (stands r State.arg1_lf n keys))
          (stands r State.arg1_lf n keys)
          rest
  unfolding step_in
  arg1_then =
      run_arg (arg1_stage setup) (stands r State.arg1_len n keys) n bytes rest small
        (λ r' held. refl)
        (λ x. run_body setup State.arg1 State.arg1_lf (stands r State.arg1 n keys) bytes x refl)

  pub arg2_then :
      redis_argeval r.type ≡ false
      → run setup (stands r State.arg2_len (suc n) keys) (print_bulk bytes ++ rest)
        ≡ decide setup
            (after_arg2 (stands r State.arg2_lf n keys))
            (stands r State.arg2_lf n keys)
            rest
  unfolding step_in
  arg2_then other =
      run_arg (arg2_stage setup) (stands r State.arg2_len n keys) n bytes rest small
        (λ r' held. refl) (λ x. run_arg2_body setup (stands r State.arg2 n keys) bytes x other)

  -- The number of keys of EVAL.
  pub arg2_then_keys :
      redis_argeval r.type ≡ true
      → has_keys bytes ≡ true
      → run setup (stands r State.arg2_len (suc n) keys) (print_bulk bytes ++ rest)
        ≡ decide setup
            (after_arg2 (stands r State.arg2_lf n keys))
            (stands r State.arg2_lf n keys)
            rest
  unfolding step_in
  arg2_then_keys eval counted =
      run_arg (arg2_stage setup) (stands r State.arg2_len n keys) n bytes rest small
        (λ r' held. refl) (λ x. run_keys setup (stands r State.arg2 n keys) bytes x eval counted)

  pub arg3_then :
      run setup (stands r State.arg3_len (suc n) keys) (print_bulk bytes ++ rest)
      ≡ decide setup
          (after_arg3 (stands r State.arg3_lf n keys))
          (stands r State.arg3_lf n keys)
          rest
  unfolding step_in
  arg3_then =
      run_arg (arg3_stage setup) (stands r State.arg3_len n keys) n bytes rest small
        (λ r' held. refl)
        (λ x. run_body setup State.arg3 State.arg3_lf (stands r State.arg3 n keys) bytes x refl)

  pub argn_then :
      run setup (stands r State.argn_len (suc n) keys) (print_bulk bytes ++ rest)
      ≡ decide setup
          (after_argn (stands r State.argn_lf n keys))
          (stands r State.argn_lf n keys)
          rest
  unfolding step_in
  argn_then =
      run_arg (argn_stage setup) (stands r State.argn_len n keys) n bytes rest small
        (λ r' held. refl)
        (λ x. run_body setup State.argn State.argn_lf (stands r State.argn n keys) bytes x refl)
