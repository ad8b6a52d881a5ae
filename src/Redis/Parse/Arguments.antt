-- ===== src/Redis/Parse/Arguments.antt =====
-- The arguments of a request behind one another: of a list, of keys and of pairs.
use twemproxy.Common.{
  ℕ, suc, ◌^◌, ◌<◌, ◌≡◌, refl, ◌∙◌, arith, List, [], ◌∷◌, ◌++◌, true, false, ◌||◌, length, ◌==◌,
  All,
}
use mathlib.Core.List.{append_assoc, append-nil}
use twemproxy.Redis.Tables.{redis_argn, redis_argeval}
use twemproxy.Redis.Print.{print_bulk, print_bulks}
use twemproxy.Redis.Parse.State.{State, Req, Setup, Verdict}
use twemproxy.Redis.Parse.Steps.{after_key, after_arg1, after_argn}
use twemproxy.Redis.Parse.Loop.{Outcome, run}
use twemproxy.Redis.Parse.Bulk.{decide}
use twemproxy.Redis.Parse.Calls.{stands, key_then, arg1_then, argn_then}

-- Arguments that are pairs of a key and a value, with the keys.
pub data IsPairs : List (List ℕ) → List (List ℕ) → Type 0 where
  no_pair : IsPairs [] []
  pair :
      {key value : List ℕ} {args keys : List (List ℕ)}
      → IsPairs args keys
      → IsPairs (key ∷ value ∷ args) (key ∷ keys)

pub not_last : (n : ℕ) → (suc n == 0) ≡ false
not_last n = ground arith

module _ (setup : Setup) (r : Req) (rest : List ℕ) where
  -- The arguments behind a key, to the last one.
  pub run_argn :
      (keys : List (List ℕ)) (arg : List ℕ) (args : List (List ℕ))
      → (redis_argn r.type || redis_argeval r.type) ≡ true
      → All (λ a. length a < 2 ^ 32) (arg ∷ args)
      → run setup
          (stands r State.argn_len (suc (length args)) keys)
          (print_bulks (arg ∷ args) ++ rest)
        ≡ Outcome.ok (stands r State.start 0 keys) rest
  unfolding print_bulks after_argn decide
  run_argn keys arg [] is_n (small, smalls) =
      rw (append-nil (print_bulk arg)) (argn_then setup r 0 keys arg rest small ∙ rw is_n refl)
  run_argn keys arg (next ∷ args) is_n (small, smalls) =
      rw (append_assoc (print_bulk arg) (print_bulks (next ∷ args)) rest) (
        argn_then setup r (suc (length args)) keys arg (print_bulks (next ∷ args) ++ rest) small
        ∙ rw is_n (rw (not_last (length args)) (run_argn keys next args is_n smalls)))

  -- Keys to the end.
  pub run_argx :
      (before : List (List ℕ)) (key : List ℕ) (keys : List (List ℕ))
      → ((ks : List (List ℕ)) → setup.allocates ks ≡ true)
      → (after_key (stands r State.key_lf 0 (before ++ key ∷ keys)) ≡ Verdict.finish)
      → ((n : ℕ) (ks : List (List ℕ))
          → after_key (stands r State.key_lf (suc n) ks) ≡ Verdict.enter State.key_len)
      → All (λ a. length a < 2 ^ 32) (key ∷ keys)
      → All (λ k. length k < setup.mbuf_data_size) (key ∷ keys)
      → run setup
          (stands r State.key_len (suc (length keys)) before)
          (print_bulks (key ∷ keys) ++ rest)
        ≡ Outcome.ok (stands r State.start 0 (before ++ key ∷ keys)) rest
  unfolding print_bulks decide
  run_argx before key [] allocated ends goes_on (small, smalls) (fits, all_fit) =
      rw (append-nil (print_bulk key))
        (key_then setup r 0 before key rest small fits (allocated before) ∙ rw ends refl)
  run_argx before key (next ∷ keys) allocated ends goes_on (small, smalls) (fits, all_fit) =
      rw (append_assoc (print_bulk key) (print_bulks (next ∷ keys)) rest) (
        key_then setup r (suc (length keys)) before key (print_bulks (next ∷ keys) ++ rest) small
          fits (allocated before)
        ∙ rw (goes_on (length keys) (before ++ key ∷ [])) (
            run_argx (before ++ key ∷ []) next keys allocated
              (rw (append_assoc before (key ∷ []) (next ∷ keys)) ends) goes_on smalls all_fit
            ∙ rw (append_assoc before (key ∷ []) (next ∷ keys)) refl))

  -- A key and a value.
  run_pair :
      (before : List (List ℕ)) (key value : List ℕ) (args : List (List ℕ))
      → setup.allocates before ≡ true
      → after_key (stands r State.key_lf (suc (length args)) (before ++ key ∷ []))
        ≡ Verdict.enter State.arg1_len
      → length key < 2 ^ 32
      → length value < 2 ^ 32
      → length key < setup.mbuf_data_size
      → run setup
          (stands r State.key_len (suc (suc (length args))) before)
          (print_bulks (key ∷ value ∷ args) ++ rest)
        ≡ decide setup
            (after_arg1 (stands r State.arg1_lf (length args) (before ++ key ∷ [])))
            (stands r State.arg1_lf (length args) (before ++ key ∷ []))
            (print_bulks args ++ rest)
  unfolding print_bulks decide
  run_pair before key value args allocated to_value small small_v fits =
      rw (append_assoc (print_bulk key) (print_bulk value ++ print_bulks args) rest) (
        key_then setup r (suc (length args)) before key
          (print_bulk value ++ print_bulks args ++ rest) small fits allocated
        ∙ rw to_value (
            rw (append_assoc (print_bulk value) (print_bulks args) rest) (
              arg1_then setup r (length args) (before ++ key ∷ []) value (print_bulks args ++ rest)
                small_v)))

  -- Pairs of a key and a value to the end.
  pub run_argkvx :
      (before : List (List ℕ)) (key value : List ℕ) {args keys : List (List ℕ)}
      → IsPairs args keys
      → ((ks : List (List ℕ)) → setup.allocates ks ≡ true)
      → ((n : ℕ) (ks : List (List ℕ))
          → after_key (stands r State.key_lf n ks) ≡ Verdict.enter State.arg1_len)
      → ((ks : List (List ℕ)) → after_arg1 (stands r State.arg1_lf 0 ks) ≡ Verdict.finish)
      → ((n : ℕ) (ks : List (List ℕ))
          → after_arg1 (stands r State.arg1_lf (suc n) ks) ≡ Verdict.enter State.key_len)
      → All (λ a. length a < 2 ^ 32) (key ∷ value ∷ args)
      → All (λ k. length k < setup.mbuf_data_size) (key ∷ keys)
      → run setup
          (stands r State.key_len (suc (suc (length args))) before)
          (print_bulks (key ∷ value ∷ args) ++ rest)
        ≡ Outcome.ok (stands r State.start 0 (before ++ key ∷ keys)) rest
  unfolding decide print_bulks
  run_argkvx before key value IsPairs.no_pair allocated to_value ends goes_on
        (small, (small_v, smalls)) (fits, all_fit) =
      run_pair before key value [] (allocated before) (to_value _ _) small small_v fits
      ∙ rw (ends (before ++ key ∷ [])) refl
  run_argkvx before key value
        (IsPairs.pair {key = key2} {value = value2} {args = args} {keys = keys} more) allocated
        to_value ends goes_on (small, (small_v, smalls)) (fits, all_fit) =
      run_pair before key value (key2 ∷ value2 ∷ args) (allocated before) (to_value _ _) small
        small_v fits
      ∙ rw (goes_on (suc (length args)) (before ++ key ∷ [])) (
          run_argkvx (before ++ key ∷ []) key2 value2 more allocated to_value ends goes_on smalls
            all_fit
          ∙ rw (append_assoc before (key ∷ []) (key2 ∷ keys)) refl)
