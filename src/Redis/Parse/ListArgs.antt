-- ===== src/Redis/Parse/ListArgs.antt =====
-- Requests of any number of arguments, keys or pairs, and EVAL, behind the line of their type.
use twemproxy.Common.{
  ℕ, suc, ◌%◌, ◌^◌, ◌<◌, ◌≡◌, refl, ◌∙◌, arith, List, [], ◌∷◌, ◌++◌, true, false, length, ◌==◌, ltb,
  All, if◌then◌else◌,
}
use mathlib.Core.List.{append_assoc, append-nil}
use twemproxy.Redis.Tables.{
  redis_argz, redis_arg0, redis_arg1, redis_arg2, redis_arg3, redis_argn, redis_argx, redis_argkvx,
  redis_argeval,
}
use twemproxy.Redis.Print.{print_bulk, print_bulks}
use twemproxy.Redis.Parse.State.{State, Req, Setup, Verdict}
use twemproxy.Redis.Parse.Steps.{has_keys, after_type, after_key, after_arg1, after_arg2}
use twemproxy.Redis.Parse.Loop.{Outcome}
use twemproxy.Redis.Parse.Bulk.{decide}
use twemproxy.Redis.Parse.Arguments.{IsPairs, not_last, run_argn, run_argx, run_argkvx}
use twemproxy.Redis.Parse.Calls.{stands, key_then, arg1_then, arg2_then_keys}
use twemproxy.Redis.Parse.First.{only, one_shape, goes_to_key, run_first}

IsPairs-length : {args keys : List (List ℕ)} → IsPairs args keys → length args % 2 ≡ 0
IsPairs-length IsPairs.no_pair = refl
IsPairs-length (IsPairs.pair more) = let even = IsPairs-length more in omega (arith, even)

module _ (setup : Setup) (r : Req) (rest : List ℕ) where
  run_n_rest :
      (k : List ℕ) (args : List (List ℕ))
      → redis_argn r.type ≡ true
      → All (λ a. length a < 2 ^ 32) args
      → decide setup
          (after_key (stands r State.key_lf (length args) (k ∷ [])))
          (stands r State.key_lf (length args) (k ∷ []))
          (print_bulks args ++ rest)
        ≡ Outcome.ok (stands r State.start 0 (k ∷ [])) rest
  unfolding decide after_key after_arg1 print_bulks
  run_n_rest k args is smalls =
      let shapes = one_shape r.type in
      let f0 : redis_arg0 r.type ≡ false = only (redis_argn r.type) _ is (omega (arith, shapes)) in
      let f1 : redis_arg1 r.type ≡ false = only (redis_argn r.type) _ is (omega (arith, shapes)) in
      let f2 : redis_arg2 r.type ≡ false = only (redis_argn r.type) _ is (omega (arith, shapes)) in
      let f3 : redis_arg3 r.type ≡ false = only (redis_argn r.type) _ is (omega (arith, shapes)) in
      rw (f0, f1, f2, f3, is) (by_args args smalls f1 f2 f3)
    where
      by_args :
          (xs : List (List ℕ))
          → All (λ a. length a < 2 ^ 32) xs
          → redis_arg1 r.type ≡ false
          → redis_arg2 r.type ≡ false
          → redis_arg3 r.type ≡ false
          → decide setup
              (if length xs == 0 then Verdict.finish else Verdict.enter State.arg1_len)
              (stands r State.key_lf (length xs) (k ∷ []))
              (print_bulks xs ++ rest)
            ≡ Outcome.ok (stands r State.start 0 (k ∷ [])) rest
      by_args [] tt f1 f2 f3 = refl
      by_args (a ∷ []) (small, tt) f1 f2 f3 =
          rw (append-nil (print_bulk a))
            (arg1_then setup r 0 (k ∷ []) a rest small ∙ rw (f1, f2, f3, is) refl)
      by_args (a ∷ b ∷ xs) (small, smalls_) f1 f2 f3 =
          rw (not_last (suc (length xs)), append_assoc (print_bulk a) (print_bulks (b ∷ xs)) rest)
            (arg1_then setup r (suc (length xs)) (k ∷ []) a (print_bulks (b ∷ xs) ++ rest) small
              ∙ rw (f1, f2, f3, is)
                  (rw (not_last (length xs))
                    (run_argn setup r rest (k ∷ []) b xs (rw is refl) smalls_)))

  pub run_n :
      (k : List ℕ) (args : List (List ℕ))
      → redis_argn r.type ≡ true
      → r.narg ≡ suc (length (k ∷ args))
      → ((ks : List (List ℕ)) → setup.allocates ks ≡ true)
      → All (λ a. length a < 2 ^ 32) (k ∷ args)
      → All (λ k. length k < setup.mbuf_data_size) (k ∷ [])
      → decide setup
          (after_type (stands r State.req_type_lf (length (k ∷ args)) []))
          (stands r State.req_type_lf (length (k ∷ args)) [])
          (print_bulks (k ∷ args) ++ rest)
        ≡ Outcome.ok (stands r State.start 0 (k ∷ [])) rest
  run_n k args is count allocated (small, smalls) (fit, fits) =
      let shapes = one_shape r.type in
      let z : redis_argz r.type ≡ false = only (redis_argn r.type) _ is (omega (arith, shapes)) in
      let e : redis_argeval r.type ≡ false =
        only (redis_argn r.type) _ is (omega (arith, shapes)) in
      run_first setup r rest k args z e count (allocated []) small fit ∙ run_n_rest k args is smalls

  pub run_x :
      (k : List ℕ) (ks : List (List ℕ))
      → redis_argx r.type ≡ true
      → r.narg ≡ suc (length (k ∷ ks))
      → ((ks : List (List ℕ)) → setup.allocates ks ≡ true)
      → All (λ a. length a < 2 ^ 32) (k ∷ ks)
      → All (λ k. length k < setup.mbuf_data_size) (k ∷ ks)
      → decide setup
          (after_type (stands r State.req_type_lf (length (k ∷ ks)) []))
          (stands r State.req_type_lf (length (k ∷ ks)) [])
          (print_bulks (k ∷ ks) ++ rest)
        ≡ Outcome.ok (stands r State.start 0 (k ∷ ks)) rest
  unfolding decide after_type after_key
  run_x k ks is count allocated smalls fits =
      let shapes = one_shape r.type in
      let z : redis_argz r.type ≡ false = only (redis_argx r.type) _ is (omega (arith, shapes)) in
      let e : redis_argeval r.type ≡ false =
        only (redis_argx r.type) _ is (omega (arith, shapes)) in
      let f0 : redis_arg0 r.type ≡ false = only (redis_argx r.type) _ is (omega (arith, shapes)) in
      let f1 : redis_arg1 r.type ≡ false = only (redis_argx r.type) _ is (omega (arith, shapes)) in
      let f2 : redis_arg2 r.type ≡ false = only (redis_argx r.type) _ is (omega (arith, shapes)) in
      let f3 : redis_arg3 r.type ≡ false = only (redis_argx r.type) _ is (omega (arith, shapes)) in
      let fn : redis_argn r.type ≡ false = only (redis_argx r.type) _ is (omega (arith, shapes)) in
      goes_to_key setup r rest (length ks) (print_bulks (k ∷ ks) ++ rest) count z e
      ∙ run_argx setup r rest [] k ks allocated (rw (f0, f1, f2, f3, fn, is) refl)
          (λ n keys. rw (f0, f1, f2, f3, fn, is) (rw (not_last n) refl)) smalls fits

  pub run_kvx :
      {args keys : List (List ℕ)} (key value : List ℕ)
      → redis_argkvx r.type ≡ true
      → IsPairs args keys
      → r.narg ≡ suc (length (key ∷ value ∷ args))
      → ((ks : List (List ℕ)) → setup.allocates ks ≡ true)
      → All (λ a. length a < 2 ^ 32) (key ∷ value ∷ args)
      → All (λ k. length k < setup.mbuf_data_size) (key ∷ keys)
      → decide setup
          (after_type (stands r State.req_type_lf (length (key ∷ value ∷ args)) []))
          (stands r State.req_type_lf (length (key ∷ value ∷ args)) [])
          (print_bulks (key ∷ value ∷ args) ++ rest)
        ≡ Outcome.ok (stands r State.start 0 (key ∷ keys)) rest
  unfolding after_key after_arg1
  run_kvx {args} key value is more count allocated smalls fits =
      let shapes = one_shape r.type in
      let z : redis_argz r.type ≡ false = only (redis_argkvx r.type) _ is (omega (arith, shapes)) in
      let e : redis_argeval r.type ≡ false =
        only (redis_argkvx r.type) _ is (omega (arith, shapes)) in
      let f0 : redis_arg0 r.type ≡ false =
        only (redis_argkvx r.type) _ is (omega (arith, shapes)) in
      let f1 : redis_arg1 r.type ≡ false =
        only (redis_argkvx r.type) _ is (omega (arith, shapes)) in
      let f2 : redis_arg2 r.type ≡ false =
        only (redis_argkvx r.type) _ is (omega (arith, shapes)) in
      let f3 : redis_arg3 r.type ≡ false =
        only (redis_argkvx r.type) _ is (omega (arith, shapes)) in
      let fn : redis_argn r.type ≡ false =
        only (redis_argkvx r.type) _ is (omega (arith, shapes)) in
      let fx : redis_argx r.type ≡ false =
        only (redis_argkvx r.type) _ is (omega (arith, shapes)) in
      let odd : (r.narg % 2 == 0) ≡ false = ground (arith, count, IsPairs-length more) in
      goes_to_key setup r rest (suc (length args)) (print_bulks (key ∷ value ∷ args) ++ rest) count
        z e
      ∙ run_argkvx setup r rest [] key value more allocated
          (λ n ks. rw (f0, f1, f2, f3, fn, fx, is, odd) refl)
          (λ ks. rw (f1, f2, f3, fn, e, is) refl)
          (λ n ks. rw (f1, f2, f3, fn, e, is) (rw (not_last n) refl)) smalls fits

  run_eval_rest :
      (k : List ℕ) (args : List (List ℕ))
      → redis_argeval r.type ≡ true
      → All (λ a. length a < 2 ^ 32) args
      → decide setup
          (if length args == 0 then Verdict.finish else Verdict.enter State.argn_len)
          (stands r State.key_lf (length args) (k ∷ []))
          (print_bulks args ++ rest)
        ≡ Outcome.ok (stands r State.start 0 (k ∷ [])) rest
  unfolding decide print_bulks
  run_eval_rest k [] is smalls = refl
  run_eval_rest k (a ∷ args) is smalls =
      rw (not_last (length args))
        (run_argn setup r rest (k ∷ []) a args (ground (arith, is)) smalls)

  pub run_eval :
      (source counted k : List ℕ) (args : List (List ℕ))
      → redis_argeval r.type ≡ true
      → has_keys counted ≡ true
      → r.narg ≡ suc (length (source ∷ counted ∷ k ∷ args))
      → ((ks : List (List ℕ)) → setup.allocates ks ≡ true)
      → All (λ a. length a < 2 ^ 32) (source ∷ counted ∷ k ∷ args)
      → All (λ k. length k < setup.mbuf_data_size) (k ∷ [])
      → decide setup
          (after_type (stands r State.req_type_lf (length (source ∷ counted ∷ k ∷ args)) []))
          (stands r State.req_type_lf (length (source ∷ counted ∷ k ∷ args)) [])
          (print_bulks (source ∷ counted ∷ k ∷ args) ++ rest)
        ≡ Outcome.ok (stands r State.start 0 (k ∷ [])) rest
  unfolding decide after_type after_arg1 after_arg2 after_key print_bulks
  run_eval source counted k args is has count allocated (small_s, (small_c, (small, smalls)))
        (fit, fits) =
      let shapes = one_shape r.type in
      let z : redis_argz r.type ≡ false =
        only (redis_argeval r.type) _ is (omega (arith, shapes)) in
      let f0 : redis_arg0 r.type ≡ false =
        only (redis_argeval r.type) _ is (omega (arith, shapes)) in
      let f1 : redis_arg1 r.type ≡ false =
        only (redis_argeval r.type) _ is (omega (arith, shapes)) in
      let f2 : redis_arg2 r.type ≡ false =
        only (redis_argeval r.type) _ is (omega (arith, shapes)) in
      let f3 : redis_arg3 r.type ≡ false =
        only (redis_argeval r.type) _ is (omega (arith, shapes)) in
      let fn : redis_argn r.type ≡ false =
        only (redis_argeval r.type) _ is (omega (arith, shapes)) in
      let fx : redis_argx r.type ≡ false =
        only (redis_argeval r.type) _ is (omega (arith, shapes)) in
      let fk : redis_argkvx r.type ≡ false =
        only (redis_argeval r.type) _ is (omega (arith, shapes)) in
      let not_one : (r.narg == 1) ≡ false = ground (arith, count) in
      let two : ltb (suc (suc (length args))) 2 ≡ false = ground arith in
      let one : ltb (suc (length args)) 1 ≡ false = ground arith in
      rw (z, not_one, is)
        (rw
          (
            append_assoc (print_bulk source)
                (print_bulk counted ++ (print_bulk k ++ print_bulks args)) rest,
            append_assoc (print_bulk counted) (print_bulk k ++ print_bulks args) rest,
            append_assoc (print_bulk k) (print_bulks args) rest,
          )
          (arg1_then setup r (suc (suc (length args))) [] source
              (print_bulk counted ++ (print_bulk k ++ (print_bulks args ++ rest))) small_s
            ∙ rw (f1, f2, f3, fn, is, two)
                (arg2_then_keys setup r (suc (length args)) [] counted
                    (print_bulk k ++ (print_bulks args ++ rest)) small_c is has
                  ∙ rw (f2, f3, fn, is, one)
                      (key_then setup r (length args) [] k (print_bulks args ++ rest) small fit
                          (allocated [])
                        ∙ rw (f0, f1, f2, f3, fn, fx, fk, is) (run_eval_rest k args is smalls)))))
