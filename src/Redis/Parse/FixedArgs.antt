-- ===== src/Redis/Parse/FixedArgs.antt =====
-- Requests of a key and a fixed number of arguments, behind the line of their type.
use twemproxy.Common.{
  ℕ, suc, ◌^◌, ◌<◌, ◌≡◌, refl, ◌∙◌, arith, List, [], ◌∷◌, ◌++◌, true, false, length, All,
}
use mathlib.Core.List.{append_assoc, append-nil}
use twemproxy.Redis.Tables.{
  redis_argz, redis_arg0, redis_arg1, redis_arg2, redis_arg3, redis_argeval,
}
use twemproxy.Redis.Print.{print_bulk, print_bulks}
use twemproxy.Redis.Parse.State.{State, Req, Setup}
use twemproxy.Redis.Parse.Steps.{after_type, after_key, after_arg1, after_arg2, after_arg3}
use twemproxy.Redis.Parse.Loop.{Outcome}
use twemproxy.Redis.Parse.Bulk.{decide}
use twemproxy.Redis.Parse.Calls.{stands, arg1_then, arg2_then, arg3_then}
use twemproxy.Redis.Parse.First.{only, one_shape, run_first}

module _ (setup : Setup) (r : Req) (rest : List ℕ) where
  pub run_0 :
      (k : List ℕ)
      → redis_arg0 r.type ≡ true
      → r.narg ≡ suc (length (k ∷ []))
      → ((ks : List (List ℕ)) → setup.allocates ks ≡ true)
      → All (λ a. length a < 2 ^ 32) (k ∷ [])
      → All (λ k. length k < setup.mbuf_data_size) (k ∷ [])
      → decide setup
          (after_type (stands r State.req_type_lf (length (k ∷ [])) []))
          (stands r State.req_type_lf (length (k ∷ [])) [])
          (print_bulks (k ∷ []) ++ rest)
        ≡ Outcome.ok (stands r State.start 0 (k ∷ [])) rest
  unfolding decide after_key print_bulks
  run_0 k is count allocated (small, smalls) (fit, fits) =
      let shapes = one_shape r.type in
      let z : redis_argz r.type ≡ false = only (redis_arg0 r.type) _ is (omega (arith, shapes)) in
      let e : redis_argeval r.type ≡ false =
        only (redis_arg0 r.type) _ is (omega (arith, shapes)) in
      run_first setup r rest k [] z e count (allocated []) small fit ∙ rw is refl

  pub run_1 :
      (k a : List ℕ)
      → redis_arg1 r.type ≡ true
      → r.narg ≡ suc (length (k ∷ a ∷ []))
      → ((ks : List (List ℕ)) → setup.allocates ks ≡ true)
      → All (λ a. length a < 2 ^ 32) (k ∷ a ∷ [])
      → All (λ k. length k < setup.mbuf_data_size) (k ∷ [])
      → decide setup
          (after_type (stands r State.req_type_lf (length (k ∷ a ∷ [])) []))
          (stands r State.req_type_lf (length (k ∷ a ∷ [])) [])
          (print_bulks (k ∷ a ∷ []) ++ rest)
        ≡ Outcome.ok (stands r State.start 0 (k ∷ [])) rest
  unfolding decide after_key after_arg1 print_bulks
  run_1 k a is count allocated (small, (small_a, smalls)) (fit, fits) =
      let shapes = one_shape r.type in
      let z : redis_argz r.type ≡ false = only (redis_arg1 r.type) _ is (omega (arith, shapes)) in
      let e : redis_argeval r.type ≡ false =
        only (redis_arg1 r.type) _ is (omega (arith, shapes)) in
      let f0 : redis_arg0 r.type ≡ false = only (redis_arg1 r.type) _ is (omega (arith, shapes)) in
      run_first setup r rest k (a ∷ []) z e count (allocated []) small fit
      ∙ rw (f0, is)
          (rw (append-nil (print_bulk a))
            (arg1_then setup r 0 (k ∷ []) a rest small_a ∙ rw is refl))

  pub run_2 :
      (k a b : List ℕ)
      → redis_arg2 r.type ≡ true
      → r.narg ≡ suc (length (k ∷ a ∷ b ∷ []))
      → ((ks : List (List ℕ)) → setup.allocates ks ≡ true)
      → All (λ a. length a < 2 ^ 32) (k ∷ a ∷ b ∷ [])
      → All (λ k. length k < setup.mbuf_data_size) (k ∷ [])
      → decide setup
          (after_type (stands r State.req_type_lf (length (k ∷ a ∷ b ∷ [])) []))
          (stands r State.req_type_lf (length (k ∷ a ∷ b ∷ [])) [])
          (print_bulks (k ∷ a ∷ b ∷ []) ++ rest)
        ≡ Outcome.ok (stands r State.start 0 (k ∷ [])) rest
  unfolding decide after_key after_arg1 after_arg2 print_bulks
  run_2 k a b is count allocated (small, (small_a, (small_b, smalls))) (fit, fits) =
      let shapes = one_shape r.type in
      let z : redis_argz r.type ≡ false = only (redis_arg2 r.type) _ is (omega (arith, shapes)) in
      let e : redis_argeval r.type ≡ false =
        only (redis_arg2 r.type) _ is (omega (arith, shapes)) in
      let f0 : redis_arg0 r.type ≡ false = only (redis_arg2 r.type) _ is (omega (arith, shapes)) in
      let f1 : redis_arg1 r.type ≡ false = only (redis_arg2 r.type) _ is (omega (arith, shapes)) in
      run_first setup r rest k (a ∷ b ∷ []) z e count (allocated []) small fit
      ∙ rw (f0, f1, is)
          (rw (append-nil (print_bulk b), append_assoc (print_bulk a) (print_bulk b) rest)
            (arg1_then setup r 1 (k ∷ []) a (print_bulk b ++ rest) small_a
              ∙ rw (f1, is) (arg2_then setup r 0 (k ∷ []) b rest small_b e ∙ rw is refl)))

  pub run_3 :
      (k a b c : List ℕ)
      → redis_arg3 r.type ≡ true
      → r.narg ≡ suc (length (k ∷ a ∷ b ∷ c ∷ []))
      → ((ks : List (List ℕ)) → setup.allocates ks ≡ true)
      → All (λ a. length a < 2 ^ 32) (k ∷ a ∷ b ∷ c ∷ [])
      → All (λ k. length k < setup.mbuf_data_size) (k ∷ [])
      → decide setup
          (after_type (stands r State.req_type_lf (length (k ∷ a ∷ b ∷ c ∷ [])) []))
          (stands r State.req_type_lf (length (k ∷ a ∷ b ∷ c ∷ [])) [])
          (print_bulks (k ∷ a ∷ b ∷ c ∷ []) ++ rest)
        ≡ Outcome.ok (stands r State.start 0 (k ∷ [])) rest
  unfolding decide after_key after_arg1 after_arg2 after_arg3 print_bulks
  run_3 k a b c is count allocated (small, (small_a, (small_b, (small_c, smalls)))) (fit, fits) =
      let shapes = one_shape r.type in
      let z : redis_argz r.type ≡ false = only (redis_arg3 r.type) _ is (omega (arith, shapes)) in
      let e : redis_argeval r.type ≡ false =
        only (redis_arg3 r.type) _ is (omega (arith, shapes)) in
      let f0 : redis_arg0 r.type ≡ false = only (redis_arg3 r.type) _ is (omega (arith, shapes)) in
      let f1 : redis_arg1 r.type ≡ false = only (redis_arg3 r.type) _ is (omega (arith, shapes)) in
      let f2 : redis_arg2 r.type ≡ false = only (redis_arg3 r.type) _ is (omega (arith, shapes)) in
      run_first setup r rest k (a ∷ b ∷ c ∷ []) z e count (allocated []) small fit
      ∙ rw (f0, f1, f2, is)
          (rw
            (
              append-nil (print_bulk c),
              append_assoc (print_bulk a) (print_bulk b ++ print_bulk c) rest,
              append_assoc (print_bulk b) (print_bulk c) rest,
            )
            (arg1_then setup r 2 (k ∷ []) a (print_bulk b ++ (print_bulk c ++ rest)) small_a
              ∙ rw (f1, f2, is)
                  (arg2_then setup r 1 (k ∷ []) b (print_bulk c ++ rest) small_b e
                    ∙ rw (f2, is) (arg3_then setup r 0 (k ∷ []) c rest small_c ∙ rw is refl))))
