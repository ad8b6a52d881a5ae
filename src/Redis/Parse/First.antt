-- ===== src/Redis/Parse/First.antt =====
-- The first key of a request, and the shape of its arguments.
use twemproxy.Common.{
  ℕ, suc, ◌+◌, ◌^◌, ◌≤◌, ◌<◌, ◌≡◌, refl, sym, ◌∙◌, arith, List, [], ◌∷◌, ◌++◌, Bool, true, false,
  length, ◌==◌,
}
use mathlib.Core.List.{append_assoc}
use twemproxy.Message.{MsgType}
use twemproxy.Redis.Tables.{
  redis_argz, redis_arg0, redis_arg1, redis_arg2, redis_arg3, redis_argn, redis_argx, redis_argkvx,
  redis_argeval,
}
use twemproxy.Redis.Shapes.{bit, shape_count, shape_count_lem}
use twemproxy.Redis.Print.{print_bulk, print_bulks}
use twemproxy.Redis.Parse.State.{State, Req, Setup}
use twemproxy.Redis.Parse.Steps.{after_type, after_key}
use twemproxy.Redis.Parse.Loop.{run}
use twemproxy.Redis.Parse.Bulk.{decide}
use twemproxy.Redis.Parse.Calls.{stands, key_then}

-- Of two shapes a type has one at most.
pub only : (x y : Bool) → x ≡ true → bit x + bit y ≤ 1 → y ≡ false
unfolding bit
only x false hx h = refl
only false true hx h = sym hx
only true true hx h = absurd (omega arith)

module _ (t : MsgType) where
  pub one_shape :
      bit (redis_argz t)
        + bit (redis_arg0 t)
        + bit (redis_arg1 t)
        + bit (redis_arg2 t)
        + bit (redis_arg3 t)
        + bit (redis_argn t)
        + bit (redis_argx t)
        + bit (redis_argkvx t)
        + bit (redis_argeval t)
      ≤ 1
  unfolding shape_count
  one_shape = (shape_count_lem t).0

module _ (setup : Setup) (r : Req) (rest : List ℕ) where
  -- Behind the line of the type.
  pub goes_to_key :
      (n : ℕ) (x : List ℕ)
      → r.narg ≡ suc (suc n)
      → redis_argz r.type ≡ false
      → redis_argeval r.type ≡ false
      → decide setup
          (after_type (stands r State.req_type_lf (suc n) []))
          (stands r State.req_type_lf (suc n) [])
          x
        ≡ run setup (stands r State.key_len (suc n) []) x
  unfolding decide after_type
  goes_to_key n x count z e =
      let more : (r.narg == 1) ≡ false = ground (arith, count) in rw (z, more, e) refl

  -- A key first.
  pub run_first :
      (key : List ℕ) (args : List (List ℕ))
      → redis_argz r.type ≡ false
      → redis_argeval r.type ≡ false
      → r.narg ≡ suc (suc (length args))
      → setup.allocates [] ≡ true
      → length key < 2 ^ 32
      → length key < setup.mbuf_data_size
      → decide setup
          (after_type (stands r State.req_type_lf (suc (length args)) []))
          (stands r State.req_type_lf (suc (length args)) [])
          (print_bulks (key ∷ args) ++ rest)
        ≡ decide setup
            (after_key (stands r State.key_lf (length args) (key ∷ [])))
            (stands r State.key_lf (length args) (key ∷ []))
            (print_bulks args ++ rest)
  unfolding decide after_type print_bulks
  run_first key args z eval count allocated small fit =
      goes_to_key (length args) (print_bulks (key ∷ args) ++ rest) count z eval
      ∙ (rw (append_assoc (print_bulk key) (print_bulks args) rest)
          (key_then setup r (length args) [] key (print_bulks args ++ rest) small fit allocated))
