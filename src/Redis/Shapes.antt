-- ===== src/Redis/Shapes.antt =====
-- Every redis request has one shape of arguments.
use twemproxy.Common.{ℕ, ◌+◌, ◌≡◌, refl, Bool, true, false, ◌≤◌, not, ◌&&◌, ◌||◌, leb, ◌==◌, arith}
use twemproxy.Message.{MsgType}
use twemproxy.Redis.Tables.{
  redis_readonly, redis_master_slave_only, redis_argz, redis_arg0, redis_arg1, redis_arg2,
  redis_arg3, redis_argn, redis_argx, redis_argkvx, redis_argeval,
}

unfoldable pub bit : Bool → ℕ
bit true = 1
bit false = 0

-- In how many tables of argument shapes a type stands.
unfoldable pub shape_count : MsgType → ℕ
shape_count t =
    bit (redis_argz t)
    + bit (redis_arg0 t)
    + bit (redis_arg1 t)
    + bit (redis_arg2 t)
    + bit (redis_arg3 t)
    + bit (redis_argn t)
    + bit (redis_argx t)
    + bit (redis_argkvx t)
    + bit (redis_argeval t)

consistent : MsgType → Bool
consistent t =
    leb (shape_count t) 1
    && (not (redis_readonly t) || shape_count t == 1)
    && (not (redis_master_slave_only t) || (shape_count t == 1 && not (redis_readonly t)))

consistent_all : (t : MsgType) → consistent t ≡ true
unfolding consistent shape_count bit redis_readonly redis_master_slave_only redis_argz redis_arg0
    redis_arg1 redis_arg2 redis_arg3 redis_argn redis_argx redis_argkvx redis_argeval
consistent_all MsgType.unknown = refl
consistent_all _ = refl

-- No type stands in two tables of argument shapes. One that only reads stands in one, and so does
-- one that needs a master, which is never one that only reads.
pub shape_count_lem :
    (t : MsgType)
    → (shape_count t ≤ 1)
      × (redis_readonly t ≡ true → shape_count t ≡ 1)
      × (redis_master_slave_only t ≡ true → (shape_count t ≡ 1) × (redis_readonly t ≡ false))
unfolding consistent
shape_count_lem t =
    let h = consistent_all t in
    (ground (arith, h), λ r. ground (arith, h, r), λ m. ground (arith, h, m))
