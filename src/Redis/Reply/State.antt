-- ===== src/Redis/Reply/State.antt =====
-- What redis_parse_rsp of src/proto/nc_redis.c keeps of a response between two calls. A pointer into
-- the buffer stands as the bytes from it on: `token` holds the bytes from the token's first to the last
-- one read.
use twemproxy.Common.{ℕ, List, Option}
use twemproxy.Message.{MsgType}

pub data RspState : Type 0 where
  start status error integer integer_start simple runto_crlf almost_done : RspState
  bulk bulk_lf bulk_arg bulk_arg_lf : RspState
  multibulk multibulk_narg_lf multibulk_argn_len multibulk_argn_len_lf multibulk_argn : RspState
  multibulk_argn_lf : RspState

pub record Rsp : Type 0 where
  pub state : RspState
  pub token : Option (List ℕ)
  pub narg : ℕ
  pub rnarg : ℕ
  pub rlen : ℕ
  pub integer : ℕ
  pub type : MsgType

-- The end of a round of the loop: it goes on with the bytes that are left; it has jumped to the last
-- byte for want of more; or it leaves by one of the labels.
pub data RspMove : Type 0 where
  go : Rsp → List ℕ → RspMove
  wait : Rsp → RspMove
  done : Rsp → List ℕ → RspMove
  error : RspState → RspMove
