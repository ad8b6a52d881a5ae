-- ===== src/Redis/Parse/State.antt =====
-- What redis_parse_req of src/proto/nc_redis.c keeps of a request between two calls, and what one
-- byte leads to. A pointer into the buffer stands as the bytes from it on: `token` holds the bytes
-- from the token's first to the last one read, and a key is its bytes.
use twemproxy.Common.{ℕ, List, Bool, Option}
use twemproxy.Message.{MsgType}

pub data State : Type 0 where
  start narg narg_lf req_type_len req_type_len_lf req_type req_type_lf : State
  key_len key_len_lf key key_lf : State
  arg1_len arg1_len_lf arg1 arg1_lf arg2_len arg2_len_lf arg2 arg2_lf : State
  arg3_len arg3_len_lf arg3 arg3_lf argn_len argn_len_lf argn argn_lf : State

pub record Req : Type 0 where
  pub state : State
  pub token : Option (List ℕ)
  pub narg : ℕ
  pub rnarg : ℕ
  pub rlen : ℕ
  pub type : MsgType
  pub keys : List (List ℕ)
  pub noforward : Bool
  pub quit : Bool

-- What is fixed for all requests: the size of a buffer, and whether array_push finds memory for one
-- more key.
pub record Setup : Type 0 where
  pub mbuf_data_size : ℕ
  pub allocates : List (List ℕ) → Bool

-- The end of a round of the loop: it goes on behind the bytes it took; it has jumped to the last byte
-- for want of more; or it leaves by one of the labels.
-- Of an error the state is kept; such a request is not parsed again.
pub data Move : Type 0 where
  go : Req → List ℕ → Move
  wait : Req → Move
  done : Req → List ℕ → Move
  error : State → Move
  enomem : State → Move

-- What the test behind a line feed decides.
pub data Verdict : Type 0 where
  reject : Verdict
  finish : Verdict
  enter : State → Verdict
