-- ===== src/Redis/Parse.antt =====
-- redis_parse_req of src/proto/nc_redis.c.
pub mod State
pub mod Steps
pub mod Loop
pub mod Consume
pub mod Token
pub mod Rounds
pub mod Extend
pub mod Resume
pub mod Repair
pub mod EvalKeys
pub mod Bulk
pub mod Parts
pub mod Calls
pub mod Arguments
pub mod Receive
pub mod Reads
pub mod First
pub mod FixedArgs
pub mod ListArgs
pub mod Roundtrip
pub mod LongToken
