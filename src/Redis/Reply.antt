-- ===== src/Redis/Reply.antt =====
-- redis_parse_rsp of src/proto/nc_redis.c.
pub mod State
pub mod Steps
pub mod Loop
pub mod Grow
pub mod Resume
pub mod Line
pub mod Bulk
pub mod Print
pub mod Elements
pub mod Lists
pub mod Roundtrip
