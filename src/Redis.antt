-- ===== src/Redis.antt =====
-- src/proto/nc_redis.c.
pub mod Tables
pub mod Shapes
pub mod Commands
pub mod Letters
pub mod Names
pub mod Parse
pub mod Print
pub mod Reply
