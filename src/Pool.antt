-- ===== src/Pool.antt =====
-- The server pool of src/nc_server.c: which server a key goes to, and how servers fail and return.
pub mod Route
pub mod Failure
pub mod Tag
pub mod Run
pub mod Live
pub mod Eject
pub mod Retry
pub mod Streak
