-- ===== src/Examples.antt =====
-- Pools, requests and keys on which the theorems are applied.
mod Library
mod Pools
mod Failures
mod Keys
mod Requests
mod Responses
mod Parsing
mod Replies
mod Buffers
