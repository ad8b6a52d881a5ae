-- ===== src/Hashkit.antt =====
-- src/hashkit: the key hashes. A key is the list of its bytes, each below 256.
pub mod Crc16
pub mod Crc32
pub mod Fnv
pub mod OneAtATime
pub mod Hsieh
pub mod Murmur
pub mod Bounds
pub mod Crc
