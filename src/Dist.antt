-- ===== src/Dist.antt =====
-- The distributions of src/hashkit: ketama, modula and random.
pub mod Census
pub mod Cursor
pub mod Ketama
pub mod Modula
pub mod Random
pub mod Search
pub mod Fill
pub mod CensusLaws
pub mod Share
pub mod Sort
pub mod Routes
