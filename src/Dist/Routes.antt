-- ===== src/Dist/Routes.antt =====
-- A continuum that routes to live servers only, and the loop that fills one.
pub mod Modula
pub mod Points
pub mod Random
pub mod Ketama
pub mod Defs
