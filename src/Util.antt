-- ===== src/Util.antt =====
-- The utilities of tlibc/ with logic of their own.
pub mod Wc
pub mod Seq
pub mod Mkdir
pub mod Kill
pub mod Cat
