-- ===== src/Util.antt =====
-- src/whoosh/util: the encodings of numbers.
pub mod Varints
pub mod Times
pub mod Caches
pub mod Numeric
