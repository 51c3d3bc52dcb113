-- ===== src/Matching.antt =====
-- src/whoosh/matching: posting matchers. The interface, the specification, and one module for each
-- class.
pub mod Postings
pub mod Interface
pub mod Leaf
pub mod Union
pub mod Intersection
pub mod AndNot
pub mod AndMaybe
pub mod Filter
pub mod DisMax
pub mod Require
pub mod Inverse
pub mod Multi
mod Runs
