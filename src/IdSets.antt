-- ===== src/IdSets.antt =====
-- src/whoosh/idsets.py: sets of document numbers.
pub mod BitSet
pub mod SortedSet
