-- ===== src/Automata.antt =====
-- src/whoosh/automata: finite automata.
pub mod Labels
pub mod Nfa
pub mod Dfa
pub mod Subset
pub mod Build
pub mod Valid
pub mod Minimize
pub mod Product
pub mod Renumber
pub mod Strings
pub mod Levenshtein
pub mod Glob
pub mod Trials
pub mod Runs
