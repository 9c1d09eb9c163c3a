-- ===== src/Results.antt =====
-- searx/results.py and searx/result_types: the container that collects, merges and orders results.
pub mod Types
pub mod Answers
pub mod Merge
pub mod Infobox
pub mod Normalize
pub mod Container
pub mod Grouping
pub mod Ordered
