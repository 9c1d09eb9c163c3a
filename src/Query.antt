-- ===== src/Query.antt =====
-- searx/query.py: the query that a user types, with its commands for engines, languages, timeouts
-- and bangs.
pub mod Types
pub mod Language
pub mod Commands
pub mod Raw
