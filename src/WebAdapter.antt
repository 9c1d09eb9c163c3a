-- ===== src/WebAdapter.antt =====
-- searx/webadapter.py: the search query that the form of the web page and the preferences describe.
pub mod Types
pub mod Fields
pub mod Engines
pub mod Assemble
