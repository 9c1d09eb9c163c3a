-- ===== src/Plugins.antt =====
-- searx/plugins/_core.py and searx/answerers/_core.py: what is called around a search, and before it.
pub mod Storage
pub mod Answerers
