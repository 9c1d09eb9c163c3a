-- ===== src/Settings.antt =====
-- settings_loader.py: the default settings, the user's, and how they are merged.
pub mod Engines
pub mod Merge
pub mod Load
pub mod Schema
