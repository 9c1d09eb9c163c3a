-- ===== src/Tests.antt =====
-- The theorems at concrete inputs, and runs of the code.
mod Samples
mod Botdetection
mod Results
mod Query
mod WebAdapter
mod Search
mod Threads
mod Preferences
mod Config
mod Settings
mod Plugins
mod Schema
mod JsonEngine
