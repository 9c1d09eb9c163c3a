-- ===== src/Search.antt =====
-- searx/search: the engine processors and the choice of the engines that a query is sent to.
pub mod Suspended
pub mod Processor
pub mod Requests
pub mod Threads
pub mod Whole
