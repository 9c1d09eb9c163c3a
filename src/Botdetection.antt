-- ===== src/Botdetection.antt =====
-- searx/botdetection: who is blocked before a search.
pub mod Config
pub mod Net
pub mod IpLists
pub mod Headers
pub mod Valkey
pub mod LinkToken
pub mod IpLimit
pub mod TrustedProxies
