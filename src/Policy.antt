-- ===== src/Policy.antt =====
-- The policy package: wire format, cache, staleness, client and sync (src/edge/policy).
pub mod Bundle
pub mod Disk
pub mod Cache
pub mod Stale
pub mod Jwt
pub mod Client
pub mod Sync
