-- ===== src/Profile.antt =====
-- internal/profile: the service that changes profiles.
pub mod Patch
pub mod Repository
pub mod Service
pub mod Handler
