-- ===== src/Limiter.antt =====
-- The bounded attempt limiter, `PairingAttemptLimiter` of apps/api/src/security.ts.
pub mod Attempts
pub mod Bounds
pub mod Use
pub mod Waiting
pub mod Tests
