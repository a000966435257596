-- ===== src/Analytics.antt =====
-- The figures about calls in apps/api/src/analytics.ts.
pub mod Figures
pub mod Consistency
pub mod Tests
