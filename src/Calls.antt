-- ===== src/Calls.antt =====
-- Calls in apps/api/src/repository.ts: one call, a device's batch of calls, their link to a lead and
-- its correction.
pub mod Link
pub mod Single
pub mod Batch
pub mod Correction
pub mod Corrected
pub mod Index
pub mod Register
pub mod Refinement
pub mod Again
pub mod Frame
pub mod Resend
pub mod Totality
pub mod Links
pub mod Scenario
pub mod Tests
