-- ===== src/Mobile.antt =====
-- The mobile trust protocol of apps/api/src/repository.ts: pairing, activation, consent, session
-- rotation, heartbeat and revocation.
pub mod Credentials
pub mod Consent
pub mod PairingCheck
pub mod Pairing
pub mod Activation
pub mod Rotation
pub mod Revocation
pub mod AdminRevocation
pub mod Suspension
pub mod Heartbeat
pub mod Lifetime
pub mod Replay
pub mod Denial
pub mod Enrolment
pub mod Scenario
pub mod Tests
