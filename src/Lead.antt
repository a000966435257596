-- ===== src/Lead.antt =====
-- Leads in apps/api/src/repository.ts: who may see and change them, the changes under a version
-- number, notes and follow-ups.
pub mod Access
pub mod Scopes
pub mod Detail
pub mod Entries
pub mod Create
pub mod Update
pub mod MobileAdmit
pub mod MobileUpdate
pub mod MobileReplay
pub mod FollowUps
pub mod Changes
pub mod Creation
pub mod Schedule
pub mod Scenario
pub mod Tests
pub mod MobileTests
