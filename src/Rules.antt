-- ===== src/Rules.antt =====
-- Assignment rules in apps/api/src/repository.ts: which rule a lead falls under, how rules are made
-- and changed, and how they are run.
pub mod Match
pub mod Edit
pub mod DryRun
pub mod Assign
pub mod Totals
pub mod Changes
pub mod Replay
pub mod Scenario
pub mod Tests
