-- ===== src/Listing.antt =====
-- The listings of apps/api/src/repository.ts: `listCalls`, `listEmployees` and `listLeads`.
pub mod Orders
pub mod Calls
pub mod Employees
pub mod Leads
pub mod Scope
pub mod Scenario
pub mod Tests
