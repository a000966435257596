-- ===== src/Contracts.antt =====
-- packages/contracts/src: the data that the web, mobile and API parts share.
pub mod Organizations
pub mod Employees
pub mod Sync
pub mod Calls
pub mod Leads
pub mod LeadOperations
