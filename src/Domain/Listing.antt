-- ===== src/Domain/Listing.antt =====
-- apps/api/src/domain.ts: the filters and cursors of the listings.
use cylizerapp.Base.{String, Option}
use cylizerapp.Contracts.Organizations.{IsoDateTime}
use cylizerapp.Contracts.Employees.{EmployeeStatus}
use cylizerapp.Contracts.Calls.{CallDirection, CallDisposition}
use cylizerapp.Contracts.Leads.{LeadQueueKey}

pub record CallCursor : Type 0 where
  pub started_at : IsoDateTime
  pub id : String

pub record EmployeeCursor : Type 0 where
  pub display_name : String
  pub id : String

pub record LeadCursor : Type 0 where
  pub created_at : IsoDateTime
  pub id : String

pub record LeadListFilter : Type 0 where
  pub search : Option String
  pub status_id : Option String
  pub assigned_employee_id : Option String
  pub queue : LeadQueueKey

pub record EmployeeListFilter : Type 0 where
  pub search : Option String
  pub status : Option EmployeeStatus
  pub team : Option String

pub record CallListFilter : Type 0 where
  pub employee_id : Option String
  pub direction : Option CallDirection
  pub disposition : Option CallDisposition
  pub from : Option IsoDateTime
  pub to : Option IsoDateTime
