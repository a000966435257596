-- ===== src/Domain/Calls.antt =====
-- apps/api/src/domain.ts: the inputs, filters and cursors of calls.
use cylizerapp.Base.{ℕ, String, Option, Bool}
use cylizerapp.Contracts.Organizations.{IsoDateTime}
use cylizerapp.Contracts.Calls.{CallDirection, CallDisposition, CallLog}
use cylizerapp.Contracts.Sync.{CallLogSyncBatch}
use cylizerapp.Domain.{MobileDeviceContext}

pub record SimulatedCallInput : Type 0 where
  pub external_id : String
  pub employee_id : String
  pub device_id : Option String
  pub direction : CallDirection
  pub disposition : CallDisposition
  pub phone_number : String
  pub display_name : Option String
  pub is_internal : Bool
  pub started_at : IsoDateTime
  pub answered_at : Option IsoDateTime
  pub ended_at : Option IsoDateTime
  pub duration_seconds : ℕ
  pub ring_duration_seconds : Option ℕ
  pub is_within_working_hours : Bool

pub record IngestCallResult : Type 0 where
  pub call : CallLog
  pub duplicate : Bool
  pub conflict : Bool

pub record MobileCallBatchOptions : Type 0 where
  pub context : MobileDeviceContext
  pub batch : CallLogSyncBatch
  pub payload_hash : String
  pub next_cursor : String
  pub at : IsoDateTime
  pub allow_without_call_log_permission : Bool
