-- ===== src/Contracts/Calls.antt =====
-- packages/contracts/src/calls.ts: normalized call events.
use cylizerapp.Base.{ℕ, String, Option, Bool, true, false}
use cylizerapp.Contracts.Organizations.{IsoDateTime}

pub data CallDirection : Type 0 where
  incoming outgoing : CallDirection

pub data CallDisposition : Type 0 where
  answered missed rejected busy blocked voicemail unknown : CallDisposition

pub data CallSource : Type 0 where
  mobile_call_log manual telephony_provider import_file : CallSource

pub data RecordingStatus : Type 0 where
  not_expected pending uploading available failed deleted : RecordingStatus

pub record CallParticipant : Type 0 where
  pub phone_number : String
  pub display_name : Option String
  pub contact_id : Option String
  pub is_internal : Bool

pub record CallLog : Type 0 where
  pub id : String
  pub organization_id : String
  pub employee_id : String
  pub device_id : Option String
  pub sim_card_id : Option String
  pub external_id : Option String
  pub source : CallSource
  pub direction : CallDirection
  pub disposition : CallDisposition
  pub participant : CallParticipant
  pub started_at : IsoDateTime
  pub answered_at : Option IsoDateTime
  pub ended_at : Option IsoDateTime
  pub duration_seconds : ℕ
  pub ring_duration_seconds : Option ℕ
  pub is_within_working_hours : Bool
  pub recording_status : RecordingStatus
  pub recording_id : Option String
  pub lead_id : Option String
  pub note_count : ℕ
  pub is_pinned : Bool
  pub created_at : IsoDateTime
  pub updated_at : IsoDateTime
  pub created_by : Option String
  pub updated_by : Option String

abbrev pub is_incoming : CallDirection → Bool
is_incoming CallDirection.incoming = true
is_incoming CallDirection.outgoing = false

abbrev pub is_outgoing : CallDirection → Bool
is_outgoing CallDirection.incoming = false
is_outgoing CallDirection.outgoing = true

abbrev pub is_answered : CallDisposition → Bool
is_answered CallDisposition.answered = true
is_answered _ = false

abbrev pub is_missed : CallDisposition → Bool
is_missed CallDisposition.missed = true
is_missed _ = false

abbrev pub is_rejected : CallDisposition → Bool
is_rejected CallDisposition.rejected = true
is_rejected _ = false

-- `["missed", "busy", "voicemail"].includes(disposition)`.
abbrev pub is_unreached : CallDisposition → Bool
is_unreached CallDisposition.missed = true
is_unreached CallDisposition.busy = true
is_unreached CallDisposition.voicemail = true
is_unreached _ = false

-- The values as the texts that they are on the wire.
abbrev pub direction_text : CallDirection → String
direction_text CallDirection.incoming = "incoming"
direction_text CallDirection.outgoing = "outgoing"

abbrev pub disposition_text : CallDisposition → String
disposition_text CallDisposition.answered = "answered"
disposition_text CallDisposition.missed = "missed"
disposition_text CallDisposition.rejected = "rejected"
disposition_text CallDisposition.busy = "busy"
disposition_text CallDisposition.blocked = "blocked"
disposition_text CallDisposition.voicemail = "voicemail"
disposition_text CallDisposition.unknown = "unknown"
