-- ===== src/Repository.antt =====
-- apps/api/src/repository.ts: the state of `InMemoryCalloraRepository`, one field for each of the
-- maps that the modelled operations read or write, and its id generator.

use cylizerapp.Base.{ℕ, suc, ◌+◌, String, Option, List, ◌≡◌, ◌≢◌, sym, ap, ◌∙◌, arith}
use Prim.Native.String.{◌++◌, count}
use text.Mathlib.TextLemmas.{length-append}
use cylizerapp.Base.Dict.{Dict}
use cylizerapp.Base.Text.{concat, pad_decimal}
use cylizerapp.Contracts.Organizations.{Organization, User}
use cylizerapp.Contracts.Employees.{Employee, EmployeeDevice}
use cylizerapp.Contracts.Calls.{CallLog}
use cylizerapp.Contracts.Leads.{LeadStatus, Lead, LeadNote, FollowUp, LeadActivity}
use cylizerapp.Contracts.LeadOperations.{
  CorrectCallLeadLinkResult, LeadAssignmentRule, ApplyLeadAssignmentRulesResult,
}
use cylizerapp.Contracts.Sync.{MobileCollectionMode, MobilePolicy, CallLogSyncResult}
use cylizerapp.Domain.{
  PairingCodeRecord, StoredDeviceCredential, StoredConsentReceipt, StoredMobileCredentialRequest,
  StoredPairingRedemption, StoredAdminDeviceRevocation, StoredAdminRecoveryOutboxEvent, AuditEvent,
}

-- A completed simulated-call request.
pub record IdempotencyRecord : Type 0 where
  pub fingerprint : String
  pub call_id : String

-- A completed batch of calls.
pub record StoredMobileBatch : Type 0 where
  pub payload_hash : String
  pub result : CallLogSyncResult

-- A completed application of the assignment rules.
pub record StoredApplyRequest : Type 0 where
  pub fingerprint : String
  pub result : ApplyLeadAssignmentRulesResult

-- A completed correction of a call's link.
pub record StoredCorrection : Type 0 where
  pub fingerprint : String
  pub result : CorrectCallLeadLinkResult

-- A completed update of a lead from a telephone, with the version in its receipt.
pub record StoredMobileLeadUpdate : Type 0 where
  pub fingerprint : String
  pub lead_id : String
  pub request_id : String
  pub applied_lead_version : ℕ

pub record Repository : Type 0 where
  -- the counter of `SequentialIdGenerator`
  pub id_value : ℕ
  pub organizations : Dict Organization
  pub users : Dict User
  pub employees : Dict Employee
  pub lead_statuses : Dict LeadStatus
  pub leads : Dict Lead
  pub lead_teams : Dict String
  pub lead_notes : Dict LeadNote
  pub lead_follow_ups : Dict FollowUp
  pub lead_activities : Dict LeadActivity
  pub lead_id_by_call_id : Dict String
  pub lead_assignment_rules : Dict LeadAssignmentRule
  pub lead_assignment_rule_teams : Dict String
  pub lead_assignment_rule_cursors : Dict ℕ
  pub lead_assignment_apply_requests : Dict StoredApplyRequest
  pub call_lead_correction_requests : Dict StoredCorrection
  pub mobile_lead_update_requests : Dict StoredMobileLeadUpdate
  pub devices : Dict EmployeeDevice
  pub devices_by_installation : Dict String
  pub pairing_codes_by_id : Dict PairingCodeRecord
  pub pairing_code_id_by_hash : Dict String
  pub calls : Dict CallLog
  pub call_id_by_external_id : Dict String
  pub call_fingerprint_by_external_id : Dict String
  pub idempotency : Dict IdempotencyRecord
  pub mobile_batches : Dict StoredMobileBatch
  pub device_credentials_by_hash : Dict StoredDeviceCredential
  pub device_credential_hash_by_id : Dict String
  pub active_consent_by_device : Dict StoredConsentReceipt
  pub credential_requests : Dict StoredMobileCredentialRequest
  pub pairing_redemptions : Dict StoredPairingRedemption
  pub admin_device_revocations : Dict StoredAdminDeviceRevocation
  pub admin_recovery_outbox_events : Dict StoredAdminRecoveryOutboxEvent
  pub device_collection_modes : Dict MobileCollectionMode
  pub mobile_policies : MobileCollectionMode → Option MobilePolicy
  pub audits : Dict (List AuditEvent)

-- `${prefix}_${String(value).padStart(6, "0")}` of the value after the increment; the fuel is
-- more than the number of its digits.
unfoldable pub next_id : String → Repository → String
next_id prefix s = concat prefix (concat "_" (pad_decimal (s.id_value + 7) 6 (suc s.id_value)))

-- `value += 1`.
abbrev pub tick_id : Repository → Repository
tick_id s = record s { id_value = suc s.id_value }

-- An id of a call is never the empty text.
pub call_id_named : (s : Repository) → next_id "call" s ≢ ""
unfolding next_id
call_id_named s e =
    let suffix = "_" ++ pad_decimal (s.id_value + 7) 6 (suc s.id_value) in
    let counted : 4 + count suffix ≡ 0 = sym (length-append "call" suffix) ∙ ap count e in
    absurd (omega (arith, counted))
