-- ===== src/Domain.antt =====
-- apps/api/src/domain.ts and the stored records of apps/api/src/repository.ts: pairing codes,
-- device credentials, consent receipts, request records and what the operations return.
pub mod Calls
pub mod Listing
pub mod Operations
use cylizerapp.Base.{ℕ, String, Option, List, Bool, true, false}
use cylizerapp.Base.Dict.{Dict}
use cylizerapp.Contracts.Leads.{JsonValue}
use cylizerapp.Contracts.Organizations.{IsoDateTime}
use cylizerapp.Contracts.Employees.{EmployeeDevice, DevicePermissions, MobilePlatform}
use cylizerapp.Contracts.Sync.{MobileCollectionMode, MobilePolicyReference}

pub data LeadAccessScope : Type 0 where
  organization : LeadAccessScope
  teams : List String → LeadAccessScope
  assigned : String → LeadAccessScope

pub data DeviceCredentialType : Type 0 where
  bootstrap session : DeviceCredentialType

pub data DeviceCredentialState : Type 0 where
  active pending consumed revoked : DeviceCredentialState

pub record PairingCodeRecord : Type 0 where
  pub id : String
  pub code_hash : String
  pub code_last_four : String
  pub organization_id : String
  pub employee_id : String
  pub created_at : IsoDateTime
  pub expires_at : IsoDateTime
  pub created_by_user_id : String
  pub collection_mode : MobileCollectionMode
  pub consumed_at : Option IsoDateTime
  pub revoked_at : Option IsoDateTime

pub record DeviceRegistration : Type 0 where
  pub installation_id : String
  pub platform : MobilePlatform
  pub manufacturer : Option String
  pub model : Option String
  pub os_version : String
  pub app_version : String
  pub collection_mode : MobileCollectionMode
  pub permissions : DevicePermissions

pub record NewDeviceCredential : Type 0 where
  pub id : String
  pub token_hash : String
  pub expires_at : IsoDateTime
  pub credential_type : DeviceCredentialType
  pub rotated_from_credential_id : Option String
  pub request_id : String
  pub lifecycle_state : DeviceCredentialState

pub record StoredDeviceCredential : Type 0 where
  pub id : String
  pub token_hash : String
  pub expires_at : IsoDateTime
  pub credential_type : DeviceCredentialType
  pub rotated_from_credential_id : Option String
  pub request_id : String
  pub lifecycle_state : DeviceCredentialState
  pub organization_id : String
  pub employee_id : String
  pub device_id : String
  pub created_at : IsoDateTime
  pub consumed_at : Option IsoDateTime
  pub revoked_at : Option IsoDateTime

pub record StoredConsentReceipt : Type 0 where
  pub organization_id : String
  pub employee_id : String
  pub device_id : String
  pub policy_id : String
  pub policy_content_hash : String
  pub policy_version : String
  pub disclosure_version : String
  pub permissions : DevicePermissions
  pub accepted_at : IsoDateTime
  pub recorded_at : IsoDateTime
  pub locale : Option String
  pub withdrawn_at : Option IsoDateTime

pub record MobileDeviceContext : Type 0 where
  pub credential_id : String
  pub credential_type : DeviceCredentialType
  pub organization_id : String
  pub employee_id : String
  pub device_id : String
  pub installation_id : String
  pub collection_mode : MobileCollectionMode
  pub permissions : DevicePermissions
  pub credential_state : DeviceCredentialState
  pub consent_current : Bool
  pub authenticated_replay : Bool

pub data PairingOutcome : Type 0 where
  redeemed not_found expired revoked consumed installation_conflict : PairingOutcome

pub record PairingRedemptionResult : Type 0 where
  pub outcome : PairingOutcome
  pub pairing : Option PairingCodeRecord
  pub device : Option EmployeeDevice
  pub bootstrap_expires_at : Option IsoDateTime
  pub replayed : Option Bool

pub record StoredPairingRedemption : Type 0 where
  pub request_id : String
  pub code_hash : String
  pub request_fingerprint : String
  pub result : PairingRedemptionResult

pub data MobileCredentialOperation : Type 0 where
  activate reconsent rotation_prepare rotation_confirm revoke : MobileCredentialOperation

-- The part of a request key that names the operation.
abbrev pub operation_text : MobileCredentialOperation → String
operation_text MobileCredentialOperation.activate = "activate"
operation_text MobileCredentialOperation.reconsent = "reconsent"
operation_text MobileCredentialOperation.rotation_prepare = "rotation_prepare"
operation_text MobileCredentialOperation.rotation_confirm = "rotation_confirm"
operation_text MobileCredentialOperation.revoke = "revoke"

-- The five result types, as the one union that a stored `response` holds.
pub data MobileResponse : Type 0 where
  activated : EmployeeDevice → IsoDateTime → MobilePolicyReference → Bool → MobileResponse
  reconsented : EmployeeDevice → MobilePolicyReference → IsoDateTime → Bool → MobileResponse
  rotation_prepared : String → IsoDateTime → IsoDateTime → Bool → MobileResponse
  rotation_confirmed : String → IsoDateTime → IsoDateTime → Bool → MobileResponse
  session_revoked : String → IsoDateTime → IsoDateTime → Bool → MobileResponse

-- `{ ...response, replayed: true }`.
abbrev pub as_replayed : MobileResponse → MobileResponse
as_replayed (activated device expires policy _) = activated device expires policy true
as_replayed (reconsented device policy at _) = reconsented device policy at true
as_replayed (rotation_prepared request expires at _) = rotation_prepared request expires at true
as_replayed (rotation_confirmed request expires at _) = rotation_confirmed request expires at true
as_replayed (session_revoked device at withdrawn _) = session_revoked device at withdrawn true

pub record StoredMobileCredentialRequest : Type 0 where
  pub request_id : String
  pub organization_id : String
  pub employee_id : String
  pub device_id : String
  pub credential_id : String
  pub operation : MobileCredentialOperation
  pub request_fingerprint : String
  pub proposed_token_hash : Option String
  pub response : MobileResponse
  pub completed_at : IsoDateTime

pub record AdminRevokeDeviceResult : Type 0 where
  pub device_id : String
  pub employee_id : String
  pub revoked_at : IsoDateTime
  pub reason : String
  pub revoked_credential_count : ℕ
  pub consent_withdrawn : Bool
  pub replayed : Bool

pub record StoredAdminDeviceRevocation : Type 0 where
  pub organization_id : String
  pub device_id : String
  pub actor_user_id : String
  pub request_fingerprint : String
  pub result : AdminRevokeDeviceResult

pub record StoredAdminRecoveryOutboxEvent : Type 0 where
  pub id : String
  pub organization_id : String
  pub request_id : String
  pub device_id : String
  pub event_type : String

pub data AuditEntityType : Type 0 where
  employee device pairing_code call session lead follow_up : AuditEntityType
  lead_import assignment_rule call_lead_link : AuditEntityType

pub record AuditEvent : Type 0 where
  pub id : String
  pub organization_id : String
  pub actor_user_id : Option String
  pub actor_device_id : Option String
  pub request_id : Option String
  pub action : String
  pub entity_type : AuditEntityType
  pub entity_id : String
  pub occurred_at : IsoDateTime
  pub metadata : Dict JsonValue

abbrev pub same_type : DeviceCredentialType → DeviceCredentialType → Bool
same_type DeviceCredentialType.bootstrap DeviceCredentialType.bootstrap = true
same_type DeviceCredentialType.session DeviceCredentialType.session = true
same_type _ _ = false

abbrev pub same_state : DeviceCredentialState → DeviceCredentialState → Bool
same_state DeviceCredentialState.active DeviceCredentialState.active = true
same_state DeviceCredentialState.pending DeviceCredentialState.pending = true
same_state DeviceCredentialState.consumed DeviceCredentialState.consumed = true
same_state DeviceCredentialState.revoked DeviceCredentialState.revoked = true
same_state _ _ = false
