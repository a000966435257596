-- ===== src/Contracts/Sync.antt =====
-- packages/contracts/src/sync.ts: collection policies, consent and call batches. The one
-- `purpose` there is, "call_metadata", is left out.
use cylizerapp.Base.{ℕ, String, Option, List, Bool, true, false}
use cylizerapp.Contracts.Organizations.{IsoDateTime}
use cylizerapp.Contracts.Employees.{DevicePermissions, DeviceSyncState, NetworkType}
use cylizerapp.Contracts.Calls.{CallDirection, CallDisposition}

pub data MobileCollectionMode : Type 0 where
  android_call_log synthetic_demo : MobileCollectionMode

abbrev pub same_mode : MobileCollectionMode → MobileCollectionMode → Bool
same_mode MobileCollectionMode.android_call_log MobileCollectionMode.android_call_log = true
same_mode MobileCollectionMode.synthetic_demo MobileCollectionMode.synthetic_demo = true
same_mode _ _ = false

pub record MobilePolicyReference : Type 0 where
  pub id : String
  pub content_hash : String

pub record MobilePolicy : Type 0 where
  pub id : String
  pub content_hash : String
  pub policy_version : String
  pub disclosure_version : String
  pub collection_mode : MobileCollectionMode
  pub title : String
  pub summary : String
  pub disclosures : List String
  pub effective_at : IsoDateTime

pub record MobileConsentReceiptInput : Type 0 where
  pub accepted_at : IsoDateTime
  pub locale : Option String

pub record MobileActivationInput : Type 0 where
  pub request_id : String
  pub proposed_session_credential : String
  pub policy : MobilePolicyReference
  pub consent : MobileConsentReceiptInput
  pub permissions : DevicePermissions

pub record MobileReconsentInput : Type 0 where
  pub request_id : String
  pub policy : MobilePolicyReference
  pub consent : MobileConsentReceiptInput
  pub permissions : DevicePermissions

pub data MobileDirective : Type 0 where
  sync_now : Option String → MobileDirective
  refresh_configuration : MobileDirective
  -- the policy's id and content hash, and the reason
  require_consent : String → String → String → MobileDirective
  update_required : String → String → MobileDirective
  pause_recording_uploads : Option IsoDateTime → String → MobileDirective
  device_revoked : String → MobileDirective

pub record DeviceHeartbeat : Type 0 where
  pub app_version : String
  pub os_version : String
  pub sync_state : DeviceSyncState
  pub permissions : DevicePermissions
  pub observed_at : IsoDateTime
  pub battery_percent : Option ℕ
  pub is_charging : Option Bool
  pub network_type : Option NetworkType
  pub pending_call_count : ℕ
  pub pending_recording_count : ℕ

pub record CallLogSyncItem : Type 0 where
  pub local_id : String
  pub native_call_id : Option String
  pub sim_card_id : Option String
  pub phone_number : String
  pub contact_name : Option String
  pub direction : CallDirection
  pub disposition : CallDisposition
  pub started_at : IsoDateTime
  pub answered_at : Option IsoDateTime
  pub ended_at : Option IsoDateTime
  pub duration_seconds : ℕ
  pub ring_duration_seconds : Option ℕ
  pub is_internal : Option Bool
  pub native_last_modified_at : Option IsoDateTime
  pub recording_local_id : Option String

pub record CallLogSyncBatch : Type 0 where
  pub schema_version : ℕ
  pub collection_mode : MobileCollectionMode
  pub batch_id : String
  pub organization_id : String
  pub employee_id : String
  pub device_id : String
  pub sent_at : IsoDateTime
  pub previous_cursor : Option String
  pub items : List CallLogSyncItem

pub data SyncItemOutcome : Type 0 where
  created updated duplicate rejected : SyncItemOutcome

pub record CallLogSyncItemResult : Type 0 where
  pub local_id : String
  pub outcome : SyncItemOutcome
  pub call_log_id : Option String
  pub code : Option String
  pub message : Option String
  pub retryable : Option Bool

pub record CallLogSyncResult : Type 0 where
  pub batch_id : String
  pub accepted_at : IsoDateTime
  pub next_cursor : String
  pub items : List CallLogSyncItemResult
  pub server_time : IsoDateTime
