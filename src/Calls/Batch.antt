-- ===== src/Calls/Batch.antt =====
-- `ingestMobileCallBatch` of apps/api/src/repository.ts: a device's batch of calls, each under its
-- local id. The digest of an item, `fingerprint` of apps/api/src/security.ts, is a parameter: it is
-- a call of the platform's SHA-256.
use cylizerapp.Base.{
  String, false, not, ◌||◌, none, some, List, [], ◌∷◌, str_eq, or_default, if◌then◌else◌,
}
use cylizerapp.Base.Dict.{get, set}
use cylizerapp.Base.Text.{key3, truthy, text_is}
use cylizerapp.Base.Outcome.{
  Outcome, done, throws, plain, conflict, consent_required, default_consent_message, once, run_if,
  and_then, require, throw_if, ◌>>=◌, ◌>>◌,
}
use cylizerapp.Contracts.Calls.{CallLog, CallSource, CallParticipant, RecordingStatus}
use cylizerapp.Contracts.Employees.{EmployeeDevice, DeviceSyncState, is_granted}
use cylizerapp.Contracts.Sync.{
  CallLogSyncItem, CallLogSyncItemResult, CallLogSyncResult, SyncItemOutcome,
}
use cylizerapp.Domain.{DeviceCredentialType}
use cylizerapp.Domain.Calls.{MobileCallBatchOptions}
use cylizerapp.Repository.{Repository, StoredMobileBatch, next_id, tick_id}
use cylizerapp.Mobile.Credentials.{
  CurrentCredential, find_current_mobile_credential, is_consent_current,
}
use cylizerapp.Calls.Link.{link_call_to_unique_lead}

abbrev pub batch_key : MobileCallBatchOptions → String
batch_key o = key3 o.context.organization_id o.context.device_id o.batch.batch_id

abbrev pub item_key : MobileCallBatchOptions → CallLogSyncItem → String
item_key o item = key3 o.context.organization_id o.context.device_id item.local_id

abbrev participant_of : CallLogSyncItem → CallParticipant
participant_of item = record {
  phone_number = item.phone_number;
  display_name = item.contact_name;
  contact_id = none;
  is_internal = or_default item.is_internal false;
}

-- The call as a later report of it has it.
unfoldable pub updated_call : MobileCallBatchOptions → CallLogSyncItem → CallLog → CallLog
updated_call o item call = record call {
  direction = item.direction;
  disposition = item.disposition;
  participant = participant_of item;
  started_at = item.started_at;
  duration_seconds = item.duration_seconds;
  updated_at = o.at;
  answered_at = item.answered_at;
  ended_at = item.ended_at;
  ring_duration_seconds = item.ring_duration_seconds;
}

unfoldable pub reported_call : Repository → MobileCallBatchOptions → CallLogSyncItem → CallLog
unfolding next_id
reported_call s o item = record {
  id = next_id "call" s;
  organization_id = o.context.organization_id;
  employee_id = o.context.employee_id;
  device_id = some o.context.device_id;
  sim_card_id = item.sim_card_id;
  external_id = some item.local_id;
  source = CallSource.mobile_call_log;
  direction = item.direction;
  disposition = item.disposition;
  participant = participant_of item;
  started_at = item.started_at;
  answered_at = item.answered_at;
  ended_at = item.ended_at;
  duration_seconds = item.duration_seconds;
  ring_duration_seconds = item.ring_duration_seconds;
  is_within_working_hours = false;
  recording_status = RecordingStatus.not_expected;
  recording_id = none;
  lead_id = none;
  note_count = 0;
  is_pinned = false;
  created_at = o.at;
  updated_at = o.at;
  created_by = none;
  updated_by = none;
}

abbrev pub item_result : CallLogSyncItem → SyncItemOutcome → CallLog → CallLogSyncItemResult
item_result item outcome call = record {
  local_id = item.local_id;
  outcome = outcome;
  call_log_id = some call.id;
  code = none;
  message = none;
  retryable = none;
}

unfoldable pub store_update :
    Repository → MobileCallBatchOptions → CallLogSyncItem → String → String → CallLog → Repository
store_update s o item fingerprint call_id call =
    link_call_to_unique_lead
      (record s {
        calls = set call_id call s.calls;
        call_fingerprint_by_external_id =
            set (item_key o item) fingerprint s.call_fingerprint_by_external_id;
      })
      call o.at

unfoldable pub store_report :
    Repository → MobileCallBatchOptions → CallLogSyncItem → String → CallLog → Repository
store_report s o item fingerprint call =
    link_call_to_unique_lead
      (record (tick_id s) {
        calls = set call.id call s.calls;
        call_id_by_external_id = set (item_key o item) call.id s.call_id_by_external_id;
        call_fingerprint_by_external_id =
            set (item_key o item) fingerprint s.call_fingerprint_by_external_id;
      })
      call o.at

-- A call that was reported before, whose digest is `fingerprint` now.
unfoldable pub repeat_item :
    Repository
    → MobileCallBatchOptions
    → CallLogSyncItem
    → String
    → String
    → Repository × Outcome CallLogSyncItemResult
repeat_item s o item fingerprint prior_call_id = elim (get prior_call_id s.calls) [
  | none ↦ (s, throws (plain "In-memory mobile external ID record is corrupt"))
  | some call ↦
      if text_is (get (item_key o item) s.call_fingerprint_by_external_id) fingerprint
      then (s, done (item_result item SyncItemOutcome.duplicate call))
      else (
        store_update s o item fingerprint prior_call_id (updated_call o item call),
        done (item_result item SyncItemOutcome.updated (updated_call o item call)),
      )
]

unfoldable pub create_item :
    Repository
    → MobileCallBatchOptions
    → CallLogSyncItem
    → String
    → Repository × Outcome CallLogSyncItemResult
create_item s o item fingerprint =
    let call = reported_call s o item in
    (store_report s o item fingerprint call, done (item_result item SyncItemOutcome.created call))

unfoldable pub ingest_item :
    (CallLogSyncItem → String)
    → Repository
    → MobileCallBatchOptions
    → CallLogSyncItem
    → Repository × Outcome CallLogSyncItemResult
ingest_item fingerprint s o item = elim (truthy (get (item_key o item) s.call_id_by_external_id)) [
  | none ↦ create_item s o item (fingerprint item)
  | some prior_call_id ↦ repeat_item s o item (fingerprint item) prior_call_id
]

-- The loop over the items; what an item changed stays when a later one throws.
unfoldable pub ingest_items :
    (CallLogSyncItem → String)
    → Repository
    → MobileCallBatchOptions
    → List CallLogSyncItem
    → Repository × Outcome (List CallLogSyncItemResult)
ingest_items fingerprint s o [] = (s, done [])
ingest_items fingerprint s o (item ∷ items) =
    and_then (ingest_item fingerprint s o item) (λ t result.
      and_then (ingest_items fingerprint t o items) (λ u results. (u, done (result ∷ results))))

unfoldable pub admit_batch : Repository → MobileCallBatchOptions → Outcome CurrentCredential
admit_batch s o = do
  current ← find_current_mobile_credential s o.context DeviceCredentialType.session o.at
  throw_if (not (is_consent_current s o.context.device_id))
      (consent_required default_consent_message)
  require (is_granted current.device.permissions.call_log || o.allow_without_call_log_permission)
  done current

unfoldable pub replay_batch : MobileCallBatchOptions → StoredMobileBatch → Outcome CallLogSyncResult
replay_batch o prior =
    if str_eq prior.payload_hash o.payload_hash
    then done prior.result
    else throws (conflict "The batch ID was already used with a different payload")

unfoldable pub synchronized_device : MobileCallBatchOptions → EmployeeDevice → EmployeeDevice
synchronized_device o device = record device {
  last_successful_sync_at = some o.at;
  last_seen_at = some o.at;
  sync_state = DeviceSyncState.idle;
  updated_at = o.at;
}

abbrev pub batch_result : MobileCallBatchOptions → List CallLogSyncItemResult → CallLogSyncResult
batch_result o results = record {
  batch_id = o.batch.batch_id;
  accepted_at = o.at;
  next_cursor = o.next_cursor;
  items = results;
  server_time = o.at;
}

unfoldable pub complete_batch :
    Repository
    → MobileCallBatchOptions
    → EmployeeDevice
    → List CallLogSyncItemResult
    → Repository × Outcome CallLogSyncResult
unfolding synchronized_device
complete_batch s o device results = (
  record s {
    devices = set o.context.device_id (synchronized_device o device) s.devices;
    mobile_batches =
        set (batch_key o)
          (record { payload_hash = o.payload_hash; result = batch_result o results })
          s.mobile_batches;
  },
  done (batch_result o results),
)

unfoldable pub ingest_new_batch :
    (CallLogSyncItem → String)
    → Repository
    → MobileCallBatchOptions
    → EmployeeDevice
    → Repository × Outcome CallLogSyncResult
ingest_new_batch fingerprint s o device =
    and_then (ingest_items fingerprint s o o.batch.items)
      (λ t results. complete_batch t o device results)

unfoldable pub ingest_mobile_call_batch :
    (CallLogSyncItem → String)
    → Repository
    → MobileCallBatchOptions
    → Repository × Outcome CallLogSyncResult
ingest_mobile_call_batch fingerprint s o = run_if s (admit_batch s o) (λ current.
    once s (get (batch_key o) s.mobile_batches) (replay_batch o)
      (ingest_new_batch fingerprint s o current.device))
