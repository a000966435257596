-- ===== src/Calls/Scenario.antt =====
-- Test data for the ingestion of calls: an activated telephone, a lead of its employee's team, and
-- reports of calls.
use cylizerapp.Base.{String, true, false, none, some, [], ◌∷◌}
use cylizerapp.Contracts.Calls.{CallDirection, CallDisposition}
use cylizerapp.Contracts.Sync.{CallLogSyncItem, MobileCollectionMode}
use cylizerapp.Domain.Calls.{MobileCallBatchOptions}
use cylizerapp.Repository.{Repository}
use cylizerapp.Mobile.Scenario.{active, session}
use cylizerapp.Domain.Operations.{CorrectCallLeadLinkOptions}
use cylizerapp.Lead.Scenario.{with_lead, north}
use cylizerapp.Calls.Correction.{correct_call_lead_link}
use cylizerapp.Calls.Batch.{ingest_mobile_call_batch}
use cylizerapp.Calls.Single.{IngestCallOptions, ingest_call}

-- The telephone is active, and there is one lead with the number +919800000000.
abbrev pub staffed : Repository
staffed = record active {
  lead_statuses = with_lead.lead_statuses;
  leads = with_lead.leads;
  lead_teams = with_lead.lead_teams;
}

abbrev pub report : CallLogSyncItem
report = record {
  local_id = "local_1";
  native_call_id = none;
  sim_card_id = none;
  phone_number = "+919800000000";
  contact_name = none;
  direction = CallDirection.outgoing;
  disposition = CallDisposition.answered;
  started_at = 3_200;
  answered_at = none;
  ended_at = none;
  duration_seconds = 30;
  ring_duration_seconds = none;
  is_internal = none;
  native_last_modified_at = none;
  recording_local_id = none;
}

-- The same call twice.
abbrev pub batch : MobileCallBatchOptions
batch = record {
  context = session;
  batch = record {
    schema_version = 1;
    collection_mode = MobileCollectionMode.synthetic_demo;
    batch_id = "batch_1";
    organization_id = "org_1";
    employee_id = "emp_1";
    device_id = "device_000008";
    sent_at = 3_300;
    previous_cursor = none;
    items = report ∷ report ∷ [];
  };
  payload_hash = "payload_1";
  next_cursor = "cursor_1";
  at = 3_400;
  allow_without_call_log_permission = true;
}

-- A digest of an item, for the tests.
abbrev pub digest : CallLogSyncItem → String
digest item = item.phone_number

abbrev pub simulated : IngestCallOptions
simulated = record {
  organization_id = "org_1";
  input = record {
    external_id = "ext_1";
    employee_id = "emp_1";
    device_id = none;
    direction = CallDirection.outgoing;
    disposition = CallDisposition.answered;
    phone_number = "+919800000000";
    display_name = none;
    is_internal = false;
    started_at = 3_200;
    answered_at = none;
    ended_at = none;
    duration_seconds = 30;
    ring_duration_seconds = none;
    is_within_working_hours = true;
  };
  idempotency_key = "key_1";
  fingerprint = "fp_1";
  actor_user_id = "user_1";
  at = 3_400;
}

abbrev pub after_call : Repository
after_call = (ingest_call staffed simulated).0

abbrev pub after_batch : Repository
after_batch = (ingest_mobile_call_batch digest staffed batch).0

-- The linked call is taken from its lead and given to none.
abbrev pub correction : CorrectCallLeadLinkOptions
correction = record {
  organization_id = "org_1";
  scope = north;
  call_id = "call_000009";
  input = record {
    request_id = "correct_1";
    expected_lead_id = some "lead_000008";
    replacement_lead_id = none;
    reason = "wrong number";
  };
  actor_user_id = "user_1";
  request_fingerprint = "fp_correct";
  at = 4_000;
}

abbrev pub after_correction : Repository
after_correction = (correct_call_lead_link after_call correction).0
