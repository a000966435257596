-- ===== src/Calls/Single.antt =====
-- `ingestCall` of apps/api/src/repository.ts: one call under an idempotency key and an external id.
use cylizerapp.Base.{
  String, Bool, false, not, Option, none, some, str_eq, or_default, if◌then◌else◌,
}
use cylizerapp.Base.Dict.{get, set}
use cylizerapp.Base.Text.{key2, key3, truthy}
use cylizerapp.Base.Outcome.{Outcome, done, throws, plain, once}
use cylizerapp.Contracts.Organizations.{IsoDateTime}
use cylizerapp.Contracts.Calls.{CallLog, CallSource, RecordingStatus}
use cylizerapp.Domain.Calls.{SimulatedCallInput, IngestCallResult}
use cylizerapp.Repository.{Repository, IdempotencyRecord, next_id, tick_id}
use cylizerapp.Calls.Link.{link_call_to_unique_lead}

pub record IngestCallOptions : Type 0 where
  pub organization_id : String
  pub input : SimulatedCallInput
  pub idempotency_key : String
  pub fingerprint : String
  pub actor_user_id : String
  pub at : IsoDateTime

abbrev pub idempotency_map_key : IngestCallOptions → String
idempotency_map_key o = key2 o.organization_id o.idempotency_key

abbrev pub external_map_key : IngestCallOptions → String
external_map_key o =
    key3 o.organization_id (or_default o.input.device_id "simulated") o.input.external_id

unfoldable pub new_call : Repository → IngestCallOptions → CallLog
unfolding next_id
new_call s o = record {
  id = next_id "call" s;
  organization_id = o.organization_id;
  employee_id = o.input.employee_id;
  device_id = o.input.device_id;
  sim_card_id = none;
  external_id = some o.input.external_id;
  source = CallSource.manual;
  direction = o.input.direction;
  disposition = o.input.disposition;
  participant = record {
    phone_number = o.input.phone_number;
    display_name = o.input.display_name;
    contact_id = none;
    is_internal = o.input.is_internal;
  };
  started_at = o.input.started_at;
  answered_at = o.input.answered_at;
  ended_at = o.input.ended_at;
  duration_seconds = o.input.duration_seconds;
  ring_duration_seconds = o.input.ring_duration_seconds;
  is_within_working_hours = o.input.is_within_working_hours;
  recording_status = RecordingStatus.not_expected;
  recording_id = none;
  lead_id = none;
  note_count = 0;
  is_pinned = false;
  created_at = o.at;
  updated_at = o.at;
  created_by = some o.actor_user_id;
  updated_by = some o.actor_user_id;
}

-- A request under a used idempotency key.
unfoldable pub replay_call :
    Repository → IngestCallOptions → IdempotencyRecord → Outcome IngestCallResult
replay_call s o prior = elim (get prior.call_id s.calls) [
  | none ↦ throws (plain "In-memory idempotency record is corrupt")
  | some call ↦
      let same = str_eq prior.fingerprint o.fingerprint in
      done (record { call = call; duplicate = same; conflict = not same })
]

unfoldable pub remember : Repository → IngestCallOptions → String → Repository
remember s o call_id = record s {
  idempotency =
      set (idempotency_map_key o) (record { fingerprint = o.fingerprint; call_id = call_id })
        s.idempotency;
}

abbrev pub differs : Option String → String → Bool
differs none text = false
differs (some found) text = not (str_eq found text)

-- A new request for a call that is stored already.
unfoldable pub repeat_external :
    Repository → IngestCallOptions → String → Repository × Outcome IngestCallResult
unfolding remember
repeat_external s o prior_call_id = elim (get prior_call_id s.calls) [
  | none ↦ (s, throws (plain "In-memory external ID record is corrupt"))
  | some call ↦
      let is_conflict =
        differs (get (external_map_key o) s.call_fingerprint_by_external_id) o.fingerprint in
      (
        if is_conflict then s else remember s o call.id,
        done (record { call = call; duplicate = not is_conflict; conflict = is_conflict }),
      )
]

unfoldable pub store_call : Repository → IngestCallOptions → CallLog → Repository
unfolding remember
store_call s o call =
    remember
      (record (tick_id s) {
        calls = set call.id call s.calls;
        call_id_by_external_id = set (external_map_key o) call.id s.call_id_by_external_id;
        call_fingerprint_by_external_id =
            set (external_map_key o) o.fingerprint s.call_fingerprint_by_external_id;
      })
      o call.id

unfoldable pub create_call : Repository → IngestCallOptions → Repository × Outcome IngestCallResult
create_call s o =
    let call = new_call s o in
    (
      link_call_to_unique_lead (store_call s o call) call o.at,
      done (record { call = call; duplicate = false; conflict = false }),
    )

unfoldable pub ingest_fresh : Repository → IngestCallOptions → Repository × Outcome IngestCallResult
ingest_fresh s o = elim (truthy (get (external_map_key o) s.call_id_by_external_id)) [
  | none ↦ create_call s o
  | some prior_call_id ↦ repeat_external s o prior_call_id
]

unfoldable pub ingest_call : Repository → IngestCallOptions → Repository × Outcome IngestCallResult
ingest_call s o =
    once s (get (idempotency_map_key o) s.idempotency) (replay_call s o) (ingest_fresh s o)
