-- ===== src/Calls/Correction.antt =====
-- `correctCallLeadLink` of apps/api/src/repository.ts: a call is taken from a lead and given to
-- another, or to none.
use cylizerapp.Base.{
  String, Bool, true, false, not, ◌&&◌, Option, none, some, [], ◌∷◌, str_eq, is_some, if◌then◌else◌,
}
use cylizerapp.Base.Dict.{Dict, get, set, remove}
use cylizerapp.Base.Text.{key2, truthy}
use cylizerapp.Base.Outcome.{
  Outcome, done, throws, conflict, commit_if, once, lookup_or_missing, require, throw_if, ◌>>=◌,
  ◌>>◌,
}
use cylizerapp.Contracts.Calls.{CallLog}
use cylizerapp.Contracts.Leads.{Lead, LeadActivityKind, JsonValue}
use cylizerapp.Contracts.LeadOperations.{CorrectCallLeadLinkResult}
use cylizerapp.Domain.Operations.{CorrectCallLeadLinkOptions}
use cylizerapp.Repository.{Repository, StoredCorrection, next_id, tick_id}
use cylizerapp.Lead.Access.{can_access_lead, employee_team}

abbrev pub correction_key : CorrectCallLeadLinkOptions → String
correction_key o = key2 o.organization_id o.input.request_id

-- `left === right` of two ids that may be `null`.
abbrev pub same_id : Option String → Option String → Bool
same_id none none = true
same_id none (some b) = false
same_id (some a) none = false
same_id (some a) (some b) = str_eq a b

-- A lead that is stored must be within the scope.
unfoldable pub current_admits : Repository → CorrectCallLeadLinkOptions → Option String → Bool
current_admits s o none = true
current_admits s o (some id) = elim (get id s.leads) [
  | none ↦ true
  | some lead ↦ can_access_lead s o.scope lead
]

-- The replacement is an unarchived lead of the organization within the scope, in the team of the
-- call's employee.
unfoldable pub find_replacement :
    Repository → CorrectCallLeadLinkOptions → CallLog → Option String → Outcome (Option Lead)
find_replacement s o call none = done none
find_replacement s o call (some id) = do
  lead ← lookup_or_missing (get id s.leads)
  require (
      str_eq lead.organization_id o.organization_id
      && not (is_some lead.archived_at)
      && can_access_lead s o.scope lead)
  require (same_id (get lead.id s.lead_teams) (employee_team s (some call.employee_id)))
  done (some lead)

pub record Correction : Type 0 where
  pub call : CallLog
  pub current : Option String
  pub replacement : Option Lead

unfoldable pub admit_correction : Repository → CorrectCallLeadLinkOptions → Outcome Correction
admit_correction s o = do
  call ← lookup_or_missing (get o.call_id s.calls)
  require (str_eq call.organization_id o.organization_id)
  throw_if (not (same_id (get call.id s.lead_id_by_call_id) o.input.expected_lead_id))
      (conflict "The call link changed; refresh and retry")
  require (current_admits s o (truthy (get call.id s.lead_id_by_call_id)))
  replacement ← find_replacement s o call (truthy o.input.replacement_lead_id)
  done (record {
    call = call;
    current = get call.id s.lead_id_by_call_id;
    replacement = replacement;
  })

-- The activity of a change of the link, under a fresh id.
unfoldable pub note_link :
    Repository
    → CorrectCallLeadLinkOptions
    → CallLog
    → String
    → LeadActivityKind
    → String
    → Dict JsonValue
    → Repository
unfolding next_id
note_link s o call lead_id kind summary more =
    let id = next_id "lead_activity" s in
    record (tick_id s) {
      lead_activities =
          set id
            (record {
              id = id;
              organization_id = o.organization_id;
              lead_id = lead_id;
              kind = kind;
              actor_user_id = some o.actor_user_id;
              actor_employee_id = none;
              call_log_id = some call.id;
              occurred_at = o.at;
              summary = summary;
              metadata = some (
                  ("reason", JsonValue.text o.input.reason)
                  ∷ ("requestId", JsonValue.text o.input.request_id)
                  ∷ more);
            })
            s.lead_activities;
    }

unfoldable pub unlink :
    Repository → CorrectCallLeadLinkOptions → CallLog → Option String → Repository
unlink s o call none = s
unlink s o call (some lead_id) =
    note_link (record s { lead_id_by_call_id = remove call.id s.lead_id_by_call_id }) o call lead_id
      LeadActivityKind.call_unlinked "Call link corrected" []

unfoldable pub relink : Repository → CorrectCallLeadLinkOptions → CallLog → Option Lead → Repository
relink s o call none = s
relink s o call (some lead) =
    note_link (record s { lead_id_by_call_id = set call.id lead.id s.lead_id_by_call_id }) o call
      lead.id LeadActivityKind.call_linked "Call manually linked"
      (("linkSource", JsonValue.text "manual") ∷ [])

abbrev pub lead_id_of : Option Lead → Option String
lead_id_of none = none
lead_id_of (some lead) = some lead.id

abbrev pub correction_result : CorrectCallLeadLinkOptions → Correction → CorrectCallLeadLinkResult
correction_result o c = record {
  request_id = o.input.request_id;
  call_log_id = c.call.id;
  previous_lead_id = c.current;
  replacement_lead_id = lead_id_of c.replacement;
  corrected_at = o.at;
  replayed = false;
}

unfoldable pub commit_correction :
    Repository → CorrectCallLeadLinkOptions → Correction → Repository × CorrectCallLeadLinkResult
commit_correction s o c =
    let t = relink (unlink s o c.call (truthy c.current)) o c.call c.replacement in
    (
      record t {
        call_lead_correction_requests =
            set (correction_key o)
              (record { fingerprint = o.request_fingerprint; result = correction_result o c })
              t.call_lead_correction_requests;
      },
      correction_result o c,
    )

unfoldable pub replay_correction :
    CorrectCallLeadLinkOptions → StoredCorrection → Outcome CorrectCallLeadLinkResult
replay_correction o prior =
    if str_eq prior.fingerprint o.request_fingerprint
    then done (record prior.result { replayed = true })
    else throws (conflict "The correction request ID was already used with a different payload")

unfoldable pub correct_call_lead_link :
    Repository → CorrectCallLeadLinkOptions → Repository × Outcome CorrectCallLeadLinkResult
correct_call_lead_link s o =
    once s (get (correction_key o) s.call_lead_correction_requests) (replay_correction o)
      (commit_if s (admit_correction s o) (commit_correction s o))
