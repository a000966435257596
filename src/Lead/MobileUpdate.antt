-- ===== src/Lead/MobileUpdate.antt =====
-- `applyMobileLeadUpdate` of apps/api/src/repository.ts: an employee's telephone reports what was
-- done with a lead, possibly some days later.
use cylizerapp.Base.{
  suc, String, Bool, true, false, ◌&&◌, Option, none, some, [], ◌∷◌, ltb, str_eq, or_default,
  if◌then◌else◌,
}
use cylizerapp.Base.Dict.{Dict, get, set}
use cylizerapp.Base.Text.{concat}
use cylizerapp.Base.Outcome.{Outcome, done, throws, conflict, once, run_if}
use cylizerapp.Contracts.Organizations.{IsoDateTime}
use cylizerapp.Contracts.Leads.{
  Lead, LeadStatus, LeadActivityKind, FollowUpPriority, FollowUpStatus, JsonValue,
}
use cylizerapp.Contracts.LeadOperations.{MobileLeadUpdateFollowUp}
use cylizerapp.Domain.Operations.{MobileLeadUpdateOptions}
use cylizerapp.Repository.{Repository, StoredMobileLeadUpdate, next_id, tick_id}
use cylizerapp.Lead.Detail.{Locale, LeadDetail, build_lead_detail}
use cylizerapp.Lead.MobileAdmit.{
  MobileLeadUpdateReceipt, update_key, admit_session, MobileChange, admit_mobile_update,
}

-- An activity of the employee at the time of the report.
unfoldable pub add_mobile_activity :
    Repository
    → MobileLeadUpdateOptions
    → Lead
    → LeadActivityKind
    → String
    → Dict JsonValue
    → Repository
unfolding next_id
add_mobile_activity s o lead kind summary more =
    let id = next_id "lead_activity" s in
    record (tick_id s) {
      lead_activities =
          set id
            (record {
              id = id;
              organization_id = lead.organization_id;
              lead_id = lead.id;
              kind = kind;
              actor_user_id = none;
              actor_employee_id = some o.context.employee_id;
              call_log_id = none;
              occurred_at = o.input.occurred_at;
              summary = summary;
              metadata = some (
                  ("requestId", JsonValue.text o.input.request_id)
                  ∷ ("deviceId", JsonValue.text o.context.device_id)
                  ∷ more);
            })
            s.lead_activities;
    }

abbrev stamped : Bool → IsoDateTime → Option IsoDateTime
stamped true at = some at
stamped false at = none

unfoldable pub with_status : MobileLeadUpdateOptions → Option LeadStatus → Lead → Lead
with_status o none lead = lead
with_status o (some status) lead = record lead {
  status_id = status.id;
  converted_at = stamped status.is_won o.at;
  lost_at = stamped status.is_lost o.at;
}

unfoldable pub write_status :
    Repository → MobileLeadUpdateOptions → Lead → Option LeadStatus → Repository
write_status s o lead none = s
write_status s o lead (some status) =
    add_mobile_activity s o lead LeadActivityKind.status_changed
      (concat "Status changed to " status.name) []

unfoldable pub write_mobile_note :
    Repository → MobileLeadUpdateOptions → Lead → String → Option String → Repository
unfolding next_id
write_mobile_note s o lead actor none = s
write_mobile_note s o lead actor (some body) =
    let id = next_id "lead_note" s in
    add_mobile_activity
      (record (tick_id s) {
        lead_notes =
            set id
              (record {
                id = id;
                organization_id = lead.organization_id;
                lead_id = lead.id;
                author_user_id = actor;
                body = body;
                is_pinned = false;
                created_at = o.at;
                updated_at = o.at;
                created_by = some actor;
                updated_by = some actor;
              })
              s.lead_notes;
      })
      o lead LeadActivityKind.note_added "Mobile note added" (("noteId", JsonValue.text id) ∷ [])

unfoldable pub write_mobile_follow_up :
    Repository
    → MobileLeadUpdateOptions
    → Lead
    → String
    → Option MobileLeadUpdateFollowUp
    → Repository
unfolding next_id
write_mobile_follow_up s o lead actor none = s
write_mobile_follow_up s o lead actor (some f) =
    let id = next_id "follow_up" s in
    add_mobile_activity
      (record (tick_id s) {
        lead_follow_ups =
            set id
              (record {
                id = id;
                organization_id = lead.organization_id;
                lead_id = lead.id;
                assigned_employee_id = o.context.employee_id;
                title = f.title;
                notes = f.notes;
                due_at = f.due_at;
                reminder_at = f.reminder_at;
                priority = or_default f.priority FollowUpPriority.normal;
                status = FollowUpStatus.pending;
                completed_at = none;
                completed_by_user_id = none;
                version = 1;
                created_at = o.at;
                updated_at = o.at;
                created_by = some actor;
                updated_by = some actor;
              })
              s.lead_follow_ups;
      })
      o lead LeadActivityKind.follow_up_created "Mobile follow-up scheduled"
      (("followUpId", JsonValue.text id) ∷ [])

-- The earlier of the due times.
unfoldable pub sooner : Option MobileLeadUpdateFollowUp → Option IsoDateTime → Option IsoDateTime
sooner none old = old
sooner (some f) none = some f.due_at
sooner (some f) (some old) = if ltb f.due_at old then some f.due_at else some old

unfoldable pub mobile_changed : MobileLeadUpdateOptions → MobileChange → Lead
mobile_changed o c = record (with_status o c.status c.lead) {
  next_follow_up_at = sooner o.input.follow_up c.lead.next_follow_up_at;
  version = suc c.lead.version;
  updated_at = o.at;
  updated_by = some c.actor_user_id;
}

unfoldable pub write_mobile_update :
    Repository → MobileLeadUpdateOptions → MobileChange → Repository
write_mobile_update s o c =
    let t = write_status s o c.lead c.status in
    let u = write_mobile_note t o c.lead c.actor_user_id o.input.note in
    let v = write_mobile_follow_up u o c.lead c.actor_user_id o.input.follow_up in
    record v { leads = set o.lead_id (mobile_changed o c) v.leads }

unfoldable pub store_receipt :
    Repository
    → MobileLeadUpdateOptions
    → MobileChange
    → LeadDetail
    → Repository × Outcome MobileLeadUpdateReceipt
store_receipt s o c detail = (
  record s {
    mobile_lead_update_requests =
        set (update_key o)
          (record {
            fingerprint = o.request_fingerprint;
            lead_id = o.lead_id;
            request_id = o.input.request_id;
            applied_lead_version = suc c.lead.version;
          })
          s.mobile_lead_update_requests;
  },
  done (record {
    request_id = o.input.request_id;
    replayed = false;
    applied_lead_version = suc c.lead.version;
    detail = some detail;
  }),
)

unfoldable pub commit_mobile_update :
    Repository
    → Locale
    → MobileLeadUpdateOptions
    → MobileChange
    → Repository × Outcome MobileLeadUpdateReceipt
commit_mobile_update s locale o c =
    let t = write_mobile_update s o c in
    run_if t (build_lead_detail t locale (mobile_changed o c) o.at) (store_receipt t o c)

unfoldable pub replay_mobile_update :
    MobileLeadUpdateOptions → StoredMobileLeadUpdate → Outcome MobileLeadUpdateReceipt
replay_mobile_update o prior =
    if str_eq prior.fingerprint o.request_fingerprint && str_eq prior.lead_id o.lead_id
    then done (record {
      request_id = prior.request_id;
      replayed = true;
      applied_lead_version = prior.applied_lead_version;
      detail = none;
    })
    else throws (conflict "The mobile update request ID was already used with a different payload")

unfoldable pub apply_mobile_lead_update :
    Repository → Locale → MobileLeadUpdateOptions → Repository × Outcome MobileLeadUpdateReceipt
apply_mobile_lead_update s locale o = run_if s (admit_session s o) (λ current.
    once s (get (update_key o) s.mobile_lead_update_requests) (replay_mobile_update o)
      (run_if s (admit_mobile_update s o) (commit_mobile_update s locale o)))
