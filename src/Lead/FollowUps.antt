-- ===== src/Lead/FollowUps.antt =====
-- `createLeadFollowUp` and `completeLeadFollowUp` of apps/api/src/repository.ts.
use cylizerapp.Base.{
  ℕ, ◌+◌, String, false, not, Option, none, some, ◌==◌, str_eq, is_some, or_default,
}
use cylizerapp.Base.Text.{truthy}
use cylizerapp.Base.Dict.{get, set}
use cylizerapp.Base.Outcome.{
  Outcome, done, run_if, conflict, lookup_or_missing, require, throw_if, ◌>>=◌, ◌>>◌,
}
use cylizerapp.Contracts.Organizations.{IsoDateTime}
use cylizerapp.Contracts.Leads.{
  Lead, FollowUp, FollowUpStatus, FollowUpPriority, LeadActivityKind, is_pending,
}
use cylizerapp.Domain.{LeadAccessScope}
use cylizerapp.Repository.{Repository, next_id, tick_id}
use cylizerapp.Lead.Access.{find_accessible_lead, can_access_lead, validate_lead_assignment}
use cylizerapp.Lead.Detail.{Locale, LeadDetail, build_lead_detail, next_due}
use cylizerapp.Lead.Entries.{LeadActor, add_activity, add_note}

pub record CreateFollowUpInput : Type 0 where
  pub lead_id : String
  pub assigned_employee_id : String
  pub title : String
  pub notes : Option String
  pub due_at : IsoDateTime
  pub reminder_at : Option IsoDateTime
  pub priority : Option FollowUpPriority

pub record CreateLeadFollowUpOptions : Type 0 where
  pub organization_id : String
  pub scope : LeadAccessScope
  pub lead_id : String
  pub input : CreateFollowUpInput
  pub actor_user_id : String
  pub at : IsoDateTime

unfoldable pub admit_follow_up : Repository → CreateLeadFollowUpOptions → Outcome Lead
admit_follow_up s o = do
  lead ← find_accessible_lead s o.organization_id o.scope o.lead_id
  require (str_eq o.input.lead_id lead.id)
  require
      (is_some (validate_lead_assignment s o.organization_id o.scope o.input.assigned_employee_id))
  done lead

unfoldable pub new_follow_up : Repository → CreateLeadFollowUpOptions → Lead → FollowUp
unfolding next_id
new_follow_up s o lead = record {
  id = next_id "follow_up" s;
  organization_id = o.organization_id;
  lead_id = lead.id;
  assigned_employee_id = o.input.assigned_employee_id;
  title = o.input.title;
  notes = o.input.notes;
  due_at = o.input.due_at;
  reminder_at = o.input.reminder_at;
  priority = or_default o.input.priority FollowUpPriority.normal;
  status = FollowUpStatus.pending;
  completed_at = none;
  completed_by_user_id = none;
  version = 1;
  created_at = o.at;
  updated_at = o.at;
  created_by = some o.actor_user_id;
  updated_by = some o.actor_user_id;
}

abbrev store_follow_up : Repository → FollowUp → Repository
store_follow_up s follow_up = record (tick_id s) {
  lead_follow_ups = set follow_up.id follow_up s.lead_follow_ups;
}

abbrev keep_old : Option IsoDateTime → Option IsoDateTime → Option IsoDateTime
keep_old none old = old
keep_old (some due) old = some due

abbrev pub touched : LeadActor → Option IsoDateTime → Lead → Lead
touched actor due lead = record lead {
  next_follow_up_at = due;
  updated_at = actor.at;
  updated_by = some actor.actor_user_id;
  version = lead.version + 1;
}

abbrev pub create_actor : CreateLeadFollowUpOptions → LeadActor
create_actor o = record {
  organization_id = o.organization_id;
  actor_user_id = o.actor_user_id;
  at = o.at;
}

-- The lead after a follow-up is added to it in the state `s`.
unfoldable pub scheduled : Repository → Locale → CreateLeadFollowUpOptions → Lead → Lead
scheduled s locale o lead =
    touched (create_actor o)
      (keep_old (next_due s locale o.organization_id lead.id) lead.next_follow_up_at) lead

unfoldable pub create_lead_follow_up :
    Repository → Locale → CreateLeadFollowUpOptions → Repository × Outcome LeadDetail
create_lead_follow_up s locale o = run_if s (admit_follow_up s o) (λ old.
    let s' = store_follow_up s (new_follow_up s o old) in
    let lead = scheduled s' locale o old in
    let t =
      add_activity (record s' { leads = set o.lead_id lead s'.leads }) (create_actor o) lead.id
        LeadActivityKind.follow_up_created "Follow-up scheduled" none in
    (t, build_lead_detail t locale lead o.at))

pub record CompleteFollowUpInput : Type 0 where
  pub expected_version : ℕ
  pub completion_note : Option String
  pub completed_at : Option IsoDateTime

pub record CompleteLeadFollowUpOptions : Type 0 where
  pub organization_id : String
  pub scope : LeadAccessScope
  pub follow_up_id : String
  pub input : CompleteFollowUpInput
  pub actor_user_id : String
  pub at : IsoDateTime

unfoldable pub admit_complete : Repository → CompleteLeadFollowUpOptions → Outcome (FollowUp × Lead)
admit_complete s o = do
  follow_up ← lookup_or_missing (get o.follow_up_id s.lead_follow_ups)
  require (str_eq follow_up.organization_id o.organization_id)
  lead ← lookup_or_missing (get follow_up.lead_id s.leads)
  require (can_access_lead s o.scope lead)
  throw_if (not (follow_up.version == o.input.expected_version))
      (conflict "The follow-up changed; refresh and retry")
  throw_if (not (is_pending follow_up.status)) (conflict "The follow-up is no longer pending")
  done (follow_up, lead)

unfoldable pub completed : CompleteLeadFollowUpOptions → FollowUp → FollowUp
completed o follow_up = record follow_up {
  status = FollowUpStatus.completed;
  completed_at = some (or_default o.input.completed_at o.at);
  completed_by_user_id = some o.actor_user_id;
  updated_at = o.at;
  updated_by = some o.actor_user_id;
  version = follow_up.version + 1;
}

abbrev pub complete_actor : CompleteLeadFollowUpOptions → LeadActor
complete_actor o = record {
  organization_id = o.organization_id;
  actor_user_id = o.actor_user_id;
  at = o.at;
}

abbrev note_if : Repository → LeadActor → String → Option String → Repository
note_if s actor lead_id none = s
note_if s actor lead_id (some body) = add_note s actor lead_id body false

-- The follow-up completed and its note written.
unfoldable pub store_completed :
    Repository → CompleteLeadFollowUpOptions → FollowUp → Lead → Repository
store_completed s o follow_up lead =
    note_if
      (record s { lead_follow_ups = set o.follow_up_id (completed o follow_up) s.lead_follow_ups })
      (complete_actor o) lead.id (truthy o.input.completion_note)

-- The lead after one of its follow-ups is completed in the state `s`.
unfoldable pub rescheduled : Repository → Locale → CompleteLeadFollowUpOptions → Lead → Lead
rescheduled s locale o lead =
    touched (complete_actor o) (next_due s locale o.organization_id lead.id) lead

unfoldable pub complete_lead_follow_up :
    Repository → Locale → CompleteLeadFollowUpOptions → Repository × Outcome LeadDetail
complete_lead_follow_up s locale o = run_if s (admit_complete s o) (λ (follow_up, old).
    let s' = store_completed s o follow_up old in
    let lead = rescheduled s' locale o old in
    let t =
      add_activity (record s' { leads = set follow_up.lead_id lead s'.leads }) (complete_actor o)
        lead.id LeadActivityKind.follow_up_completed "Follow-up completed" none in
    (t, build_lead_detail t locale lead o.at))
