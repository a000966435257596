-- ===== src/Calls/Link.antt =====
-- `linkCallToUniqueLead` of apps/api/src/repository.ts. A lead is written under its own id, the
-- key under which `createLead` stores it.
use cylizerapp.Base.{
  String, Bool, true, not, ◌&&◌, ◌||◌, Option, none, some, List, [], ◌∷◌, suc, ltb, is_some, str_eq,
  keep, if◌then◌else◌,
}
use cylizerapp.Base.Dict.{Dict, get, set, values}
use cylizerapp.Base.Text.{concat, truthy, text_is}
use cylizerapp.Contracts.Organizations.{IsoDateTime}
use cylizerapp.Contracts.Calls.{
  CallLog, CallDirection, is_answered, direction_text, disposition_text,
}
use cylizerapp.Contracts.Leads.{Lead, LeadActivity, LeadActivityKind, JsonValue}
use cylizerapp.Repository.{Repository, next_id, tick_id}
use cylizerapp.Lead.Access.{employee_team}

-- An unarchived lead of the call's organization and of the team, with the number of the call.
unfoldable pub matches_call : Repository → CallLog → String → Lead → Bool
matches_call s call team lead =
    str_eq lead.organization_id call.organization_id
    && not (is_some lead.archived_at)
    && text_is (get lead.id s.lead_teams) team
    && (str_eq lead.phone_number call.participant.phone_number
        || text_is lead.alternate_phone_number call.participant.phone_number)

abbrev pub linked_lead_id : Repository → CallLog → Option String
linked_lead_id s call = truthy (get call.id s.lead_id_by_call_id)

abbrev as_list {ℓ} : {A : Type ℓ} → Option A → List A
as_list none = []
as_list (some a) = a ∷ []

-- The lead that the call is linked to already, or all leads that match it.
unfoldable pub link_candidates : Repository → CallLog → String → List Lead
link_candidates s call team = elim (linked_lead_id s call) [
  | some id ↦ as_list (get id s.leads)
  | none ↦ keep (matches_call s call team) (values s.leads)
]

abbrev pub the_only {ℓ} : {A : Type ℓ} → List A → Option A
the_only [] = none
the_only (a ∷ []) = some a
the_only (a ∷ b ∷ more) = none

abbrev earlier : Option IsoDateTime → IsoDateTime → Bool
earlier none at = true
earlier (some last) at = ltb last at

-- The lead has been spoken to, later than was known.
abbrev pub is_contact : CallLog → Lead → Bool
is_contact call lead =
    is_answered call.disposition && earlier lead.last_contacted_at call.started_at

abbrev pub contacted : CallLog → IsoDateTime → Lead → Lead
contacted call at lead = record lead {
  last_contacted_at = some call.started_at;
  updated_at = at;
  version = suc lead.version;
}

unfoldable pub leads_after : Repository → CallLog → IsoDateTime → Lead → Dict Lead
leads_after s call at lead =
    if is_contact call lead then set lead.id (contacted call at lead) s.leads else s.leads

abbrev link_summary : CallLog → String
link_summary call =
    concat
      (elim call.direction [
        | CallDirection.outgoing ↦ "Outgoing"
        | CallDirection.incoming ↦ "Incoming"
      ])
      (concat " " (concat (disposition_text call.disposition) " call linked"))

unfoldable pub link_activity : Repository → CallLog → Lead → LeadActivity
unfolding next_id
link_activity s call lead = record {
  id = next_id "lead_activity" s;
  organization_id = call.organization_id;
  lead_id = lead.id;
  kind = LeadActivityKind.call_linked;
  actor_user_id = none;
  actor_employee_id = none;
  call_log_id = some call.id;
  occurred_at = call.started_at;
  summary = link_summary call;
  metadata = some (
      ("direction", JsonValue.text (direction_text call.direction))
      ∷ ("disposition", JsonValue.text (disposition_text call.disposition))
      ∷ ("linkSource", JsonValue.text "automatic")
      ∷ ("matchConfidence", JsonValue.number 1)
      ∷ []);
}

unfoldable pub record_link : Repository → CallLog → Lead → Repository
record_link s call lead =
    let activity = link_activity s call lead in
    record (tick_id s) {
      lead_id_by_call_id = set call.id lead.id s.lead_id_by_call_id;
      lead_activities = set activity.id activity s.lead_activities;
    }

unfoldable pub link_to : Repository → CallLog → IsoDateTime → Option Lead → Repository
link_to s call at none = s
link_to s call at (some lead) =
    let t = record s { leads = leads_after s call at lead } in
    if is_some (linked_lead_id s call) then t else record_link t call lead

unfoldable pub link_call_to_unique_lead : Repository → CallLog → IsoDateTime → Repository
link_call_to_unique_lead s call at =
    if call.participant.is_internal
    then s
    else elim (truthy (employee_team s (some call.employee_id))) [
      | none ↦ s
      | some team ↦ link_to s call at (the_only (link_candidates s call team))
    ]
