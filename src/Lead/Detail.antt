-- ===== src/Lead/Detail.antt =====
-- `followUpsForLead`, `unreturnedMissedCallCount`, `buildLeadListItem` and `buildLeadDetail` of
-- apps/api/src/repository.ts. What the platform's locale decides is a parameter.
use cylizerapp.Base.{
  ℕ, String, Bool, true, false, not, ◌&&◌, ◌||◌, Option, none, some, List, ltb, ◌==◌, str_eq, any,
  keep, count, find, sort, head?,
}
use cylizerapp.Base.Text.{truthy}
use cylizerapp.Base.Dict.{get, values}
use cylizerapp.Base.Outcome.{Outcome, done, ◌>>=◌}
use cylizerapp.Contracts.Organizations.{IsoDateTime}
use cylizerapp.Contracts.Employees.{Employee}
use cylizerapp.Contracts.Leads.{
  Lead, LeadStatus, LeadNote, FollowUp, LeadActivity, LeadActivityKind, JsonValue, is_pending,
}
use cylizerapp.Repository.{Repository}
use cylizerapp.Lead.Access.{status_for_lead}

-- `left.localeCompare(right) <= 0`, and `summary.toLocaleLowerCase().includes("missed")`.
pub record Locale : Type 0 where
  pub at_most : String → String → Bool
  pub mentions_missed : String → Bool

abbrev is_call_link : LeadActivityKind → Bool
is_call_link LeadActivityKind.call_linked = true
is_call_link _ = false

abbrev json_is : Option JsonValue → String → Bool
json_is (some (JsonValue.text found)) expected = str_eq found expected
json_is _ expected = false

abbrev metadata_is : LeadActivity → String → String → Bool
metadata_is activity key expected = elim activity.metadata [
  | none ↦ false
  | some fields ↦ json_is (get key fields) expected
]

pub record LeadOwnerSummary : Type 0 where
  pub id : String
  pub display_name : String
  pub team : Option String

pub record LeadListItem : Type 0 where
  pub lead : Lead
  pub status : LeadStatus
  pub assigned_employee : Option LeadOwnerSummary
  pub next_follow_up : Option FollowUp
  pub overdue_follow_up_count : ℕ
  pub unreturned_missed_call_count : ℕ

pub record LeadDetail : Type 0 where
  pub item : LeadListItem
  pub notes : List LeadNote
  pub follow_ups : List FollowUp
  pub activities : List LeadActivity

abbrev owner_summary : Option Employee → Option LeadOwnerSummary
owner_summary none = none
owner_summary (some e) = some (record { id = e.id; display_name = e.display_name; team = e.team })

abbrev employee_at : Repository → Option String → Option Employee
employee_at s none = none
employee_at s (some id) = get id s.employees

-- Follow-ups in the order in which they fall due.
abbrev pub follow_up_before : Locale → FollowUp → FollowUp → Bool
follow_up_before locale left right =
    ltb left.due_at right.due_at || (left.due_at == right.due_at) && locale.at_most left.id right.id

abbrev pub of_lead : String → String → FollowUp → Bool
of_lead organization_id lead_id follow_up =
    str_eq follow_up.organization_id organization_id && str_eq follow_up.lead_id lead_id

unfoldable pub follow_ups_for_lead : Repository → Locale → String → String → List FollowUp
follow_ups_for_lead s locale organization_id lead_id =
    sort (follow_up_before locale)
      (keep (of_lead organization_id lead_id) (values s.lead_follow_ups))

abbrev pub is_open : FollowUp → Bool
is_open follow_up = is_pending follow_up.status

-- `followUpsForLead(…).find((followUp) => followUp.status === "pending")?.dueAt`.
unfoldable pub next_due : Repository → Locale → String → String → Option IsoDateTime
next_due s locale organization_id lead_id =
    elim (find is_open (follow_ups_for_lead s locale organization_id lead_id)) [
      | none ↦ none
      | some follow_up ↦ some follow_up.due_at
    ]

linked_calls : Repository → Lead → List LeadActivity
linked_calls s lead =
    keep
      (λ activity.
        str_eq activity.organization_id lead.organization_id
        && str_eq activity.lead_id lead.id
        && is_call_link activity.kind)
      (values s.lead_activities)

abbrev is_unreturned : Locale → List LeadActivity → LeadActivity → Bool
is_unreturned locale calls activity =
    (metadata_is activity "direction" "incoming" && metadata_is activity "disposition" "missed"
      || locale.mentions_missed activity.summary)
    && not (
        any
          (λ candidate.
            ltb activity.occurred_at candidate.occurred_at
            && metadata_is candidate "direction" "outgoing"
            && metadata_is candidate "disposition" "answered")
          calls)

unfoldable pub unreturned_missed_call_count : Repository → Locale → Lead → ℕ
unfolding linked_calls
unreturned_missed_call_count s locale lead =
    count (is_unreturned locale (linked_calls s lead)) (linked_calls s lead)

unfoldable pub build_lead_list_item :
    Repository → Locale → Lead → IsoDateTime → Outcome LeadListItem
build_lead_list_item s locale lead at = do
  status ← status_for_lead s lead
  let pending = keep is_open (follow_ups_for_lead s locale lead.organization_id lead.id)
  done (record {
    lead = lead;
    status = status;
    assigned_employee = owner_summary (employee_at s (truthy lead.assigned_employee_id));
    next_follow_up = head? pending;
    overdue_follow_up_count = count (λ follow_up. ltb follow_up.due_at at) pending;
    unreturned_missed_call_count = unreturned_missed_call_count s locale lead;
  })

abbrev newer_note : Locale → LeadNote → LeadNote → Bool
newer_note locale left right =
    ltb right.created_at left.created_at
    || (left.created_at == right.created_at) && locale.at_most right.id left.id

abbrev newer_activity : Locale → LeadActivity → LeadActivity → Bool
newer_activity locale left right =
    ltb right.occurred_at left.occurred_at
    || (left.occurred_at == right.occurred_at) && locale.at_most right.id left.id

unfoldable pub build_lead_detail : Repository → Locale → Lead → IsoDateTime → Outcome LeadDetail
build_lead_detail s locale lead at = do
  item ← build_lead_list_item s locale lead at
  done (record {
    item = item;
    notes = sort (newer_note locale) (
        keep
          (λ note. str_eq note.organization_id lead.organization_id && str_eq note.lead_id lead.id)
          (values s.lead_notes));
    follow_ups = follow_ups_for_lead s locale lead.organization_id lead.id;
    activities = sort (newer_activity locale) (
        keep
          (λ activity.
            str_eq activity.organization_id lead.organization_id && str_eq activity.lead_id lead.id)
          (values s.lead_activities));
  })
