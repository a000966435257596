-- ===== src/Lead/Tests.antt =====
-- Tests of the lead operations of apps/api/src/repository.ts on the scenario.
use cylizerapp.Base.{
  String, ◌≡◌, ◌≢◌, refl, true, some, any, keep, find, sort, insert_sorted, count,
}
use cylizerapp.Base.Text.{pad_decimal}
use cylizerapp.Base.Dict.{get, set, values}
use cylizerapp.Base.Outcome.{done}
use cylizerapp.Contracts.Leads.{Lead}
use cylizerapp.Repository.{next_id}
use cylizerapp.Lead.Access.{
  can_access_lead, find_accessible_lead, status_for_lead, default_lead_status,
  validate_lead_assignment, team_of_lead,
}
use cylizerapp.Lead.Detail.{
  LeadDetail, build_lead_detail, build_lead_list_item, follow_ups_for_lead, next_due,
  unreturned_missed_call_count,
}
use cylizerapp.Lead.Entries.{add_activity, add_note}
use cylizerapp.Lead.Create.{
  create_lead, admit_create, requested_status, assignable, new_lead, new_lead_team, write_lead,
}
use cylizerapp.Lead.Update.{
  update_lead, admit_update, status_admits, assignment_admits, apply_changes, close_update,
  write_changes, write_update, update_kind,
}
use cylizerapp.Lead.FollowUps.{
  create_lead_follow_up, admit_follow_up, new_follow_up, scheduled, complete_lead_follow_up,
  admit_complete, completed, store_completed, rescheduled,
}
use cylizerapp.Lead.Changes.{update-foreign, complete_once}
use cylizerapp.Lead.Creation.{create-can_access}
use cylizerapp.Lead.Scenario.{
  locale, office, creation, with_lead, assignment, with_follow_up, completion,
}

create-can_access_example :
    (lead : Lead) × (get lead.id with_lead.leads ≡ some lead)
    × (lead.organization_id ≡ "org_1")
    × (lead.version ≡ 1)
    × (can_access_lead with_lead creation.scope lead ≡ true)
unfolding get set values any keep find sort insert_sorted count next_id pad_decimal status_for_lead
    default_lead_status build_lead_detail build_lead_list_item follow_ups_for_lead
    unreturned_missed_call_count add_activity create_lead admit_create requested_status assignable
    new_lead new_lead_team write_lead
create-can_access_example = create-can_access office with_lead locale creation _ refl refl

org_1-ne-acme_2 : (let a : String = "org_1" in a) ≢ "acme_2"
org_1-ne-acme_2 e = cc

update-foreign_example :
    get "lead_000008"
      (update_lead with_lead locale (record assignment { organization_id = "acme_2" })).0.leads
    ≡ get "lead_000008" with_lead.leads
unfolding get set values any keep find sort insert_sorted count next_id pad_decimal status_for_lead
    default_lead_status build_lead_detail build_lead_list_item follow_ups_for_lead
    unreturned_missed_call_count add_activity create_lead admit_create requested_status assignable
    new_lead new_lead_team write_lead can_access_lead find_accessible_lead validate_lead_assignment
    team_of_lead update_lead admit_update status_admits assignment_admits apply_changes close_update
    write_changes write_update update_kind
update-foreign_example =
    update-foreign with_lead locale (record assignment { organization_id = "acme_2" }) "lead_000008"
      _ refl org_1-ne-acme_2

complete_once_example :
    ((complete_lead_follow_up
        (complete_lead_follow_up with_follow_up locale completion).0
        locale
        completion).0
      ≡ (complete_lead_follow_up with_follow_up locale completion).0)
    × ((d' : LeadDetail)
        → (complete_lead_follow_up
            (complete_lead_follow_up with_follow_up locale completion).0
            locale
            completion).1
          ≢ done d')
unfolding get set values any keep find sort insert_sorted count next_id pad_decimal status_for_lead
    default_lead_status build_lead_detail build_lead_list_item follow_ups_for_lead
    unreturned_missed_call_count add_activity create_lead admit_create requested_status assignable
    new_lead new_lead_team write_lead can_access_lead find_accessible_lead validate_lead_assignment
    team_of_lead next_due create_lead_follow_up admit_follow_up new_follow_up scheduled
    complete_lead_follow_up admit_complete completed store_completed rescheduled add_note
complete_once_example =
    complete_once with_follow_up (complete_lead_follow_up with_follow_up locale completion).0 locale
      completion completion _ refl refl
