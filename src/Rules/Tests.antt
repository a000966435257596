-- ===== src/Rules/Tests.antt =====
-- Tests of the assignment rules of apps/api/src/repository.ts on the scenario.
use mathlib.Core.List.Memᴰ
use cylizerapp.Lead.Update.{
  update_lead, admit_update, status_admits, assignment_admits, apply_changes, write_changes,
  close_update, write_update, update_kind,
}
use cylizerapp.Rules.DryRun.{
  rule_for, is_open_lead, cursor_of, chosen_index, dry_run_lead_assignment_rules, tally_leads,
  tally_lead, tally_rule, chosen_employee, as_distribution,
}
use cylizerapp.Rules.Assign.{
  apply_lead_assignment_rules, apply_fresh, apply_leads, apply_lead, apply_rule, complete_apply,
  store_cursors, store_cursor,
}
use cylizerapp.Rules.Match.{
  can_access_team, matching_rules, is_matching, is_member, rule_matches_lead,
}
use cylizerapp.Rules.Edit.{
  create_lead_assignment_rule, admit_employees, all_distinct, is_eligible, new_rule,
  update_lead_assignment_rule, admit_rule_update, changed_rule,
}
use cylizerapp.Lead.Create.{
  create_lead, admit_create, requested_status, assignable, new_lead, new_lead_team, write_lead,
}
use cylizerapp.Lead.Entries.{add_activity}
use cylizerapp.Lead.Detail.{
  build_lead_detail, build_lead_list_item, follow_ups_for_lead, unreturned_missed_call_count,
}
use cylizerapp.Lead.Access.{
  status_for_lead, default_lead_status, team_of_lead, can_access_lead, find_accessible_lead,
  validate_lead_assignment,
}
use cylizerapp.Base.Text.{pad_decimal}
use cylizerapp.Repository.{next_id}
use cylizerapp.Base.Dict.{get, set, values}
use cylizerapp.Base.{
  find, any, keep, sort, insert_sorted, count, every, String, ◌≡◌, ◌≢◌, ◌+◌, refl, sym, subst, true,
  inl, inr,
}
use cylizerapp.Base.Outcome.{done, throws, conflict}
use cylizerapp.Contracts.LeadOperations.{LeadAssignmentRule}
use cylizerapp.Lead.Scenario.{with_lead, locale}
use cylizerapp.Rules.Totals.{lead_total, is_named, AreNamed, dry_run-totals}
use cylizerapp.Rules.Changes.{AreAssignable, IsNewRule, create_rule-AreAssignable, update_rule_once}
use cylizerapp.Rules.Replay.{apply_again}
use cylizerapp.Rules.Scenario.{
  operation, rule_creation, same_name, with_rule, first_rule, rule_update, with_updated_rule,
  application, with_owners,
}

create_rule-AreAssignable_example :
    (team : String) × AreAssignable with_lead operation first_rule.employee_ids team
    × IsNewRule with_rule team first_rule
unfolding get set values find any next_id pad_decimal keep sort insert_sorted count status_for_lead
    default_lead_status build_lead_detail build_lead_list_item follow_ups_for_lead
    unreturned_missed_call_count add_activity create_lead admit_create requested_status assignable
    new_lead new_lead_team write_lead create_lead_assignment_rule admit_employees all_distinct every
    is_eligible can_access_team new_rule
create_rule-AreAssignable_example =
    create_rule-AreAssignable same_name with_lead with_rule rule_creation first_rule refl

update_rule_once_example :
    ((update_lead_assignment_rule same_name with_updated_rule rule_update).0 ≡ with_updated_rule)
    × ((r : LeadAssignmentRule)
        → (update_lead_assignment_rule same_name with_updated_rule rule_update).1 ≢ done r)
unfolding get set values find any next_id pad_decimal keep sort insert_sorted count status_for_lead
    default_lead_status build_lead_detail build_lead_list_item follow_ups_for_lead
    unreturned_missed_call_count add_activity create_lead admit_create requested_status assignable
    new_lead new_lead_team write_lead create_lead_assignment_rule admit_employees all_distinct every
    is_eligible can_access_team new_rule update_lead_assignment_rule admit_rule_update changed_rule
update_rule_once_example =
    update_rule_once same_name with_rule with_updated_rule rule_update rule_update _ refl refl refl

with_rule-AreNamed : AreNamed with_rule
unfolding get set values find any next_id pad_decimal keep sort insert_sorted count status_for_lead
    default_lead_status build_lead_detail build_lead_list_item follow_ups_for_lead
    unreturned_missed_call_count add_activity create_lead admit_create requested_status assignable
    new_lead new_lead_team write_lead create_lead_assignment_rule admit_employees all_distinct every
    is_eligible can_access_team new_rule
with_rule-AreNamed rule m = elim (Memᴰ.cases_cons m) [
  | inl same ↦ subst (λ r. is_named r ≡ true) (sym same) refl
  | inr rest ↦ absurd (Memᴰ.not-nil rest)
]

dry_run-totals_example :
    let run = dry_run_lead_assignment_rules with_rule locale operation in
    (run.matched_leads + run.unmatched_leads ≡ 1)
    × (lead_total run.distribution ≡ run.matched_leads)
unfolding get set values find any next_id pad_decimal keep sort insert_sorted count status_for_lead
    default_lead_status build_lead_detail build_lead_list_item follow_ups_for_lead
    unreturned_missed_call_count add_activity create_lead admit_create requested_status assignable
    new_lead new_lead_team write_lead create_lead_assignment_rule admit_employees all_distinct every
    is_eligible can_access_team new_rule rule_for matching_rules is_matching is_member
    rule_matches_lead team_of_lead can_access_lead is_open_lead
dry_run-totals_example = dry_run-totals with_rule locale operation with_rule-AreNamed

-- With another fingerprint the request is a conflict.
apply_again_example :
    apply_lead_assignment_rules with_owners locale
      (record application { request_fingerprint = "fp_2" })
    ≡ (
      with_owners,
      throws (conflict "The assignment request ID was already used with a different payload"),
    )
unfolding get set values find any next_id pad_decimal keep sort insert_sorted count status_for_lead
    default_lead_status build_lead_detail build_lead_list_item follow_ups_for_lead
    unreturned_missed_call_count add_activity create_lead admit_create requested_status assignable
    new_lead new_lead_team write_lead create_lead_assignment_rule admit_employees all_distinct every
    is_eligible can_access_team new_rule rule_for matching_rules is_matching is_member
    rule_matches_lead team_of_lead can_access_lead is_open_lead apply_lead_assignment_rules
    apply_fresh apply_leads apply_lead apply_rule cursor_of chosen_index update_lead admit_update
    find_accessible_lead status_admits assignment_admits validate_lead_assignment apply_changes
    write_changes close_update write_update update_kind complete_apply store_cursors store_cursor
    dry_run_lead_assignment_rules tally_leads tally_lead tally_rule chosen_employee as_distribution
apply_again_example =
    apply_again with_rule with_owners locale application
      (record application { request_fingerprint = "fp_2" }) _ refl refl
