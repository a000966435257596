-- ===== src/Rules/Assign.antt =====
-- `applyLeadAssignmentRules` of apps/api/src/repository.ts.
use cylizerapp.Base.{
  ℕ, suc, String, true, false, none, some, List, [], ◌∷◌, str_eq, get_elem?, if◌then◌else◌,
}
use cylizerapp.Base.Dict.{Dict, get, set, values}
use cylizerapp.Base.Text.{key2, truthy}
use cylizerapp.Base.Outcome.{Outcome, done, missing, throws, conflict, once, and_then}
use cylizerapp.Contracts.Leads.{Lead}
use cylizerapp.Contracts.LeadOperations.{
  LeadAssignmentRule, LeadAssignmentDryRun, ApplyLeadAssignmentRulesResult, is_fixed_owner,
}
use cylizerapp.Domain.Operations.{LeadAssignmentOperationOptions, ApplyLeadAssignmentRulesOptions}
use cylizerapp.Repository.{Repository, StoredApplyRequest}
use cylizerapp.Lead.Access.{includes}
use cylizerapp.Lead.Detail.{Locale}
use cylizerapp.Lead.Update.{UpdateLeadOptions, update_lead, keep_field, set_field}
use cylizerapp.Rules.DryRun.{
  is_open_lead, rule_for, cursor_of, chosen_index, advance, dry_run_lead_assignment_rules,
}

-- The loop of an application: the rounds so far, which rules advanced, and how many leads were
-- assigned.
pub record Progress : Type 0 where
  pub cursors : Dict ℕ
  pub advanced : List String
  pub applied : ℕ

abbrev owner_change : LeadAssignmentOperationOptions → Lead → String → UpdateLeadOptions
owner_change o lead employee_id = record {
  organization_id = o.organization_id;
  scope = o.scope;
  lead_id = lead.id;
  expected_version = lead.version;
  changes = record {
    first_name = none;
    last_name = keep_field;
    company_name = keep_field;
    phone_number = none;
    alternate_phone_number = keep_field;
    email = keep_field;
    status_id = none;
    temperature = keep_field;
    assigned_employee_id = set_field employee_id;
    tag_ids = none;
    custom_fields = none;
    archived = none;
  };
  actor_user_id = o.actor_user_id;
  can_assign = true;
  at = o.at;
}

-- `advancedRuleIds.add`.
abbrev add_id : String → List String → List String
add_id id ids = if includes ids id then ids else append_id ids id
  where
    append_id : List String → String → List String
    append_id [] id = id ∷ []
    append_id (x ∷ xs) id = x ∷ append_id xs id

abbrev pub progressed : LeadAssignmentRule → ℕ → Progress → Progress
progressed rule cursor progress = record {
  cursors = advance rule cursor progress.cursors;
  advanced =
      if is_fixed_owner rule.strategy then progress.advanced else add_id rule.id progress.advanced;
  applied = suc progress.applied;
}

unfoldable pub apply_rule :
    Repository
    → Locale
    → LeadAssignmentOperationOptions
    → Lead
    → LeadAssignmentRule
    → Progress
    → Repository × Outcome Progress
apply_rule s locale o lead rule progress =
    let cursor = cursor_of s progress.cursors rule in
    elim (truthy (get_elem? rule.employee_ids (chosen_index rule cursor))) [
      | none ↦ (s, done progress)
      | some employee_id ↦
          let (t, outcome) = update_lead s locale (owner_change o lead employee_id) in
          (
            t,
            elim outcome [
              | done detail ↦ done (progressed rule cursor progress)
              | missing ↦ done progress
              | throws fault ↦ throws fault
            ],
          )
    ]

unfoldable pub apply_lead :
    Repository
    → Locale
    → LeadAssignmentOperationOptions
    → Lead
    → Progress
    → Repository × Outcome Progress
apply_lead s locale o lead progress =
    if is_open_lead s o lead
    then elim (rule_for s locale o lead) [
      | none ↦ (s, done progress)
      | some rule ↦ apply_rule s locale o lead rule progress
    ]
    else (s, done progress)

unfoldable pub apply_leads :
    Repository
    → Locale
    → LeadAssignmentOperationOptions
    → List Lead
    → Progress
    → Repository × Outcome Progress
apply_leads s locale o [] progress = (s, done progress)
apply_leads s locale o (lead ∷ leads) progress =
    and_then (apply_lead s locale o lead progress) (λ t after. apply_leads t locale o leads after)

abbrev touched_rule : LeadAssignmentOperationOptions → LeadAssignmentRule → LeadAssignmentRule
touched_rule o rule = record rule {
  version = suc rule.version;
  updated_by_user_id = o.actor_user_id;
  updated_at = o.at;
}

unfoldable pub store_cursor : Repository → LeadAssignmentOperationOptions → String → ℕ → Repository
store_cursor s o rule_id cursor =
    let t = record s {
      lead_assignment_rule_cursors = set rule_id cursor s.lead_assignment_rule_cursors;
    } in
    elim (get rule_id s.lead_assignment_rules) [
      | none ↦ t
      | some rule ↦ record t {
        lead_assignment_rules = set rule_id (touched_rule o rule) s.lead_assignment_rules;
      }
    ]

unfoldable pub store_cursors :
    Repository → LeadAssignmentOperationOptions → Dict ℕ → List String → Repository
store_cursors s o cursors [] = s
store_cursors s o cursors (rule_id ∷ rest) = elim (get rule_id cursors) [
  | none ↦ store_cursors s o cursors rest
  | some cursor ↦ store_cursors (store_cursor s o rule_id cursor) o cursors rest
]

abbrev pub apply_key : ApplyLeadAssignmentRulesOptions → String
apply_key o = key2 o.operation.organization_id o.input.request_id

unfoldable pub replay_apply :
    ApplyLeadAssignmentRulesOptions → StoredApplyRequest → Outcome ApplyLeadAssignmentRulesResult
replay_apply o prior =
    if str_eq prior.fingerprint o.request_fingerprint
    then done (record prior.result { replayed = true })
    else throws (conflict "The assignment request ID was already used with a different payload")

unfoldable pub complete_apply :
    Repository
    → ApplyLeadAssignmentRulesOptions
    → LeadAssignmentDryRun
    → Progress
    → Repository × Outcome ApplyLeadAssignmentRulesResult
complete_apply s o before progress =
    let t = store_cursors s o.operation progress.cursors progress.advanced in
    let result : ApplyLeadAssignmentRulesResult = record {
      dry_run = before;
      request_id = o.input.request_id;
      replayed = false;
      applied_leads = progress.applied;
    } in
    (
      record t {
        lead_assignment_apply_requests =
            set (apply_key o) (record { fingerprint = o.request_fingerprint; result = result })
              t.lead_assignment_apply_requests;
      },
      done result,
    )

abbrev no_progress : Progress
no_progress = record { cursors = []; advanced = []; applied = 0 }

unfoldable pub apply_fresh :
    Repository
    → Locale
    → ApplyLeadAssignmentRulesOptions
    → Repository × Outcome ApplyLeadAssignmentRulesResult
apply_fresh s locale o =
    let leads = if o.input.include_existing_unassigned then values s.leads else [] in
    and_then (apply_leads s locale o.operation leads no_progress) (λ t progress.
      complete_apply t o (dry_run_lead_assignment_rules s locale o.operation) progress)

unfoldable pub apply_lead_assignment_rules :
    Repository
    → Locale
    → ApplyLeadAssignmentRulesOptions
    → Repository × Outcome ApplyLeadAssignmentRulesResult
apply_lead_assignment_rules s locale o =
    once s (get (apply_key o) s.lead_assignment_apply_requests) (replay_apply o)
      (apply_fresh s locale o)
