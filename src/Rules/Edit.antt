-- ===== src/Rules/Edit.antt =====
-- `createLeadAssignmentRule` and `updateLeadAssignmentRule` of apps/api/src/repository.ts. `trim`
-- of the platform is a parameter.
use cylizerapp.Base.{
  suc, String, Bool, true, false, not, ◌&&◌, Option, none, some, List, [], ◌∷◌, ◌==◌, str_eq, every,
  head?, length, or_default,
}
use cylizerapp.Base.Dict.{get, set}
use cylizerapp.Base.Text.{truthy, text_is}
use cylizerapp.Base.Outcome.{
  Outcome, done, commit_if, conflict, lookup_or_missing, require, throw_if, ◌>>=◌, ◌>>◌,
}
use cylizerapp.Contracts.Employees.{is_active_employee}
use cylizerapp.Contracts.LeadOperations.{
  LeadAssignmentRule, LeadAssignmentConditions, LeadAssignmentStrategy, is_fixed_owner,
}
use cylizerapp.Domain.Operations.{
  LeadAssignmentOperationOptions, CreateLeadAssignmentRuleOptions, UpdateLeadAssignmentRuleOptions,
}
use cylizerapp.Repository.{Repository, next_id, tick_id}
use cylizerapp.Lead.Access.{employee_team, includes}
use cylizerapp.Rules.Match.{can_access_team}

-- `new Set(ids).size === ids.length`.
unfoldable pub all_distinct : List String → Bool
all_distinct [] = true
all_distinct (id ∷ ids) = not (includes ids id) && all_distinct ids

-- An active employee of the organization in a team that the scope reaches.
unfoldable pub is_eligible : Repository → LeadAssignmentOperationOptions → String → Bool
is_eligible s o id = elim (get id s.employees) [
  | none ↦ false
  | some e ↦
      str_eq e.organization_id o.organization_id
      && is_active_employee e.status
      && can_access_team s o.scope e.team
]

abbrev pub first_team : Repository → List String → Option String
first_team s ids = truthy (employee_team s (head? ids))

abbrev pub in_team : Repository → String → String → Bool
in_team s team id = text_is (employee_team s (some id)) team

-- The team of the employees, when there are some, all different, eligible and of one team.
unfoldable pub admit_employees :
    Repository → LeadAssignmentOperationOptions → List String → Outcome String
admit_employees s o ids = do
  require (all_distinct ids)
  require (every (is_eligible s o) ids)
  team ← lookup_or_missing (first_team s ids)
  require (every (in_team s team) ids)
  done team

abbrev no_conditions : LeadAssignmentConditions
no_conditions = record { sources = none; temperatures = none; status_ids = none }

unfoldable pub new_rule :
    (String → String) → Repository → CreateLeadAssignmentRuleOptions → LeadAssignmentRule
unfolding next_id
new_rule trim s o = record {
  id = next_id "lead_assignment_rule" s;
  organization_id = o.operation.organization_id;
  name = trim o.input.name;
  priority = o.input.priority;
  active = or_default o.input.active true;
  conditions = or_default o.input.conditions no_conditions;
  strategy = o.input.strategy;
  employee_ids = o.input.employee_ids;
  version = 1;
  created_by_user_id = o.operation.actor_user_id;
  updated_by_user_id = o.operation.actor_user_id;
  created_at = o.operation.at;
  updated_at = o.operation.at;
}

unfoldable pub create_lead_assignment_rule :
    (String → String)
    → Repository
    → CreateLeadAssignmentRuleOptions
    → Repository × Outcome LeadAssignmentRule
create_lead_assignment_rule trim s o =
    commit_if s (admit_employees s o.operation o.input.employee_ids) (λ team.
      let rule = new_rule trim s o in
      (
        record (tick_id s) {
          lead_assignment_rules = set rule.id rule s.lead_assignment_rules;
          lead_assignment_rule_teams = set rule.id team s.lead_assignment_rule_teams;
          lead_assignment_rule_cursors = set rule.id 0 s.lead_assignment_rule_cursors;
        },
        rule,
      ))

abbrev pub changed_employees : UpdateLeadAssignmentRuleOptions → LeadAssignmentRule → List String
changed_employees o rule = or_default o.input.changes.employee_ids rule.employee_ids

abbrev changed_strategy :
    UpdateLeadAssignmentRuleOptions → LeadAssignmentRule → LeadAssignmentStrategy
changed_strategy o rule = or_default o.input.changes.strategy rule.strategy

-- The rule and its team, when the change is allowed.
unfoldable pub admit_rule_update :
    Repository → UpdateLeadAssignmentRuleOptions → Outcome (LeadAssignmentRule × String)
admit_rule_update s o = do
  rule ← lookup_or_missing (get o.rule_id s.lead_assignment_rules)
  require (
      str_eq rule.organization_id o.operation.organization_id
      && can_access_team s o.operation.scope (get rule.id s.lead_assignment_rule_teams))
  throw_if (not (rule.version == o.input.expected_version))
      (conflict "The assignment rule changed; refresh and retry")
  team ← admit_employees s o.operation (changed_employees o rule)
  require (
      not
        (is_fixed_owner (changed_strategy o rule) && not (length (changed_employees o rule) == 1)))
  throw_if (not (text_is (get rule.id s.lead_assignment_rule_teams) team))
      (conflict "Assignment rule team is immutable; create a new rule for another team")
  done (rule, team)

abbrev trimmed : (String → String) → Option String → String → String
trimmed trim none old = old
trimmed trim (some name) old = trim name

unfoldable pub changed_rule :
    (String → String) → UpdateLeadAssignmentRuleOptions → LeadAssignmentRule → LeadAssignmentRule
changed_rule trim o rule = record rule {
  name = trimmed trim o.input.changes.name rule.name;
  priority = or_default o.input.changes.priority rule.priority;
  active = or_default o.input.changes.active rule.active;
  conditions = or_default o.input.changes.conditions rule.conditions;
  strategy = changed_strategy o rule;
  employee_ids = changed_employees o rule;
  updated_by_user_id = o.operation.actor_user_id;
  updated_at = o.operation.at;
  version = suc rule.version;
}

unfoldable pub update_lead_assignment_rule :
    (String → String)
    → Repository
    → UpdateLeadAssignmentRuleOptions
    → Repository × Outcome LeadAssignmentRule
update_lead_assignment_rule trim s o = commit_if s (admit_rule_update s o) (λ found.
    let rule = changed_rule trim o found.0 in
    (
      record s {
        lead_assignment_rules = set o.rule_id rule s.lead_assignment_rules;
        lead_assignment_rule_teams = set rule.id found.1 s.lead_assignment_rule_teams;
      },
      rule,
    ))
