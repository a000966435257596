-- ===== src/Rules/Scenario.antt =====
-- Test data for the assignment rules: one unassigned lead and a rule for the one employee of its
-- team.
use cylizerapp.Base.{String, true, none, some, [], ◌∷◌}
use cylizerapp.Contracts.LeadOperations.{LeadAssignmentRule, LeadAssignmentStrategy}
use cylizerapp.Domain.Operations.{
  LeadAssignmentOperationOptions, CreateLeadAssignmentRuleOptions, UpdateLeadAssignmentRuleOptions,
  ApplyLeadAssignmentRulesOptions,
}
use cylizerapp.Repository.{Repository}
use cylizerapp.Lead.Scenario.{with_lead, north, locale}
use cylizerapp.Rules.Edit.{create_lead_assignment_rule, update_lead_assignment_rule, new_rule}
use cylizerapp.Rules.Assign.{apply_lead_assignment_rules}

abbrev pub operation : LeadAssignmentOperationOptions
operation = record {
  organization_id = "org_1";
  scope = north;
  actor_user_id = "user_1";
  at = 2_000;
}

abbrev pub rule_creation : CreateLeadAssignmentRuleOptions
rule_creation = record {
  operation = operation;
  input = record {
    name = "Round";
    priority = 1;
    active = none;
    conditions = none;
    strategy = LeadAssignmentStrategy.round_robin;
    employee_ids = "emp_1" ∷ [];
  };
}

abbrev pub same_name : String → String
same_name name = name

abbrev pub with_rule : Repository
with_rule = (create_lead_assignment_rule same_name with_lead rule_creation).0

abbrev pub first_rule : LeadAssignmentRule
first_rule = new_rule same_name with_lead rule_creation

abbrev pub rule_update : UpdateLeadAssignmentRuleOptions
rule_update = record {
  operation = operation;
  rule_id = "lead_assignment_rule_000010";
  input = record {
    expected_version = 1;
    changes = record {
      name = some "All";
      priority = none;
      active = none;
      conditions = none;
      strategy = none;
      employee_ids = none;
    };
  };
}

abbrev pub with_updated_rule : Repository
with_updated_rule = (update_lead_assignment_rule same_name with_rule rule_update).0

abbrev pub application : ApplyLeadAssignmentRulesOptions
application = record {
  operation = operation;
  input = record { request_id = "apply_1"; include_existing_unassigned = true };
  request_fingerprint = "fp_apply";
}

abbrev pub with_owners : Repository
with_owners = (apply_lead_assignment_rules with_rule locale application).0
