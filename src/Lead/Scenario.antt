-- ===== src/Lead/Scenario.antt =====
-- Test data for the lead operations: a team lead creates a lead and schedules a follow-up.
use cylizerapp.Base.{true, false, none, some, [], ◌∷◌}
use cylizerapp.Contracts.Employees.{EmployeeStatus}
use cylizerapp.Domain.{LeadAccessScope}
use cylizerapp.Repository.{Repository}
use cylizerapp.Mobile.Scenario.{enrolling, asha}
use cylizerapp.Lead.Detail.{Locale}
use cylizerapp.Lead.Create.{CreateLeadOptions, create_lead}
use cylizerapp.Lead.Update.{UpdateLeadOptions, keep_field, set_field}
use cylizerapp.Lead.FollowUps.{
  CreateLeadFollowUpOptions, CompleteLeadFollowUpOptions, create_lead_follow_up,
}

abbrev pub locale : Locale
locale = record { at_most = λ a b. true; mentions_missed = λ text. false }

abbrev pub north : LeadAccessScope
north = LeadAccessScope.teams ("North" ∷ [])

-- An organization with one active employee and one status for leads.
abbrev pub office : Repository
office = record enrolling {
  employees = ("emp_1", record asha { status = EmployeeStatus.active }) ∷ [];
  lead_statuses =
      (
        "new",
        record {
          id = "new";
          organization_id = "org_1";
          name = "New";
          color = "blue";
          position = 0;
          is_initial = true;
          is_won = false;
          is_lost = false;
          is_active = true;
        },
      )
      ∷ [];
}

abbrev pub creation : CreateLeadOptions
creation = record {
  organization_id = "org_1";
  scope = north;
  input = record {
    first_name = "Ravi";
    last_name = none;
    company_name = none;
    phone_number = "+919800000000";
    alternate_phone_number = none;
    email = none;
    source = none;
    source_reference = none;
    status_id = none;
    temperature = none;
    assigned_employee_id = none;
    tag_ids = none;
    custom_fields = none;
  };
  actor_user_id = "user_1";
  at = 1_000;
}

-- One lead, with version 1, as `lead_000008`.
abbrev pub with_lead : Repository
with_lead = (create_lead office locale creation).0

abbrev pub assignment : UpdateLeadOptions
assignment = record {
  organization_id = "org_1";
  scope = north;
  lead_id = "lead_000008";
  expected_version = 1;
  changes = record {
    first_name = none;
    last_name = set_field "Rao";
    company_name = keep_field;
    phone_number = none;
    alternate_phone_number = keep_field;
    email = keep_field;
    status_id = none;
    temperature = keep_field;
    assigned_employee_id = set_field "emp_1";
    tag_ids = none;
    custom_fields = none;
    archived = none;
  };
  actor_user_id = "user_1";
  can_assign = true;
  at = 2_000;
}

abbrev pub scheduling : CreateLeadFollowUpOptions
scheduling = record {
  organization_id = "org_1";
  scope = north;
  lead_id = "lead_000008";
  input = record {
    lead_id = "lead_000008";
    assigned_employee_id = "emp_1";
    title = "Call back";
    notes = none;
    due_at = 9_000;
    reminder_at = none;
    priority = none;
  };
  actor_user_id = "user_1";
  at = 3_000;
}

-- The lead has one pending follow-up, `follow_up_000010`.
abbrev pub with_follow_up : Repository
with_follow_up = (create_lead_follow_up with_lead locale scheduling).0

abbrev pub completion : CompleteLeadFollowUpOptions
completion = record {
  organization_id = "org_1";
  scope = north;
  follow_up_id = "follow_up_000010";
  input = record { expected_version = 1; completion_note = some "Reached"; completed_at = none };
  actor_user_id = "user_1";
  at = 9_500;
}
