-- ===== src/Lead/MobileTests.antt =====
-- Tests of `updateLead` and `applyMobileLeadUpdate` of apps/api/src/repository.ts.
use cylizerapp.Lead.Update.{
  update_lead, admit_update, status_admits, assignment_admits, apply_changes, close_update,
  write_changes, write_update, update_kind,
}
use cylizerapp.Lead.Create.{
  create_lead, admit_create, requested_status, assignable, new_lead, new_lead_team, write_lead,
}
use cylizerapp.Lead.Entries.{add_activity}
use cylizerapp.Lead.Detail.{
  LeadDetail, build_lead_detail, build_lead_list_item, follow_ups_for_lead,
  unreturned_missed_call_count,
}
use cylizerapp.Lead.Access.{
  status_for_lead, default_lead_status, can_access_lead, find_accessible_lead,
  validate_lead_assignment, team_of_lead,
}
use cylizerapp.Mobile.Activation.{
  activate_mobile_device, admit_activation, commit_activation, is_fresh_session,
}
use cylizerapp.Mobile.Consent.{in_consent_window, agreed_policy, completed_request}
use cylizerapp.Mobile.Credentials.{
  find_current_mobile_credential, names_credential, is_usable, stands_for, is_registered,
  is_consent_current,
}
use cylizerapp.Mobile.PairingCheck.{examine}
use cylizerapp.Mobile.Pairing.{
  redeem_pairing_code, commit_redemption, store_redemption, prepare_device,
}
use cylizerapp.Base.Text.{pad_decimal, is_sha256_hex}
use cylizerapp.Base.Dict.{get, set, values}
use cylizerapp.Base.{
  find, any, keep, sort, insert_sorted, count, ◌≡◌, ◌≢◌, ◌+◌, refl, none, some, [], ◌∷◌,
}
use cylizerapp.Base.Outcome.{done, throws, conflict}
use cylizerapp.Contracts.Employees.{EmployeeStatus}
use cylizerapp.Domain.Operations.{MobileLeadUpdateOptions}
use cylizerapp.Repository.{next_id, Repository}
use cylizerapp.Mobile.Scenario.{active, session, asha}
use cylizerapp.Lead.Scenario.{with_lead, assignment, locale}
use cylizerapp.Lead.MobileAdmit.{
  admit_session, outside_window, requested_change, admit_mobile_update,
}
use cylizerapp.Lead.MobileUpdate.{
  apply_mobile_lead_update, add_mobile_activity, with_status, write_status, write_mobile_note,
  write_mobile_follow_up, sooner, mobile_changed, write_mobile_update, store_receipt,
  commit_mobile_update, replay_mobile_update,
}
use cylizerapp.Contracts.Leads.{Lead}
use cylizerapp.Lead.Changes.{update_once}
use cylizerapp.Lead.MobileReplay.{mobile_update_again}

-- The telephone is active, and its employee, who has a user, owns a lead.
abbrev owning : Repository
owning = record active {
  employees =
      ("emp_1", record asha { status = EmployeeStatus.active; linked_user_id = some "user_1" })
      ∷ [];
  lead_statuses = with_lead.lead_statuses;
  leads = (update_lead with_lead locale assignment).0.leads;
}

abbrev visit : MobileLeadUpdateOptions
visit = record {
  context = session;
  lead_id = "lead_000008";
  input = record {
    request_id = "visit_1";
    expected_lead_version = 2;
    occurred_at = 3_500;
    status_id = none;
    note = some "Met";
    follow_up = none;
  };
  request_fingerprint = "fp_visit";
  at = 4_000;
}

abbrev after_visit : Repository
after_visit = (apply_mobile_lead_update owning locale visit).0

mobile_update_again_example :
    apply_mobile_lead_update after_visit locale (record visit { request_fingerprint = "fp_2" }) ≡ (
      after_visit,
      throws (conflict "The mobile update request ID was already used with a different payload"),
    )
unfolding get set values find any next_id pad_decimal redeem_pairing_code commit_redemption
    store_redemption prepare_device examine find_current_mobile_credential names_credential
    is_usable stands_for is_registered is_sha256_hex in_consent_window agreed_policy
    completed_request activate_mobile_device admit_activation commit_activation is_fresh_session
    is_consent_current keep sort insert_sorted count status_for_lead default_lead_status
    build_lead_detail build_lead_list_item follow_ups_for_lead unreturned_missed_call_count
    add_activity create_lead admit_create requested_status assignable new_lead new_lead_team
    write_lead can_access_lead find_accessible_lead validate_lead_assignment team_of_lead
    update_lead admit_update status_admits assignment_admits apply_changes close_update
    write_changes write_update update_kind apply_mobile_lead_update admit_session outside_window
    requested_change admit_mobile_update add_mobile_activity with_status write_status
    write_mobile_note write_mobile_follow_up sooner mobile_changed write_mobile_update store_receipt
    commit_mobile_update replay_mobile_update
mobile_update_again_example =
    mobile_update_again owning after_visit locale visit
      (record visit { request_fingerprint = "fp_2" }) _ refl refl refl

-- The telephone's employee does not own the lead yet.
abbrev before_assignment : Repository
before_assignment = record owning { leads = with_lead.leads; lead_teams = with_lead.lead_teams }

abbrev assigned : Repository
assigned = (update_lead before_assignment locale assignment).0

-- The same visit, prepared before the assignment.
abbrev early_visit : MobileLeadUpdateOptions
early_visit = record visit { input = record visit.input { expected_lead_version = 1 } }

update_once_example :
    ((lead : Lead) × (get "lead_000008" assigned.leads ≡ some lead) × (lead.version ≡ 1 + 1))
    × ((update_lead assigned locale assignment).0 ≡ assigned)
    × ((d' : LeadDetail) → (update_lead assigned locale assignment).1 ≢ done d')
    × ((apply_mobile_lead_update assigned locale early_visit).0 ≡ assigned)
unfolding get set values find any next_id pad_decimal redeem_pairing_code commit_redemption
    store_redemption prepare_device examine find_current_mobile_credential names_credential
    is_usable stands_for is_registered is_sha256_hex in_consent_window agreed_policy
    completed_request activate_mobile_device admit_activation commit_activation is_fresh_session
    is_consent_current keep sort insert_sorted count status_for_lead default_lead_status
    build_lead_detail build_lead_list_item follow_ups_for_lead unreturned_missed_call_count
    add_activity create_lead admit_create requested_status assignable new_lead new_lead_team
    write_lead can_access_lead find_accessible_lead validate_lead_assignment team_of_lead
    update_lead admit_update status_admits assignment_admits apply_changes close_update
    write_changes write_update update_kind
update_once_example =
    update_once before_assignment assigned locale assignment assignment early_visit _ refl refl refl
      refl refl
