-- ===== src/Listing/Tests.antt =====
-- Tests of the listings of apps/api/src/repository.ts on the scenario.
use cylizerapp.Mobile.Activation.{
  activate_mobile_device, admit_activation, commit_activation, is_fresh_session,
}
use cylizerapp.Mobile.Consent.{in_consent_window, agreed_policy, completed_request}
use cylizerapp.Mobile.Credentials.{
  find_current_mobile_credential, names_credential, is_usable, stands_for, is_registered,
  is_consent_current,
}
use cylizerapp.Mobile.PairingCheck.{examine}
use cylizerapp.Mobile.Pairing.{
  redeem_pairing_code, commit_redemption, store_redemption, prepare_device,
}
use cylizerapp.Base.Text.{pad_decimal, is_sha256_hex}
use cylizerapp.Repository.{next_id}
use cylizerapp.Base.Dict.{get, set, values}
use cylizerapp.Base.{find, any, keep, sort, insert_sorted, ◌≡◌, refl, false, none, List, [], arith}
use cylizerapp.Base.Outcome.{Outcome, done}
use cylizerapp.Base.Paging.{collect}
use cylizerapp.Contracts.Leads.{LeadQueueKey}
use cylizerapp.Lead.Detail.{LeadListItem}
use cylizerapp.Listing.Employees.{
  matches_employee, employee_before, next_employees, sorted_employees, collect-list_employees,
}
use cylizerapp.Listing.Leads.{list_leads, ListLeadsOptions, LeadListResult}
use cylizerapp.Mobile.Scenario.{asha}
use cylizerapp.Lead.Scenario.{with_lead, north}
use cylizerapp.Listing.Scenario.{
  by_code, by_code-IsOrder, text_antisymmetric, pair-IsUntied, searching, namesake, two_employees,
  every_employee,
}

-- The same for two employees of one name.
collect-list_employees_example :
    collect (next_employees two_employees by_code searching "org_1" every_employee 1) 3 none
    ≡ sorted_employees two_employees by_code searching "org_1" every_employee
unfolding get set values find any next_id pad_decimal redeem_pairing_code commit_redemption
    store_redemption prepare_device examine find_current_mobile_credential names_credential
    is_usable stands_for is_registered is_sha256_hex in_consent_window agreed_policy
    completed_request activate_mobile_device admit_activation commit_activation is_fresh_session
    is_consent_current keep sort insert_sorted matches_employee employee_before sorted_employees
collect-list_employees_example =
    collect-list_employees two_employees by_code searching "org_1" every_employee 1 3
      by_code-IsOrder (λ x y _ _. text_antisymmetric x.display_name y.display_name)
      (pair-IsUntied (employee_before by_code) asha namesake (λ e. refl)) (omega arith)
      (omega arith)

abbrev newcomers : ListLeadsOptions
newcomers = record {
  organization_id = "org_1";
  scope = north;
  filter = record {
    search = none;
    status_id = none;
    assigned_employee_id = none;
    queue = LeadQueueKey.not_contacted;
  };
  after = none;
  limit = 5;
  at = 5_000;
}

abbrev listed : Outcome LeadListResult → List LeadListItem
listed (done result) = result.items
listed _ = []

abbrev shown : List LeadListItem
shown = listed (list_leads with_lead by_code searching (λ a b. false) newcomers)
