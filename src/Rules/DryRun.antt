-- ===== src/Rules/DryRun.antt =====
-- `dryRunLeadAssignmentRules` of apps/api/src/repository.ts.
use cylizerapp.Base.{
  ℕ, suc, ◌+◌, ◌%◌, String, Bool, not, ◌&&◌, Option, none, some, List, [], ◌∷◌, str_eq, is_some,
  head?, length, get_elem?, or_default, if◌then◌else◌,
}
use cylizerapp.Base.Dict.{Dict, get, set, values}
use cylizerapp.Base.Text.{truthy}
use cylizerapp.Contracts.Leads.{Lead}
use cylizerapp.Contracts.LeadOperations.{
  LeadAssignmentRule, LeadAssignmentDistribution, LeadAssignmentDryRun, is_fixed_owner,
}
use cylizerapp.Domain.Operations.{LeadAssignmentOperationOptions}
use cylizerapp.Repository.{Repository}
use cylizerapp.Lead.Access.{can_access_lead}
use cylizerapp.Lead.Detail.{Locale}
use cylizerapp.Lead.Create.{or_else}
use cylizerapp.Rules.Match.{matching_rules}

-- An unarchived lead of the organization that nobody owns and the scope reaches.
unfoldable pub is_open_lead : Repository → LeadAssignmentOperationOptions → Lead → Bool
is_open_lead s o lead =
    str_eq lead.organization_id o.organization_id
    && not (is_some lead.archived_at)
    && not (is_some (truthy lead.assigned_employee_id))
    && can_access_lead s o.scope lead

unfoldable pub rule_for :
    Repository → Locale → LeadAssignmentOperationOptions → Lead → Option LeadAssignmentRule
rule_for s locale o lead = head? (matching_rules s locale o.organization_id o.scope lead)

-- Where the rule stands in its round: as counted in this run, or as stored.
unfoldable pub cursor_of : Repository → Dict ℕ → LeadAssignmentRule → ℕ
cursor_of s cursors rule =
    or_default (get rule.id cursors) (or_default (get rule.id s.lead_assignment_rule_cursors) 0)

unfoldable pub chosen_index : LeadAssignmentRule → ℕ → ℕ
chosen_index rule cursor =
    if is_fixed_owner rule.strategy then 0 else cursor % length rule.employee_ids

abbrev pub advance : LeadAssignmentRule → ℕ → Dict ℕ → Dict ℕ
advance rule cursor cursors =
    if is_fixed_owner rule.strategy then cursors else set rule.id (suc cursor) cursors

-- `rule.employeeIds[index] ?? rule.employeeIds[0]`, when it is not empty.
unfoldable pub chosen_employee : LeadAssignmentRule → ℕ → Option String
chosen_employee rule cursor =
    truthy
      (or_else (get_elem? rule.employee_ids (chosen_index rule cursor)) (head? rule.employee_ids))

pub record Tally : Type 0 where
  pub distribution : Dict ℕ
  pub cursors : Dict ℕ
  pub matched : ℕ
  pub unmatched : ℕ

abbrev pub credit : Option String → Dict ℕ → Dict ℕ
credit none distribution = distribution
credit (some id) distribution = set id (or_default (get id distribution) 0 + 1) distribution

unfoldable pub tally_rule : Repository → LeadAssignmentRule → Tally → Tally
tally_rule s rule tally =
    let cursor = cursor_of s tally.cursors rule in
    record tally {
      matched = suc tally.matched;
      cursors = advance rule cursor tally.cursors;
      distribution = credit (chosen_employee rule cursor) tally.distribution;
    }

unfoldable pub tally_lead :
    Repository → Locale → LeadAssignmentOperationOptions → Lead → Tally → Tally
tally_lead s locale o lead tally =
    if is_open_lead s o lead
    then elim (rule_for s locale o lead) [
      | none ↦ record tally { unmatched = suc tally.unmatched }
      | some rule ↦ tally_rule s rule tally
    ]
    else tally

unfoldable pub tally_leads :
    Repository → Locale → LeadAssignmentOperationOptions → List Lead → Tally → Tally
tally_leads s locale o [] tally = tally
tally_leads s locale o (lead ∷ leads) tally =
    tally_leads s locale o leads (tally_lead s locale o lead tally)

abbrev pub no_tally : Tally
no_tally = record { distribution = []; cursors = []; matched = 0; unmatched = 0 }

unfoldable pub as_distribution : Dict ℕ → List LeadAssignmentDistribution
as_distribution [] = []
as_distribution ((id, n) ∷ rest) =
    record { employee_id = id; lead_count = n } ∷ as_distribution rest

unfoldable pub dry_run_lead_assignment_rules :
    Repository → Locale → LeadAssignmentOperationOptions → LeadAssignmentDryRun
dry_run_lead_assignment_rules s locale o =
    let tally = tally_leads s locale o (values s.leads) no_tally in
    record {
      matched_leads = tally.matched;
      unmatched_leads = tally.unmatched;
      distribution = as_distribution tally.distribution;
    }
