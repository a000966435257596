-- ===== src/Lead/Scopes.antt =====
-- What the scopes of `canAccessLead` and `canAccessTeam` in apps/api/src/repository.ts reach.
use mathlib.Core.List.{Memᴰ}
use cylizerapp.Base.{
  String, ◌≡◌, refl, ap, subst, inl, inr, true, Option, none, some, List, arith, str_eq, Bool-cases,
}
use cylizerapp.Base.Members.{mem-any, str_eq-eq}
use cylizerapp.Contracts.Leads.{Lead}
use cylizerapp.Domain.{LeadAccessScope}
use cylizerapp.Repository.{Repository}
use cylizerapp.Lead.Access.{
  can_access_lead, employee_team, includes, in_teams, is_employee, team_of_lead,
}
use cylizerapp.Rules.Match.{can_access_team}

-- Every team, the named teams, or the team of the employee.
abbrev pub ReachesTeam : Repository → LeadAccessScope → String → Type 0
ReachesTeam s LeadAccessScope.organization team = Unit
ReachesTeam s (LeadAccessScope.teams names) team = Memᴰ team names
ReachesTeam s (LeadAccessScope.assigned employee_id) team =
    employee_team s (some employee_id) ≡ some team

-- Every lead, the leads of the named teams, or the employee's own leads.
abbrev pub ReachesLead : Repository → LeadAccessScope → Lead → Type 0
ReachesLead s LeadAccessScope.organization lead = Unit
ReachesLead s (LeadAccessScope.teams names) lead =
    (team : String) × (team_of_lead s lead ≡ some team) × Memᴰ team names
ReachesLead s (LeadAccessScope.assigned employee_id) lead =
    lead.assigned_employee_id ≡ some employee_id

includes-mem : (names : List String) (name : String) → includes names name ≡ true → Memᴰ name names
includes-mem names name h =
    let (found, m, same) = mem-any (λ candidate. str_eq candidate name) names h in
    subst (λ x. Memᴰ x names) (str_eq-eq found name same) m

in_teams-mem :
    (names : List String) (team : Option String)
    → in_teams names team ≡ true
    → (name : String) × (team ≡ some name) × Memᴰ name names
in_teams-mem names none h = absurd cc
in_teams-mem names (some name) h = elim (Bool-cases (str_eq name "")) [
  | inl empty ↦ absurd (ground arith)
  | inr given ↦ (name, refl, includes-mem names name (ground arith))
]

is_employee-some :
    (assigned : Option String) (id : String) → is_employee assigned id ≡ true → assigned ≡ some id
is_employee-some none id h = absurd cc
is_employee-some (some found) id h = ap some (str_eq-eq found id h)

pub can_access_team-ReachesTeam :
    (s : Repository) (scope : LeadAccessScope) (team : String)
    → can_access_team s scope (some team) ≡ true
    → ReachesTeam s scope team
unfolding can_access_team
can_access_team-ReachesTeam s LeadAccessScope.organization team h = tt
can_access_team-ReachesTeam s (LeadAccessScope.teams names) team h =
    elim (Bool-cases (str_eq team "")) [
      | inl empty ↦ absurd (ground arith)
      | inr given ↦ includes-mem names team (ground arith)
    ]
can_access_team-ReachesTeam s (LeadAccessScope.assigned employee_id) team h =
    elim (Bool-cases (str_eq team "")) [
      | inl empty ↦ absurd (ground arith)
      | inr given ↦ is_employee-some (employee_team s (some employee_id)) team (ground arith)
    ]

pub can_access_lead-ReachesLead :
    (s : Repository) (scope : LeadAccessScope) (lead : Lead)
    → can_access_lead s scope lead ≡ true
    → ReachesLead s scope lead
unfolding can_access_lead
can_access_lead-ReachesLead s LeadAccessScope.organization lead h = tt
can_access_lead-ReachesLead s (LeadAccessScope.teams names) lead h =
    in_teams-mem names (team_of_lead s lead) h
can_access_lead-ReachesLead s (LeadAccessScope.assigned employee_id) lead h =
    is_employee-some lead.assigned_employee_id employee_id (ground arith)
