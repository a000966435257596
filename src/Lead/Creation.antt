-- ===== src/Lead/Creation.antt =====
-- `createLead` of apps/api/src/repository.ts: who creates a lead can see it.
use cylizerapp.Base.{
  String, ◌≡◌, refl, sym, ap, ◌∙◌, true, false, Option, none, some, List, [], ◌∷◌, arith, eq_refl,
  str_eq, is_some, any, Option-cases, inl, inr, head?, Bool-cases, ◌⊎◌,
}
use cylizerapp.Base.Dict.{get, get-set_self}
use cylizerapp.Base.Text.{truthy}
use cylizerapp.Base.Outcome.{done, run_if-eq-done}
use cylizerapp.Contracts.Leads.{Lead, LeadStatus}
use cylizerapp.Domain.{LeadAccessScope}
use cylizerapp.Repository.{Repository}
use cylizerapp.Lead.Access.{can_access_lead, team_of_lead, in_teams, validate_lead_assignment}
use cylizerapp.Lead.Detail.{Locale, LeadDetail}
use cylizerapp.Lead.Entries.{add_activity}
use cylizerapp.Lead.Create.{
  CreateLeadOptions, create_lead, admit_create, new_lead, new_lead_team, write_lead, assignable,
  own_lead, set_team, assigned_team, or_else,
}

false_not_true : false ≡ true → ⊥
false_not_true e = cc

-- A scope that names an employee, or whose first team has a name.
abbrev pub IsNamed : LeadAccessScope → Type 0
IsNamed LeadAccessScope.organization = Unit
IsNamed (LeadAccessScope.teams []) = ⊥
IsNamed (LeadAccessScope.teams (name ∷ names)) = str_eq name "" ≡ false
IsNamed (LeadAccessScope.assigned employee_id) = str_eq employee_id "" ≡ false

admit_create-done :
    (s : Repository) (o : CreateLeadOptions) (status : LeadStatus)
    → admit_create s o ≡ done status
    → (str_eq status.organization_id o.organization_id ≡ true)
      × (status.is_active ≡ true)
      × (assignable s o.organization_id o.scope o.input.assigned_employee_id ≡ true)
      × (own_lead o.scope o.input.assigned_employee_id ≡ true)
unfolding admit_create
admit_create-done s o status e = ground arith

-- An employee to whom a team lead may assign is in one of the lead's teams.
assignable-in_teams :
    (s : Repository) (organization_id : String) (names : List String) (id : String)
    → is_some (validate_lead_assignment s organization_id (LeadAccessScope.teams names) id) ≡ true
    → in_teams names (assigned_team s (some id)) ≡ true
unfolding validate_lead_assignment
assignable-in_teams s organization_id names id h = ground arith

-- The team of an assignee, or else the first of the scope.
choose_team :
    (names : List String) (own : Option String)
    → IsNamed (LeadAccessScope.teams names)
    → (own ≡ none) ⊎ (in_teams names own ≡ true)
    → (team : String) × (truthy (or_else own (head? names)) ≡ some team)
      × (in_teams names (some team) ≡ true)
unfolding any
choose_team [] own named c = absurd named
choose_team (name ∷ names) none named c = (name, rw named refl, ground (arith, eq_refl name))
choose_team (name ∷ names) (some team) named (inl e) = cc
choose_team (name ∷ names) (some team) named (inr h) = elim (Bool-cases (str_eq team "")) [
  | inl empty ↦ absurd (false_not_true (rw (empty, in_teams) at h))
  | inr named' ↦ (team, rw named' refl, h)
]

own_team :
    (s : Repository) (organization_id : String) (names : List String) (assignee : Option String)
    → assignable s organization_id (LeadAccessScope.teams names) assignee ≡ true
    → (assigned_team s (truthy assignee) ≡ none)
      ⊎ (in_teams names (assigned_team s (truthy assignee)) ≡ true)
unfolding assignable
own_team s organization_id names assignee h = elim (Option-cases (truthy assignee)) [
  | inl absent ↦ inl (rw absent refl)
  | inr (id, present) ↦
      inr (
        rw present (assignable-in_teams s organization_id names id (rw (present, assignable) at h)))
]

new_lead-can_access :
    (s t : Repository) (o : CreateLeadOptions) (scope : LeadAccessScope) (lead : Lead)
    → IsNamed scope
    → o.scope ≡ scope
    → lead.assigned_employee_id ≡ o.input.assigned_employee_id
    → assignable s o.organization_id scope o.input.assigned_employee_id ≡ true
    → own_lead scope o.input.assigned_employee_id ≡ true
    → t.lead_teams ≡ set_team lead.id (new_lead_team s o) s.lead_teams
    → can_access_lead t scope lead ≡ true
unfolding can_access_lead team_of_lead new_lead_team
new_lead-can_access s t o LeadAccessScope.organization lead named scope same h own teams = refl
new_lead-can_access s t o (LeadAccessScope.assigned id) lead named scope same h own teams =
    rw (same, named) own
new_lead-can_access s t o (LeadAccessScope.teams names) lead named scope same h own teams =
    let (team, chosen, included) =
      choose_team names (assigned_team s (truthy o.input.assigned_employee_id)) named
        (own_team s o.organization_id names o.input.assigned_employee_id h) in
    let chosen' : new_lead_team s o ≡ some team = rw scope chosen in
    let stored : get lead.id t.lead_teams ≡ some team =
      rw (teams, chosen') (get-set_self lead.id team s.lead_teams) in
    rw (stored, can_access_lead, team_of_lead) included

-- A lead that is created is stored with version 1 and is one that the scope of its creator
-- reaches, for a scope whose employee, or whose first team, has a name.
pub create-can_access :
    (s t : Repository) (locale : Locale) (o : CreateLeadOptions) (d : LeadDetail)
    → IsNamed o.scope
    → create_lead s locale o ≡ (t, done d)
    → (lead : Lead) × (get lead.id t.leads ≡ some lead)
      × (lead.organization_id ≡ o.organization_id)
      × (lead.version ≡ 1)
      × (can_access_lead t o.scope lead ≡ true)
unfolding create_lead write_lead add_activity new_lead
create-can_access s t locale o d named e =
    let (status, admitted, written) = run_if-eq-done s (admit_create s o) _ e in
    let (_, _, h, own) = admit_create-done s o status admitted in
    let lead = new_lead s o status in
    (
      lead,
      ap (λ q. get lead.id q.0.leads) (sym written) ∙ get-set_self lead.id lead s.leads,
      refl,
      refl,
      new_lead-can_access s t o o.scope lead named refl refl h own
          (ap (λ q. q.0.lead_teams) (sym written)),
    )
