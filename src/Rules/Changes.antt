-- ===== src/Rules/Changes.antt =====
-- `createLeadAssignmentRule` and `updateLeadAssignmentRule` of
-- apps/api/src/repository.ts: what a rule is made of, and what is done once.
use mathlib.Core.List.{Memᴰ}
use cylizerapp.Base.Members.{any-mem, every-mem, str_eq-eq}
use cylizerapp.Base.Text.{text_is}
use cylizerapp.Contracts.Employees.{Employee, EmployeeStatus, is_active_employee}
use cylizerapp.Lead.Access.{includes, employee_team}
use cylizerapp.Lead.Scopes.{ReachesTeam, can_access_team-ReachesTeam}
use cylizerapp.Rules.Match.{can_access_team}
use cylizerapp.Base.{
  inl, inr, [], ◌∷◌, Option, none, str_eq, eq_refl, Option-cases, String, ◌≡◌, ◌≢◌, refl, sym, ap,
  subst, ◌∙◌, true, false, some, List, arith, ◌==◌, every,
}
use cylizerapp.Base.Dict.{get, get-set_self}
use cylizerapp.Base.Outcome.{done, commit_if-eq-done, commit_if_refused}
use cylizerapp.Contracts.LeadOperations.{LeadAssignmentRule}
use cylizerapp.Domain.Operations.{
  LeadAssignmentOperationOptions, CreateLeadAssignmentRuleOptions, UpdateLeadAssignmentRuleOptions,
}
use cylizerapp.Repository.{Repository}
use cylizerapp.Rules.Edit.{
  admit_employees, all_distinct, is_eligible, in_team, new_rule, create_lead_assignment_rule,
  admit_rule_update, changed_rule, update_lead_assignment_rule,
}

-- Each id is followed by other ones only.
abbrev pub AreDifferent : List String → Type 0
AreDifferent [] = Unit
AreDifferent (id ∷ ids) = ((later : String) → Memᴰ later ids → id ≢ later) × AreDifferent ids

-- An employee of the organization, active, of the team, and within the scope.
pub record IsAssignable (s : Repository) (o : LeadAssignmentOperationOptions) (team : String)
    (id : String) : Type 0 where
  pub employee : Employee
  pub stored : get id s.employees ≡ some employee
  pub ours : employee.organization_id ≡ o.organization_id
  pub is_active : employee.status ≡ EmployeeStatus.active
  pub teamed : employee.team ≡ some team
  pub reached : ReachesTeam s o.scope team

-- The employees of a rule: different from each other, and each of them assignable.
pub record AreAssignable (s : Repository) (o : LeadAssignmentOperationOptions) (ids : List String)
    (team : String) : Type 0 where
  pub different : AreDifferent ids
  pub each : (id : String) → Memᴰ id ids → IsAssignable s o team id

different_ids : (ids : List String) → all_distinct ids ≡ true → AreDifferent ids
unfolding all_distinct
different_ids [] h = tt
different_ids (id ∷ ids) h = (
  λ later m e.
      let again : includes ids id ≡ true =
        any-mem (λ candidate. str_eq candidate id) ids (ap (λ x. str_eq x id) (sym e) ∙ eq_refl id)
          m in
      absurd (ground arith),
  different_ids ids (ground arith),
)

status_active :
    (status : EmployeeStatus) → is_active_employee status ≡ true → status ≡ EmployeeStatus.active
status_active EmployeeStatus.invited h = absurd cc
status_active EmployeeStatus.active h = refl
status_active EmployeeStatus.paused h = absurd cc
status_active EmployeeStatus.deactivated h = absurd cc

team_named : (found : Option String) (team : String) → text_is found team ≡ true → found ≡ some team
team_named none team h = absurd cc
team_named (some name) team h = ap some (str_eq-eq name team h)

is_eligible-IsAssignable :
    (s : Repository) (o : LeadAssignmentOperationOptions) (team id : String)
    → is_eligible s o id ≡ true
    → in_team s team id ≡ true
    → IsAssignable s o team id
unfolding is_eligible
is_eligible-IsAssignable s o team id eligible together = elim (Option-cases (get id s.employees)) [
  | inl gone ↦ absurd (ground arith)
  | inr (e, found) ↦
      let same : employee_team s (some id) ≡ e.team = ground arith in
      let teamed = sym same ∙ team_named (employee_team s (some id)) team together in
      let access : can_access_team s o.scope e.team ≡ true = ground arith in
      record {
        employee = e;
        stored = found;
        ours = str_eq-eq e.organization_id o.organization_id (ground arith);
        is_active = status_active e.status (ground arith);
        teamed = teamed;
        reached =
            can_access_team-ReachesTeam s o.scope team
              (subst (λ t. can_access_team s o.scope t ≡ true) teamed access);
      }
]

admit-AreAssignable :
    (s : Repository) (o : LeadAssignmentOperationOptions) (ids : List String) (team : String)
    → admit_employees s o ids ≡ done team
    → AreAssignable s o ids team
unfolding admit_employees
admit-AreAssignable s o ids team e =
    let different : all_distinct ids ≡ true = ground arith in
    let eligible : every (is_eligible s o) ids ≡ true = ground arith in
    let together : every (in_team s team) ids ≡ true = ground arith in
    record {
      different = different_ids ids different;
      each = λ id m.
          is_eligible-IsAssignable s o team id (every-mem (is_eligible s o) ids eligible m)
            (every-mem (in_team s team) ids together m);
    }

-- The rule is stored as new, for the team, at the start of its round.
abbrev pub IsNewRule : Repository → String → LeadAssignmentRule → Type 0
IsNewRule t team rule =
    (get rule.id t.lead_assignment_rules ≡ some rule)
    × (get rule.id t.lead_assignment_rule_teams ≡ some team)
    × (get rule.id t.lead_assignment_rule_cursors ≡ some 0)
    × (rule.version ≡ 1)

-- A created rule is stored with version 1. The ids of its employees are different from each other,
-- and each is that of a stored, active employee of the caller's organization and of one team, which
-- the caller's scope reaches; the rule belongs to that team, and its round starts at 0.
pub create_rule-AreAssignable :
    (trim : String → String) (s t : Repository) (o : CreateLeadAssignmentRuleOptions)
    (rule : LeadAssignmentRule)
    → create_lead_assignment_rule trim s o ≡ (t, done rule)
    → (team : String) × AreAssignable s o.operation rule.employee_ids team × IsNewRule t team rule
unfolding create_lead_assignment_rule new_rule
create_rule-AreAssignable trim s t o rule e =
    let (team, admitted, written) =
      commit_if-eq-done s (admit_employees s o.operation o.input.employee_ids) _ e in
    let new = new_rule trim s o in
    let same : new ≡ rule = ap (λ p. p.1) written in
    let stored : IsNewRule t team new = (
      sym (ap (λ p. get new.id p.0.lead_assignment_rules) written)
          ∙ get-set_self new.id new s.lead_assignment_rules,
      sym (ap (λ p. get new.id p.0.lead_assignment_rule_teams) written)
          ∙ get-set_self new.id team s.lead_assignment_rule_teams,
      sym (ap (λ p. get new.id p.0.lead_assignment_rule_cursors) written)
          ∙ get-set_self new.id 0 s.lead_assignment_rule_cursors,
      refl,
    ) in
    (
      team,
      subst (λ r. AreAssignable s o.operation r.employee_ids team) same
          (admit-AreAssignable s o.operation o.input.employee_ids team admitted),
      subst (IsNewRule t team) same stored,
    )

stale_rule :
    (t : Repository) (o : UpdateLeadAssignmentRuleOptions) (rule : LeadAssignmentRule)
    → get o.rule_id t.lead_assignment_rules ≡ some rule
    → (rule.version == o.input.expected_version) ≡ false
    → (found : LeadAssignmentRule × String) → admit_rule_update t o ≢ done found
unfolding admit_rule_update
stale_rule t o rule stored stale found e = ground arith

update-version :
    (s : Repository) (o : UpdateLeadAssignmentRuleOptions) (found : LeadAssignmentRule × String)
    → admit_rule_update s o ≡ done found
    → found.0.version ≡ o.input.expected_version
unfolding admit_rule_update
update-version s o found e = ground arith

-- After an update of a rule, any other update that was prepared against the same version is
-- refused and changes nothing.
pub update_rule_once :
    (trim : String → String) (s t : Repository) (o o' : UpdateLeadAssignmentRuleOptions)
    (rule : LeadAssignmentRule)
    → update_lead_assignment_rule trim s o ≡ (t, done rule)
    → o'.rule_id ≡ o.rule_id
    → o'.input.expected_version ≡ o.input.expected_version
    → ((update_lead_assignment_rule trim t o').0 ≡ t)
      × ((r : LeadAssignmentRule) → (update_lead_assignment_rule trim t o').1 ≢ done r)
unfolding update_lead_assignment_rule changed_rule
update_rule_once trim s t o o' rule e same_rule same_version =
    let (found, admitted, written) = commit_if-eq-done s (admit_rule_update s o) _ e in
    let new = changed_rule trim o found.0 in
    let stored : get o.rule_id t.lead_assignment_rules ≡ some new =
      sym (ap (λ p. get o.rule_id p.0.lead_assignment_rules) written)
      ∙ get-set_self o.rule_id new s.lead_assignment_rules in
    let version = update-version s o found admitted in
    commit_if_refused t (admit_rule_update t o') _ (
      stale_rule t o' new (ap (λ id. get id t.lead_assignment_rules) same_rule ∙ stored)
        (ground (arith, version, same_version)))
