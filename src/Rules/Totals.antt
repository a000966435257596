-- ===== src/Rules/Totals.antt =====
-- The figures of `dryRunLeadAssignmentRules` of apps/api/src/repository.ts.
use mathlib.Core.Option.{some-injective}
use mathlib.Core.List.{Memᴰ}
use cylizerapp.Base.{
  ℕ, zero, suc, ◌+◌, String, ◌≡◌, refl, sym, ap, ◌∙◌, inl, inr, Bool, true, not, some, List, [],
  ◌∷◌, arith, str_eq, Bool-cases, Option-cases, every, count, head?, get_elem?, or_default,
  if◌then◌else◌,
}
use cylizerapp.Base.Dict.{Dict, get, set, values}
use cylizerapp.Base.Text.{truthy}
use cylizerapp.Base.Sorting.{mem-of-keep}
use cylizerapp.Base.Paging.Strict.{mem-of-sort}
use cylizerapp.Contracts.Leads.{Lead}
use cylizerapp.Contracts.LeadOperations.{LeadAssignmentRule, LeadAssignmentDistribution}
use cylizerapp.Domain.Operations.{LeadAssignmentOperationOptions}
use cylizerapp.Repository.{Repository}
use cylizerapp.Lead.Detail.{Locale}
use cylizerapp.Rules.Match.{nonempty, is_matching, matching_rules, rule_before}
use cylizerapp.Rules.DryRun.{
  Tally, no_tally, cursor_of, chosen_index, chosen_employee, is_open_lead, rule_for, tally_rule,
  tally_lead, tally_leads, as_distribution, dry_run_lead_assignment_rules,
}

abbrev total : Dict ℕ → ℕ
total [] = 0
total ((id, n) ∷ rest) = n + total rest

abbrev pub lead_total : List LeadAssignmentDistribution → ℕ
lead_total [] = 0
lead_total (d ∷ rest) = d.lead_count + lead_total rest

lead_total-as_distribution : (m : Dict ℕ) → lead_total (as_distribution m) ≡ total m
unfolding as_distribution
lead_total-as_distribution [] = refl
lead_total-as_distribution ((id, n) ∷ rest) = ap (λ k. n + k) (lead_total-as_distribution rest)

total-set :
    (id : String) (v : ℕ) (m : Dict ℕ) → total (set id v m) + or_default (get id m) 0 ≡ total m + v
unfolding get set
total-set id v [] = omega arith
total-set id v ((j, n) ∷ m) = elim (Bool-cases (str_eq j id)) [
  | inl same ↦ rw same (omega arith)
  | inr other ↦ let h = total-set id v m in rw other (omega arith)
]

total-credit :
    (id : String) (m : Dict ℕ) → total (set id (or_default (get id m) 0 + 1) m) ≡ suc (total m)
total-credit id m = let h = total-set id (or_default (get id m) 0 + 1) m in omega arith

-- No employee of the rule has the empty text as its id.
abbrev pub is_named : LeadAssignmentRule → Bool
is_named rule = every (λ id. not (str_eq id "")) rule.employee_ids

elem-named :
    (ids : List String) (i : ℕ) {id : String}
    → every (λ id. not (str_eq id "")) ids ≡ true
    → get_elem? ids i ≡ some id
    → truthy (some id) ≡ some id
unfolding every
elem-named [] i named e = cc
elem-named (x ∷ xs) zero {id} named e = ground arith
elem-named (x ∷ xs) (suc i) {id} named e = elem-named xs i {id = id} (ground arith) e

head-named :
    (ids : List String) {id : String}
    → every (λ id. not (str_eq id "")) ids ≡ true
    → head? ids ≡ some id
    → truthy (some id) ≡ some id
unfolding every
head-named [] named e = cc
head-named (x ∷ xs) {id} named e = ground arith

chosen-some :
    (rule : LeadAssignmentRule) (cursor : ℕ) (id : String)
    → is_named rule ≡ true
    → head? rule.employee_ids ≡ some id
    → (chosen : String) × (chosen_employee rule cursor ≡ some chosen)
unfolding chosen_employee
chosen-some rule cursor id named first =
    elim (Option-cases (get_elem? rule.employee_ids (chosen_index rule cursor))) [
      | inl out ↦ (id, rw (chosen_employee, out, first) (head-named rule.employee_ids named first))
      | inr (found, e) ↦ (
        found,
        rw (chosen_employee, e)
            (elem-named rule.employee_ids (chosen_index rule cursor) {id = found} named e),
      )
    ]

head-mem : {A : Type 0} (xs : List A) {x : A} → head? xs ≡ some x → Memᴰ x xs
head-mem [] e = cc
head-mem (y ∷ ys) {x} e = Memᴰ.head (sym (some-injective y x e))

nonempty-head : (xs : List String) → nonempty xs ≡ true → (x : String) × (head? xs ≡ some x)
nonempty-head [] e = cc
nonempty-head (x ∷ xs) e = (x, refl)

matching-nonempty :
    (s : Repository) (o : LeadAssignmentOperationOptions) (lead : Lead) (rule : LeadAssignmentRule)
    → is_matching s o.organization_id o.scope lead rule ≡ true
    → nonempty rule.employee_ids ≡ true
unfolding is_matching
matching-nonempty s o lead rule e = ground arith

-- The rules have no empty employee ids.
abbrev pub AreNamed : Repository → Type 0
AreNamed s =
    (rule : LeadAssignmentRule) → Memᴰ rule (values s.lead_assignment_rules) → is_named rule ≡ true

module _ (s : Repository) (locale : Locale) (o : LeadAssignmentOperationOptions)
    (named : AreNamed s) where
  rule_for-some :
      (lead : Lead) (rule : LeadAssignmentRule) (cursor : ℕ)
      → rule_for s locale o lead ≡ some rule
      → (chosen : String) × (chosen_employee rule cursor ≡ some chosen)
  unfolding rule_for matching_rules
  rule_for-some lead rule cursor e =
      let (stored, matching) =
        mem-of-keep (is_matching s o.organization_id o.scope lead) (values s.lead_assignment_rules)
          (mem-of-sort (rule_before locale) _ (head-mem _ e)) in
      let (id, first) =
        nonempty-head rule.employee_ids (matching-nonempty s o lead rule matching) in
      chosen-some rule cursor id (named rule stored) first

  -- The tally is `n` leads further, and all matched leads are credited to someone.
  abbrev IsFurther : ℕ → Tally → Tally → Type 0
  IsFurther n a b =
      (b.matched + b.unmatched ≡ n + (a.matched + a.unmatched))
      × (total a.distribution ≡ a.matched → total b.distribution ≡ b.matched)

  tally_lead-IsFurther :
      (lead : Lead) (tally : Tally)
      → IsFurther (if is_open_lead s o lead then 1 else 0) tally (tally_lead s locale o lead tally)
  unfolding tally_lead tally_rule
  tally_lead-IsFurther lead tally = elim (Bool-cases (is_open_lead s o lead)) [
    | inl free ↦ elim (Option-cases (rule_for s locale o lead)) [
      | inl unmatched ↦ rw (tally_lead, free, unmatched) (omega arith, λ h. h)
      | inr (rule, found) ↦
          let (chosen, e) = rule_for-some lead rule (cursor_of s tally.cursors rule) found in
          rw (tally_lead, free, found, e)
            (omega arith, λ h. total-credit chosen tally.distribution ∙ ap (λ n. suc n) h)
    ]
    | inr closed ↦ rw (tally_lead, closed) (omega arith, λ h. h)
  ]

  tally_leads-IsFurther :
      (leads : List Lead) (tally : Tally)
      → IsFurther (count (is_open_lead s o) leads) tally (tally_leads s locale o leads tally)
  unfolding tally_leads count
  tally_leads-IsFurther [] tally = (omega arith, λ h. h)
  tally_leads-IsFurther (lead ∷ leads) tally =
      let (n, d) = tally_lead-IsFurther lead tally in
      let (n', d') = tally_leads-IsFurther leads (tally_lead s locale o lead tally) in
      (omega (arith, n, n'), λ h. d' (d h))

  -- A dry run counts every open lead once, as matched or as unmatched, and the leads that it
  -- distributes to employees are as many as the matched ones, when no rule names an empty employee
  -- id.
  pub dry_run-totals :
      let run = dry_run_lead_assignment_rules s locale o in
      (run.matched_leads + run.unmatched_leads ≡ count (is_open_lead s o) (values s.leads))
      × (lead_total run.distribution ≡ run.matched_leads)
  unfolding dry_run_lead_assignment_rules
  dry_run-totals =
      let (n, d) = tally_leads-IsFurther (values s.leads) no_tally in
      (omega (arith, n), lead_total-as_distribution _ ∙ d refl)
