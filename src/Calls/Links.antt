-- ===== src/Calls/Links.antt =====
-- Which lead a call is linked to by `linkCallToUniqueLead` of apps/api/src/repository.ts.
use mathlib.Core.Option.{some-injective}
use mathlib.Core.List.Memᴰ
use mathlib.Core.List.{Memᴰ}
use cylizerapp.Base.{
  String, ◌≡◌, refl, sym, ap, ◌∙◌, inl, inr, true, false, none, some, List, [], ◌∷◌, Bool-cases,
  Option-cases, keep,
}
use cylizerapp.Base.Sorting.{mem-keep, mem-of-keep}
use cylizerapp.Base.Dict.{get, values, get-set_self}
use cylizerapp.Base.Text.{truthy}
use cylizerapp.Contracts.Calls.{CallLog}
use cylizerapp.Contracts.Leads.{Lead}
use cylizerapp.Contracts.Organizations.{IsoDateTime}
use cylizerapp.Repository.{Repository}
use cylizerapp.Lead.Access.{employee_team}
use cylizerapp.Calls.Link.{
  link_call_to_unique_lead, link_to, record_link, the_only, link_candidates, linked_lead_id,
  matches_call,
}

some_not_none : {a : String} → some a ≡ none → ⊥
some_not_none e = cc

the_only-all : {A : Type 0} (xs : List A) {a b : A} → the_only xs ≡ some a → Memᴰ b xs → b ≡ a
the_only-all [] e m = cc
the_only-all (x ∷ []) {a} {b} e m = elim (Memᴰ.cases_cons m) [
  | inl same ↦ same ∙ some-injective x a e
  | inr rest ↦ absurd (Memᴰ.not-nil rest)
]
the_only-all (x ∷ y ∷ more) e m = cc

the_only-mem : {A : Type 0} (xs : List A) {a : A} → the_only xs ≡ some a → Memᴰ a xs
the_only-mem [] e = cc
the_only-mem (x ∷ []) {a} e = Memᴰ.head (sym (some-injective x a e))
the_only-mem (x ∷ y ∷ more) e = cc

-- `lead` is the one lead of the call's team that matches the call.
pub record IsUniqueMatch (s : Repository) (call : CallLog) (lead : Lead) : Type 0 where
  pub team : String
  pub of_employee : truthy (employee_team s (some call.employee_id)) ≡ some team
  pub external : call.participant.is_internal ≡ false
  pub listed : Memᴰ lead (values s.leads)
  pub matching : matches_call s call team lead ≡ true
  pub unique :
      (other : Lead)
      → Memᴰ other (values s.leads)
      → matches_call s call team other ≡ true
      → other ≡ lead

module _ (s : Repository) (call : CallLog) (at : IsoDateTime)
    (new : get call.id s.lead_id_by_call_id ≡ none) where
  candidates :
      (team : String)
      → link_candidates s call team ≡ keep (matches_call s call team) (values s.leads)
  unfolding link_candidates
  candidates team = rw (link_candidates, new) refl

  found-IsUniqueMatch :
      (team : String) (lead : Lead)
      → truthy (employee_team s (some call.employee_id)) ≡ some team
      → call.participant.is_internal ≡ false
      → the_only (link_candidates s call team) ≡ some lead
      → IsUniqueMatch s call lead
  found-IsUniqueMatch team lead e external found =
      let only : the_only (keep (matches_call s call team) (values s.leads)) ≡ some lead =
        ap the_only (sym (candidates team)) ∙ found in
      let (listed, matching) =
        mem-of-keep (matches_call s call team) (values s.leads) (the_only-mem _ only) in
      record {
        team = team;
        of_employee = e;
        external = external;
        listed = listed;
        matching = matching;
        unique = λ other m h.
            the_only-all _ only (mem-keep (matches_call s call team) (values s.leads) m h);
      }

  unlinked : {A : Type 0} {lead_id : String} → get call.id s.lead_id_by_call_id ≡ some lead_id → A
  unlinked e = absurd (some_not_none (sym e ∙ new))

  link_to-lead :
      (lead : Lead) (lead_id : String)
      → get call.id (link_to s call at (some lead)).lead_id_by_call_id ≡ some lead_id
      → lead.id ≡ lead_id
  unfolding link_to record_link
  link_to-lead lead lead_id e =
      let none_yet : linked_lead_id s call ≡ none = rw new refl in
      let e' = rw (link_to, none_yet) at e in
      some-injective lead.id lead_id (sym (get-set_self call.id lead.id s.lead_id_by_call_id) ∙ e')

  -- A call that had no link gets one only to the one lead that matches it among all leads.
  pub link-IsUniqueMatch :
      (lead_id : String)
      → get call.id (link_call_to_unique_lead s call at).lead_id_by_call_id ≡ some lead_id
      → (lead : Lead) × (lead.id ≡ lead_id) × IsUniqueMatch s call lead
  unfolding link_call_to_unique_lead link_to
  link-IsUniqueMatch lead_id e = elim (Bool-cases call.participant.is_internal) [
    | inl internal ↦ unlinked (rw (link_call_to_unique_lead, internal) at e)
    | inr external ↦ elim (Option-cases (truthy (employee_team s (some call.employee_id)))) [
      | inl nobody ↦ unlinked (rw (link_call_to_unique_lead, external, nobody) at e)
      | inr (team, named) ↦
          let e' = rw (link_call_to_unique_lead, external, named) at e in
          elim (Option-cases (the_only (link_candidates s call team))) [
            | inl several ↦ unlinked (rw several at e')
            | inr (lead, found) ↦ (
              lead,
              link_to-lead lead lead_id (rw found at e'),
              found-IsUniqueMatch team lead named external found,
            )
          ]
    ]
  ]
