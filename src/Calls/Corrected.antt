-- ===== src/Calls/Corrected.antt =====
-- What `correctCallLeadLink` of apps/api/src/repository.ts leaves behind.
use cylizerapp.Base.{
  String, ◌≡◌, ◌≢◌, refl, sym, ap, subst, ◌∙◌, inl, inr, true, Option, none, arith, eq_iff, eq_refl,
  Option-cases,
}
use cylizerapp.Base.Dict.{Dict, get, remove, get-set_self, get-set_ne, get-remove}
use cylizerapp.Base.Text.{truthy}
use cylizerapp.Base.Outcome.{done, commit_if-eq-done}
use cylizerapp.Contracts.LeadOperations.{CorrectCallLeadLinkResult}
use cylizerapp.Domain.Operations.{CorrectCallLeadLinkOptions}
use cylizerapp.Repository.{Repository}
use cylizerapp.Calls.Correction.{
  Correction, correction_key, same_id, admit_correction, note_link, unlink, relink, lead_id_of,
  correction_result, commit_correction, correct_call_lead_link,
}

-- The links in which `call_id` leads to `to`, and every other call where it did.
abbrev pub IsMoved : Dict String → Dict String → String → Option String → Type 0
IsMoved old new call_id to =
    (truthy (get call_id new) ≡ truthy to)
    × ((other : String) → call_id ≢ other → get other new ≡ get other old)

get-remove_self : (id : String) (m : Dict String) → get id (remove id m) ≡ none
get-remove_self id m = rw (get-remove, eq_refl) refl

module _ (s : Repository) (o : CorrectCallLeadLinkOptions) (c : Correction)
    (current : c.current ≡ get c.call.id s.lead_id_by_call_id) where
  unlink-IsMoved :
      IsMoved s.lead_id_by_call_id
        (unlink s o c.call (truthy c.current)).lead_id_by_call_id
        c.call.id
        none
  unfolding unlink note_link
  unlink-IsMoved = elim (Option-cases (truthy c.current)) [
    | inl free ↦ rw (unlink, free) (ap truthy (sym current) ∙ free, λ other h. refl)
    | inr (lead_id, linked) ↦
        rw (unlink, linked)
          (
            ap truthy (get-remove_self c.call.id s.lead_id_by_call_id),
            λ other h.
                ground
                  (arith, get-remove c.call.id other s.lead_id_by_call_id, eq_iff c.call.id other),
          )
  ]

relink-IsMoved :
    (old : Dict String) (t : Repository) (o : CorrectCallLeadLinkOptions) (c : Correction)
    → IsMoved old t.lead_id_by_call_id c.call.id none
    → IsMoved old
        (relink t o c.call c.replacement).lead_id_by_call_id
        c.call.id
        (lead_id_of c.replacement)
unfolding relink note_link
relink-IsMoved old t o c (free, others) = elim (Option-cases c.replacement) [
  | inl nobody ↦ rw (relink, nobody) (free, others)
  | inr (lead, found) ↦
      rw (relink, found)
        (
          ap truthy (get-set_self c.call.id lead.id t.lead_id_by_call_id),
          λ other h. get-set_ne c.call.id other lead.id t.lead_id_by_call_id h ∙ others other h,
        )
]

admitted-current :
    (s : Repository) (o : CorrectCallLeadLinkOptions) (c : Correction)
    → admit_correction s o ≡ done c
    → (c.current ≡ get c.call.id s.lead_id_by_call_id)
      × (same_id c.current o.input.expected_lead_id ≡ true)
unfolding admit_correction
admitted-current s o c e = ground arith

-- A correction under a new request id that succeeds was made against the link that the caller
-- expected; it leaves the call with the replacement it reports, or without a link, and every other
-- call with the link it had.
pub correct-IsMoved :
    (s t : Repository) (o : CorrectCallLeadLinkOptions) (result : CorrectCallLeadLinkResult)
    → get (correction_key o) s.call_lead_correction_requests ≡ none
    → correct_call_lead_link s o ≡ (t, done result)
    → (same_id (get result.call_log_id s.lead_id_by_call_id) o.input.expected_lead_id ≡ true)
      × IsMoved s.lead_id_by_call_id t.lead_id_by_call_id result.call_log_id
          result.replacement_lead_id
unfolding correct_call_lead_link commit_correction
correct-IsMoved s t o result new e =
    let (c, admitted, written) =
      commit_if-eq-done s (admit_correction s o) (commit_correction s o) (rw new at e) in
    let (current, expected) = admitted-current s o c admitted in
    let answer : correction_result o c ≡ result = ap (λ p. p.1) written in
    let after : (relink (unlink s o c.call (truthy c.current)) o c.call
          c.replacement).lead_id_by_call_id
        ≡ t.lead_id_by_call_id =
      ap (λ p. p.0.lead_id_by_call_id) written in
    let moved =
      relink-IsMoved s.lead_id_by_call_id (unlink s o c.call (truthy c.current)) o c
        (unlink-IsMoved s o c current) in
    (
      subst (λ r. same_id (get r.call_log_id s.lead_id_by_call_id) o.input.expected_lead_id ≡ true)
          answer (ap (λ x. same_id x o.input.expected_lead_id) (sym current) ∙ expected),
      subst
          (λ r.
            IsMoved s.lead_id_by_call_id t.lead_id_by_call_id r.call_log_id r.replacement_lead_id)
          answer
          (subst (λ m. IsMoved s.lead_id_by_call_id m c.call.id (lead_id_of c.replacement)) after
            moved),
    )
