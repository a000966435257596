-- ===== src/Rules/Replay.antt =====
-- `applyLeadAssignmentRules` of apps/api/src/repository.ts under a used request id.
use cylizerapp.Base.{
  ◌≡◌, refl, sym, ap, subst, ◌∙◌, inl, inr, true, false, some, arith, eq_iff, str_eq, Bool-cases,
  if◌then◌else◌,
}
use cylizerapp.Base.Dict.{get, set, get-set_self}
use cylizerapp.Base.Outcome.{done, throws, conflict, once-eq-done, and_then-eq-done, done-injective}
use cylizerapp.Contracts.LeadOperations.{LeadAssignmentDryRun, ApplyLeadAssignmentRulesResult}
use cylizerapp.Domain.Operations.{ApplyLeadAssignmentRulesOptions}
use cylizerapp.Repository.{Repository, StoredApplyRequest}
use cylizerapp.Lead.Detail.{Locale}
use cylizerapp.Rules.Assign.{
  Progress, apply_key, replay_apply, complete_apply, store_cursors, apply_fresh, apply_leads,
  apply_lead_assignment_rules,
}

-- The result as a repetition returns it.
abbrev pub marked : ApplyLeadAssignmentRulesResult → ApplyLeadAssignmentRulesResult
marked result = record result { replayed = true }

-- The request has an answer in store that a repetition returns as that of `result`.
abbrev HasAnswer :
    Repository → ApplyLeadAssignmentRulesOptions → ApplyLeadAssignmentRulesResult → Type 0
HasAnswer t o result =
    (prior : StoredApplyRequest) × (get (apply_key o) t.lead_assignment_apply_requests ≡ some prior)
    × (prior.fingerprint ≡ o.request_fingerprint)
    × (marked prior.result ≡ marked result)

complete-HasAnswer :
    (u : Repository) (o : ApplyLeadAssignmentRulesOptions) (run : LeadAssignmentDryRun)
    (progress : Progress) {t : Repository} {result : ApplyLeadAssignmentRulesResult}
    → complete_apply u o run progress ≡ (t, done result)
    → HasAnswer t o result
unfolding complete_apply
complete-HasAnswer u o run progress {t} {result} e =
    let mine : ApplyLeadAssignmentRulesResult = record {
      dry_run = run;
      request_id = o.input.request_id;
      replayed = false;
      applied_leads = progress.applied;
    } in
    let entry : StoredApplyRequest = record {
      fingerprint = o.request_fingerprint;
      result = mine;
    } in
    let v = store_cursors u o.operation progress.cursors progress.advanced in
    let answer : mine ≡ result = done-injective (ap (λ p. p.1) e) in
    let after : get (apply_key o) (set (apply_key o) entry v.lead_assignment_apply_requests)
        ≡ get (apply_key o) t.lead_assignment_apply_requests =
      ap (λ p. get (apply_key o) p.0.lead_assignment_apply_requests) e in
    (
      entry,
      sym after ∙ get-set_self (apply_key o) entry v.lead_assignment_apply_requests,
      refl,
      ap marked answer,
    )

replay-HasAnswer :
    (s : Repository) (o : ApplyLeadAssignmentRulesOptions) (prior : StoredApplyRequest)
    (result : ApplyLeadAssignmentRulesResult)
    → get (apply_key o) s.lead_assignment_apply_requests ≡ some prior
    → replay_apply o prior ≡ done result
    → HasAnswer s o result
unfolding replay_apply
replay-HasAnswer s o prior result found e =
    elim (Bool-cases (str_eq prior.fingerprint o.request_fingerprint)) [
      | inl same ↦
          let e' = rw (replay_apply, same) at e in
          let answer : marked prior.result ≡ result = done-injective e' in
          (
            prior,
            found,
            ground (arith, eq_iff prior.fingerprint o.request_fingerprint),
            ap marked answer,
          )
      | inr other ↦ let e' = rw (replay_apply, other) at e in cc
    ]

apply-HasAnswer :
    (s t : Repository) (locale : Locale) (o : ApplyLeadAssignmentRulesOptions)
    (result : ApplyLeadAssignmentRulesResult)
    → apply_lead_assignment_rules s locale o ≡ (t, done result)
    → HasAnswer t o result
unfolding apply_lead_assignment_rules apply_fresh
apply-HasAnswer s t locale o result e =
    elim (once-eq-done s (get (apply_key o) s.lead_assignment_apply_requests) (replay_apply o) _
      e) [
        | inl (new, e1) ↦
            let (u, progress, loop, e2) =
              and_then-eq-done (apply_leads s locale o.operation _ _) _ e1 in
            complete-HasAnswer u o _ progress {t = t} {result = result} e2
        | inr (prior, found, same, answer) ↦
            subst (λ u. HasAnswer u o result) same (replay-HasAnswer s o prior result found answer)
      ]

-- After the rules were applied, any request under the same organization and request id changes
-- nothing, also where leads and rules would match again. With the same fingerprint it is answered
-- with the first answer marked as replayed; another fingerprint is a conflict.
pub apply_again :
    (s t : Repository) (locale : Locale) (o o' : ApplyLeadAssignmentRulesOptions)
    (result : ApplyLeadAssignmentRulesResult)
    → apply_lead_assignment_rules s locale o ≡ (t, done result)
    → apply_key o' ≡ apply_key o
    → apply_lead_assignment_rules t locale o' ≡ (
      t,
      if str_eq o.request_fingerprint o'.request_fingerprint
          then done (marked result)
          else throws
              (conflict "The assignment request ID was already used with a different payload"),
    )
unfolding apply_lead_assignment_rules replay_apply
apply_again s t locale o o' result e key =
    let (prior, found, print, same) = apply-HasAnswer s t locale o result e in
    rw (key, found, print, same) refl
