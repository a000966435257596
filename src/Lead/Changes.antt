-- ===== src/Lead/Changes.antt =====
-- Changes to leads and follow-ups in apps/api/src/repository.ts: a change under a version is made
-- at most once, and reaches no lead of another organization.
use cylizerapp.Base.{
  ◌+◌, ◌==◌, false, String, ◌≡◌, ◌≢◌, inl, inr, refl, sym, ap, ◌∙◌, true, false, some, arith,
  eq_iff, Option-cases,
}
use mathlib.Core.Option.{some-injective}
use cylizerapp.Base.Text.{truthy}
use cylizerapp.Base.Dict.{Dict, get, set, get-set_self, get-set_ne}
use cylizerapp.Base.Outcome.{done, run_if-eq-done, run_if_refused, run_if_keeps, once_keeps}
use cylizerapp.Domain.Operations.{MobileLeadUpdateOptions}
use cylizerapp.Lead.MobileAdmit.{MobileChange, update_key, admit_session, admit_mobile_update}
use cylizerapp.Lead.MobileUpdate.{
  commit_mobile_update, replay_mobile_update, apply_mobile_lead_update,
}
use cylizerapp.Contracts.Leads.{Lead, FollowUp, is_pending}
use cylizerapp.Repository.{Repository}
use cylizerapp.Lead.Access.{find_accessible_lead, status_for_lead}
use cylizerapp.Lead.Detail.{Locale, LeadDetail}
use cylizerapp.Lead.Entries.{add_activity, add_note}
use cylizerapp.Lead.Update.{
  UpdateLeadOptions, update_lead, admit_update, apply_changes, close_update, write_changes,
  write_update,
}
use cylizerapp.Lead.FollowUps.{
  CompleteLeadFollowUpOptions, complete_lead_follow_up, admit_complete, completed, store_completed,
}

admit_update-done :
    (s : Repository) (o : UpdateLeadOptions) (lead : Lead)
    → admit_update s o ≡ done lead
    → (get o.lead_id s.leads ≡ some lead)
      × (lead.organization_id ≡ o.organization_id)
      × (lead.version ≡ o.expected_version)
unfolding admit_update find_accessible_lead
admit_update-done s o lead e = ground (arith, eq_iff lead.organization_id o.organization_id)

admit_update_stale :
    (s : Repository) (o : UpdateLeadOptions) (lead found : Lead)
    → get o.lead_id s.leads ≡ some lead
    → lead.version ≢ o.expected_version
    → admit_update s o ≢ done found
admit_update_stale s o lead found stored stale e =
    let (at, _, same) = admit_update-done s o found e in ground arith

-- What is left in the map of leads by an update that succeeds.
update_lead-done :
    (s t : Repository) (locale : Locale) (o : UpdateLeadOptions) (d : LeadDetail)
    → update_lead s locale o ≡ (t, done d)
    → (old : Lead) × (lead : Lead) × (admit_update s o ≡ done old)
      × (get o.lead_id t.leads ≡ some lead)
      × (lead.version ≡ old.version + 1)
unfolding update_lead write_update add_activity close_update apply_changes
update_lead-done s t locale o d e =
    let (old, admitted, written) = run_if-eq-done s (admit_update s o) _ e in
    let changed = apply_changes o.changes o.at old in
    let s' = write_changes s o old in
    let (status, found, closed) = run_if-eq-done s' (status_for_lead s' changed) _ written in
    let lead = close_update o status changed in
    (
      old,
      lead,
      admitted,
      ap (λ q. get o.lead_id q.0.leads) (sym closed) ∙ get-set_self o.lead_id lead s'.leads,
      refl,
    )

mobile_stale :
    (t : Repository) (m : MobileLeadUpdateOptions) (lead : Lead) (found : MobileChange)
    → get m.lead_id t.leads ≡ some lead
    → (lead.version == m.input.expected_lead_version) ≡ false
    → admit_mobile_update t m ≢ done found
unfolding admit_mobile_update
mobile_stale t m lead found stored stale e = ground arith

-- A telephone's update under another version than the lead's changes nothing, on no path.
mobile_unchanged :
    (t : Repository) (locale : Locale) (m : MobileLeadUpdateOptions) (lead : Lead)
    → get m.lead_id t.leads ≡ some lead
    → (lead.version == m.input.expected_lead_version) ≡ false
    → (apply_mobile_lead_update t locale m).0 ≡ t
unfolding apply_mobile_lead_update
mobile_unchanged t locale m lead stored stale =
    run_if_keeps (λ u. u ≡ t) t (admit_session t m) _ refl
      (λ current _.
        once_keeps (λ u. u ≡ t) t (get (update_key m) t.mobile_lead_update_requests)
          (replay_mobile_update m) _ refl
          (run_if_refused t (admit_mobile_update t m) (commit_mobile_update t locale m)
            (λ found. mobile_stale t m lead found stored stale)).0)

-- An update that succeeds moves the lead's version on by one. Directly after it, another update
-- of the lead under the same version is refused and changes nothing, and a telephone's update under
-- that version changes nothing.
pub update_once :
    (s t : Repository) (locale : Locale) (o o' : UpdateLeadOptions) (m : MobileLeadUpdateOptions)
    (d : LeadDetail)
    → update_lead s locale o ≡ (t, done d)
    → o'.lead_id ≡ o.lead_id
    → o'.expected_version ≡ o.expected_version
    → m.lead_id ≡ o.lead_id
    → m.input.expected_lead_version ≡ o.expected_version
    → ((lead : Lead) × (get o.lead_id t.leads ≡ some lead)
        × (lead.version ≡ o.expected_version + 1))
      × ((update_lead t locale o').0 ≡ t)
      × ((d' : LeadDetail) → (update_lead t locale o').1 ≢ done d')
      × ((apply_mobile_lead_update t locale m).0 ≡ t)
unfolding update_lead
update_once s t locale o o' m d e same_lead same_version mobile_lead mobile_version =
    let (old, lead, admitted, stored, moved) = update_lead-done s t locale o d e in
    let (_, _, version) = admit_update-done s o old admitted in
    let stored' : get o'.lead_id t.leads ≡ some lead = rw same_lead stored in
    let late : (lead.version == m.input.expected_lead_version) ≡ false = ground arith in
    let stale : lead.version ≢ o'.expected_version = λ x. omega arith in
    let (kept, refused) =
      run_if_refused t (admit_update t o') _
        (λ found. admit_update_stale t o' lead found stored' stale) in
    let there : get m.lead_id t.leads ≡ some lead = rw mobile_lead stored in
    ((lead, stored, omega arith), kept, refused, mobile_unchanged t locale m lead there late)

same_record :
    (id : String) (m : Dict Lead) {a b : Lead} → get id m ≡ some a → get id m ≡ some b → a ≡ b
same_record id m {a = a} {b = b} h k = some-injective a b (sym h ∙ k)

-- An update, successful or not, leaves every lead of another organization as it is.
pub update-foreign :
    (s : Repository) (locale : Locale) (o : UpdateLeadOptions) (id : String) (lead : Lead)
    → get id s.leads ≡ some lead
    → lead.organization_id ≢ o.organization_id
    → get id (update_lead s locale o).0.leads ≡ some lead
unfolding update_lead write_changes write_update add_activity
update-foreign s locale o id lead stored foreign =
    run_if_keeps (λ u. get id u.leads ≡ some lead) s (admit_update s o) _ stored
      (λ old admitted.
        let (at, owned, _) = admit_update-done s o old admitted in
        let other : o.lead_id ≢ id = λ same. foreign (
          ap (λ (x : Lead). x.organization_id) (same_record id s.leads stored (rw same at at))
          ∙ owned) in
        let s' = write_changes s o old in
        let changed = apply_changes o.changes o.at old in
        let kept : get id s'.leads ≡ some lead =
          get-set_ne o.lead_id id changed s.leads other ∙ stored in
        run_if_keeps (λ u. get id u.leads ≡ some lead) s' (status_for_lead s' changed) _ kept
          (λ status found.
            get-set_ne o.lead_id id (close_update o status changed) s'.leads other ∙ kept))

pub admit_complete-done :
    (s : Repository) (o : CompleteLeadFollowUpOptions) (follow_up : FollowUp) (lead : Lead)
    → admit_complete s o ≡ done (follow_up, lead)
    → (get o.follow_up_id s.lead_follow_ups ≡ some follow_up)
      × (get follow_up.lead_id s.leads ≡ some lead)
      × (follow_up.organization_id ≡ o.organization_id)
      × (is_pending follow_up.status ≡ true)
      × (follow_up.version ≡ o.input.expected_version)
unfolding admit_complete
admit_complete-done s o follow_up lead e =
    ground (arith, eq_iff follow_up.organization_id o.organization_id)

store_completed-follow_ups :
    (s : Repository) (o : CompleteLeadFollowUpOptions) (follow_up : FollowUp) (lead : Lead)
    → (store_completed s o follow_up lead).lead_follow_ups
      ≡ set o.follow_up_id (completed o follow_up) s.lead_follow_ups
unfolding store_completed add_note
store_completed-follow_ups s o follow_up lead =
    elim (Option-cases (truthy o.input.completion_note)) [
      | inl absent ↦ rw absent
      | inr (body, present) ↦ rw present
    ]

not_pending : false ≢ true
not_pending e = cc

-- A follow-up is completed at most once: after a completion any other of the same follow-up,
-- whatever version it names, is refused and changes nothing.
pub complete_once :
    (s t : Repository) (locale : Locale) (o o' : CompleteLeadFollowUpOptions) (d : LeadDetail)
    → complete_lead_follow_up s locale o ≡ (t, done d)
    → o'.follow_up_id ≡ o.follow_up_id
    → ((complete_lead_follow_up t locale o').0 ≡ t)
      × ((d' : LeadDetail) → (complete_lead_follow_up t locale o').1 ≢ done d')
unfolding complete_lead_follow_up add_activity completed
complete_once s t locale o o' d e same =
    let ((follow_up, old), admitted, written) = run_if-eq-done s (admit_complete s o) _ e in
    let stored : get o.follow_up_id t.lead_follow_ups ≡ some (completed o follow_up) =
      ap (λ q. get o.follow_up_id q.0.lead_follow_ups) (sym written)
      ∙ ap (get o.follow_up_id) (store_completed-follow_ups s o follow_up old)
      ∙ get-set_self o.follow_up_id (completed o follow_up) s.lead_follow_ups in
    let stored' : get o'.follow_up_id t.lead_follow_ups ≡ some (completed o follow_up) =
      rw same stored in
    run_if_refused t (admit_complete t o') _ (λ (again, lead) admits.
      let (found, _, _, open', _) = admit_complete-done t o' again lead admits in
      let same' = some-injective again (completed o follow_up) (sym found ∙ stored') in
      not_pending (ap (λ (x : FollowUp). is_pending x.status) (sym same') ∙ open'))
