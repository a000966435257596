-- ===== src/Lead/MobileReplay.antt =====
-- `applyMobileLeadUpdate` of apps/api/src/repository.ts: an update that is sent again.
use cylizerapp.Base.{
  suc, ◌≡◌, refl, sym, ap, subst, ◌∙◌, inl, inr, true, false, ◌&&◌, none, some, arith, eq_iff,
  str_eq, if◌then◌else◌,
}
use cylizerapp.Base.Dict.{get, set, get-set_self}
use cylizerapp.Base.Outcome.{done, throws, conflict, run_if-eq-done, once-eq-done, done-injective}
use cylizerapp.Domain.Operations.{MobileLeadUpdateOptions}
use cylizerapp.Repository.{Repository, StoredMobileLeadUpdate}
use cylizerapp.Lead.Detail.{Locale, LeadDetail, build_lead_detail}
use cylizerapp.Lead.MobileAdmit.{
  MobileLeadUpdateReceipt, MobileChange, update_key, admit_session, admit_mobile_update,
}
use cylizerapp.Lead.MobileUpdate.{
  commit_mobile_update, write_mobile_update, mobile_changed, store_receipt, replay_mobile_update,
  apply_mobile_lead_update,
}

abbrev entry : MobileLeadUpdateOptions → MobileLeadUpdateReceipt → StoredMobileLeadUpdate
entry o receipt = record {
  fingerprint = o.request_fingerprint;
  lead_id = o.lead_id;
  request_id = receipt.request_id;
  applied_lead_version = receipt.applied_lead_version;
}

abbrev Keeps : Repository → MobileLeadUpdateOptions → MobileLeadUpdateReceipt → Type 0
Keeps t o receipt = get (update_key o) t.mobile_lead_update_requests ≡ some (entry o receipt)

store-Keeps :
    (s : Repository) (o : MobileLeadUpdateOptions) (c : MobileChange) (detail : LeadDetail)
    {t : Repository} {receipt : MobileLeadUpdateReceipt}
    → store_receipt s o c detail ≡ (t, done receipt)
    → Keeps t o receipt
unfolding store_receipt
store-Keeps s o c detail {t} {receipt} e =
    let mine : MobileLeadUpdateReceipt = record {
      request_id = o.input.request_id;
      replayed = false;
      applied_lead_version = suc c.lead.version;
      detail = some detail;
    } in
    let answer : mine ≡ receipt = done-injective (ap (λ p. p.1) e) in
    let after : get (update_key o) (set (update_key o) (entry o mine) s.mobile_lead_update_requests)
        ≡ get (update_key o) t.mobile_lead_update_requests =
      ap (λ p. get (update_key o) p.0.mobile_lead_update_requests) e in
    sym after
    ∙ get-set_self (update_key o) (entry o mine) s.mobile_lead_update_requests
    ∙ ap (λ r. some (entry o r)) answer

replay-Keeps :
    (s : Repository) (o : MobileLeadUpdateOptions) (prior : StoredMobileLeadUpdate)
    {receipt : MobileLeadUpdateReceipt}
    → get (update_key o) s.mobile_lead_update_requests ≡ some prior
    → replay_mobile_update o prior ≡ done receipt
    → Keeps s o receipt
unfolding replay_mobile_update
replay-Keeps s o prior {receipt} found e =
    ground (arith, eq_iff prior.fingerprint o.request_fingerprint, eq_iff prior.lead_id o.lead_id)

apply-Keeps :
    (s t : Repository) (locale : Locale) (o : MobileLeadUpdateOptions)
    (receipt : MobileLeadUpdateReceipt)
    → apply_mobile_lead_update s locale o ≡ (t, done receipt)
    → Keeps t o receipt
unfolding apply_mobile_lead_update commit_mobile_update
apply-Keeps s t locale o receipt e =
    let (current, session, e1) = run_if-eq-done s (admit_session s o) _ e in
    elim (once-eq-done s (get (update_key o) s.mobile_lead_update_requests) (replay_mobile_update o)
      _ e1) [
        | inl (new, e2) ↦
            let (c, admitted, e3) = run_if-eq-done s (admit_mobile_update s o) _ e2 in
            let u = write_mobile_update s o c in
            let (detail, built, e4) =
              run_if-eq-done u (build_lead_detail u locale (mobile_changed o c) o.at)
                (store_receipt u o c) e3 in
            store-Keeps u o c detail {t = t} {receipt = receipt} e4
        | inr (prior, found, same, answer) ↦
            subst (λ u. Keeps u o receipt) same
              (replay-Keeps s o prior {receipt = receipt} found answer)
      ]

-- After a telephone's update of a lead was taken, any update under the same organization, device
-- and request id whose sender is admitted changes nothing. It is answered with the first receipt,
-- marked as replayed and without the lead, when fingerprint and lead are the same, and is a
-- conflict when they are not.
pub mobile_update_again :
    (s t : Repository) (locale : Locale) (o o' : MobileLeadUpdateOptions)
    (receipt : MobileLeadUpdateReceipt)
    → apply_mobile_lead_update s locale o ≡ (t, done receipt)
    → update_key o' ≡ update_key o
    → admit_session t o' ≡ done tt
    → apply_mobile_lead_update t locale o' ≡ (
      t,
      if str_eq o.request_fingerprint o'.request_fingerprint && str_eq o.lead_id o'.lead_id
          then done (record receipt { replayed = true; detail = none })
          else throws
              (conflict "The mobile update request ID was already used with a different payload"),
    )
unfolding apply_mobile_lead_update replay_mobile_update
mobile_update_again s t locale o o' receipt e key session =
    rw (session, key, apply-Keeps s t locale o receipt e) refl
