-- ===== src/Calls/Resend.antt =====
-- A batch of calls that is sent again, in `ingestMobileCallBatch` of apps/api/src/repository.ts.
use cylizerapp.Base.{
  String, ◌≡◌, refl, sym, ap, ◌∙◌, inl, inr, some, List, arith, eq_iff, str_eq, if◌then◌else◌,
  Bool-cases,
}
use cylizerapp.Base.Dict.{get, set, get-set_self}
use cylizerapp.Base.Outcome.{
  done-injective, run_if-eq-done, and_then-eq-done, once-eq-done, done, throws, conflict,
}
use cylizerapp.Contracts.Employees.{EmployeeDevice}
use cylizerapp.Contracts.Sync.{CallLogSyncItem, CallLogSyncItemResult, CallLogSyncResult}
use cylizerapp.Domain.Calls.{MobileCallBatchOptions}
use cylizerapp.Repository.{Repository, StoredMobileBatch}
use cylizerapp.Mobile.Credentials.{CurrentCredential}
use cylizerapp.Calls.Batch.{
  batch_key, ingest_items, admit_batch, replay_batch, batch_result, complete_batch,
  ingest_new_batch, ingest_mobile_call_batch,
}

abbrev answered : MobileCallBatchOptions → CallLogSyncResult → StoredMobileBatch
answered o result = record { payload_hash = o.payload_hash; result = result }

replay-same :
    (o : MobileCallBatchOptions) (prior : StoredMobileBatch) (result : CallLogSyncResult)
    → replay_batch o prior ≡ done result
    → prior ≡ answered o result
unfolding replay_batch
replay-same o prior result e = elim (Bool-cases (str_eq prior.payload_hash o.payload_hash)) [
  | inl same ↦
      let e' = rw (replay_batch, same) at e in
      let answer : prior.result ≡ result = done-injective e' in
      let print : prior.payload_hash ≡ o.payload_hash =
        ground (arith, eq_iff prior.payload_hash o.payload_hash) in
      ap (λ h. record { payload_hash = h; result = prior.result }) print
      ∙ ap (λ r. record { payload_hash = o.payload_hash; result = r }) answer
  | inr other ↦ let e' = rw (replay_batch, other) at e in cc
]

complete-stored :
    (u : Repository) (o : MobileCallBatchOptions) (device : EmployeeDevice)
    (results : List CallLogSyncItemResult) {t : Repository} {result : CallLogSyncResult}
    → complete_batch u o device results ≡ (t, done result)
    → get (batch_key o) t.mobile_batches ≡ some (answered o result)
unfolding complete_batch
complete-stored u o device results {t} {result} e =
    let answer : batch_result o results ≡ result = done-injective (ap (λ p. p.1) e) in
    let after : get (batch_key o)
          (set (batch_key o) (answered o (batch_result o results)) u.mobile_batches)
        ≡ get (batch_key o) t.mobile_batches =
      ap (λ p. get (batch_key o) p.0.mobile_batches) e in
    sym after
    ∙ get-set_self (batch_key o) (answered o (batch_result o results)) u.mobile_batches
    ∙ ap (λ x. some (answered o x)) answer

-- The batch's stored answer.
batch-stored :
    (fp : CallLogSyncItem → String) (s t : Repository) (o : MobileCallBatchOptions)
    (result : CallLogSyncResult)
    → ingest_mobile_call_batch fp s o ≡ (t, done result)
    → get (batch_key o) t.mobile_batches ≡ some (answered o result)
unfolding ingest_mobile_call_batch ingest_new_batch complete_batch
batch-stored fp s t o result e =
    let (current, admitted, e1) = run_if-eq-done s (admit_batch s o) _ e in
    elim (once-eq-done s (get (batch_key o) s.mobile_batches) (replay_batch o) _ e1) [
      | inl (new, e2) ↦
          let (u, results, items, e3) = and_then-eq-done (ingest_items fp s o o.batch.items) _ e2 in
          complete-stored u o current.device results {t = t} {result = result} e3
      | inr (prior, found, same, answer) ↦
          ap (λ u. get (batch_key o) u.mobile_batches) (sym same)
          ∙ found
          ∙ ap some (replay-same o prior result answer)
    ]

-- After a batch was taken, any batch under the same organization, device and batch id whose sender
-- is admitted changes nothing. It is answered with the first answer when its payload hash is the
-- same, and is a conflict when it is another.
pub batch_again :
    (fp : CallLogSyncItem → String) (s t : Repository) (o o' : MobileCallBatchOptions)
    (result : CallLogSyncResult) (current : CurrentCredential)
    → ingest_mobile_call_batch fp s o ≡ (t, done result)
    → batch_key o' ≡ batch_key o
    → admit_batch t o' ≡ done current
    → ingest_mobile_call_batch fp t o' ≡ (
      t,
      if str_eq o.payload_hash o'.payload_hash
          then done result
          else throws (conflict "The batch ID was already used with a different payload"),
    )
unfolding ingest_mobile_call_batch replay_batch
batch_again fp s t o o' result current e key admitted =
    rw (admitted, key, batch-stored fp s t o result e) refl
