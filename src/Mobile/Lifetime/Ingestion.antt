-- ===== src/Mobile/Lifetime/Ingestion.antt =====
-- Call ingestion and the credentials: what is kept by `ingestMobileCallBatch` and `ingestCall` of
-- apps/api/src/repository.ts.
use cylizerapp.Base.{String, refl, sym, subst, inl, inr, Bool-cases, Option-cases}
use cylizerapp.Base.Dict.{get}
use cylizerapp.Base.Text.{truthy}
use cylizerapp.Base.Outcome.{run_if_keeps, once_keeps, and_then_keeps}
use cylizerapp.Contracts.Sync.{CallLogSyncItem}
use cylizerapp.Domain.Calls.{MobileCallBatchOptions}
use cylizerapp.Repository.{Repository}
use cylizerapp.Calls.Batch.{
  batch_key, admit_batch, ingest_items, ingest_new_batch, complete_batch, ingest_mobile_call_batch,
}
use cylizerapp.Calls.Frame.{items-same}
use cylizerapp.Calls.Index.{link-same}
use cylizerapp.Calls.Single.{
  IngestCallOptions, idempotency_map_key, external_map_key, differs, repeat_external, remember,
  create_call, store_call, new_call, ingest_fresh, ingest_call,
}
use cylizerapp.Mobile.Lifetime.Facts.{Kept}

module _ (watched : Type 0) (hash : String) (s : Repository) (kept : Kept watched hash s) where
  pub batch-Kept :
      (f : CallLogSyncItem → String) (o : MobileCallBatchOptions)
      → Kept watched hash (ingest_mobile_call_batch f s o).0
  unfolding ingest_mobile_call_batch ingest_new_batch complete_batch
  batch-Kept f o = run_if_keeps (Kept watched hash) s (admit_batch s o) _ kept (λ current admitted.
      once_keeps (Kept watched hash) s (get (batch_key o) s.mobile_batches) _ _ kept (
        and_then_keeps (Kept watched hash) (ingest_items f s o o.batch.items) _
          (subst (λ X. X)
            (sym (
              items-same (Kept watched hash)
                (λ t n leads links activities calls ids fingerprints. refl) f s o o.batch.items))
            kept)
          (λ t results k. k)))

  repeat-Kept : (o : IngestCallOptions) (id : String) → Kept watched hash (repeat_external s o id).0
  unfolding repeat_external remember
  repeat-Kept o id = elim (Option-cases (get id s.calls)) [
    | inl lost ↦ rw (repeat_external, lost) kept
    | inr (call, found) ↦
        elim (Bool-cases
          (differs (get (external_map_key o) s.call_fingerprint_by_external_id) o.fingerprint)) [
            | inl other ↦ rw (repeat_external, found, other) kept
            | inr same ↦ rw (repeat_external, found, same) kept
          ]
  ]

  create-Kept : (o : IngestCallOptions) → Kept watched hash (create_call s o).0
  unfolding create_call store_call remember
  create-Kept o =
      subst (λ X. X)
        (sym (
          link-same (Kept watched hash) (λ t n leads links activities. refl)
            (store_call s o (new_call s o)) (new_call s o) o.at))
        kept

  pub ingest-Kept : (o : IngestCallOptions) → Kept watched hash (ingest_call s o).0
  unfolding ingest_call ingest_fresh
  ingest-Kept o =
      once_keeps (Kept watched hash) s (get (idempotency_map_key o) s.idempotency) _ _ kept
        (elim (Option-cases (truthy (get (external_map_key o) s.call_id_by_external_id))) [
          | inl new ↦ rw (ingest_fresh, new) (create-Kept o)
          | inr (id, found) ↦ rw (ingest_fresh, found) (repeat-Kept o id)
        ])
