-- ===== src/Calls/Refinement.antt =====
-- `ingestMobileCallBatch` of apps/api/src/repository.ts keeps a register of reports.
use cylizerapp.Base.{String, ◌≡◌, refl, sym, ◌∙◌, inl, inr, none, some, List, [], ◌∷◌, eq_refl}
use cylizerapp.Base.Dict.{get}
use cylizerapp.Base.Outcome.{Outcome, done}
use cylizerapp.Contracts.Calls.{CallLog}
use cylizerapp.Contracts.Sync.{
  CallLogSyncItem, CallLogSyncItemResult, CallLogSyncResult, SyncItemOutcome,
}
use cylizerapp.Domain.Calls.{MobileCallBatchOptions}
use cylizerapp.Repository.{Repository}
use cylizerapp.Mobile.Credentials.{CurrentCredential}
use cylizerapp.Calls.Batch.{
  item_key, batch_key, item_result, repeat_item, ingest_item, ingest_items, admit_batch,
  ingest_new_batch, complete_batch, batch_result, ingest_mobile_call_batch,
}
use cylizerapp.Calls.Index.{index_of, IsIndexed, truthy_named}
use cylizerapp.Calls.Register.{Register, Represents, submit, submit_all, verdicts, ingest_item-done}

abbrev pub reports :
    (CallLogSyncItem → String)
    → MobileCallBatchOptions
    → List CallLogSyncItem
    → List (String × String)
reports f o [] = []
reports f o (item ∷ items) = (item_key o item, f item) ∷ reports f o items

abbrev pub outcomes : List CallLogSyncItemResult → List SyncItemOutcome
outcomes [] = []
outcomes (result ∷ results) = result.outcome ∷ outcomes results

-- What some items do in a repository that holds the register `r`.
record ItemsDone (f : CallLogSyncItem → String) (r : Register) (o : MobileCallBatchOptions)
    (items : List CallLogSyncItem) (step : Repository × Outcome (List CallLogSyncItemResult))
    : Type 0 where
  after : Repository
  results : List CallLogSyncItemResult
  step_done : step ≡ (after, done results)
  judged : outcomes results ≡ verdicts r (reports f o items)
  held : Represents (submit_all r (reports f o items)) (index_of after)
  sound : IsIndexed (index_of after)

ingest_items-done :
    (f : CallLogSyncItem → String) (r : Register) (s : Repository) (o : MobileCallBatchOptions)
    (items : List CallLogSyncItem)
    → Represents r (index_of s)
    → IsIndexed (index_of s)
    → ItemsDone f r o items (ingest_items f s o items)
unfolding ingest_items submit_all verdicts
ingest_items-done f r s o [] held sound = record {
  after = s;
  results = [];
  step_done = refl;
  judged = refl;
  held = held;
  sound = sound;
}
ingest_items-done f r s o (item ∷ items) held sound =
    let first = ingest_item-done f r s o item held sound in
    let rest =
      ingest_items-done f (submit r (item_key o item, f item)) first.after o items first.held
        first.sound in
    record {
      after = rest.after;
      results = first.result ∷ rest.results;
      step_done = rw (ingest_items, first.step_done, rest.step_done) refl;
      judged = rw (first.judged, rest.judged) refl;
      held = rest.held;
      sound = rest.sound;
    }

-- A new batch of an admitted device is taken whole when the call index is sound: its results are
-- the register's verdicts in the order of the items, and afterwards the digests stored under the
-- external ids are those of the register after the reports. The call index stays sound.
pub batch-refines :
    (f : CallLogSyncItem → String) (r : Register) (s : Repository) (o : MobileCallBatchOptions)
    (current : CurrentCredential)
    → admit_batch s o ≡ done current
    → get (batch_key o) s.mobile_batches ≡ none
    → Represents r (index_of s)
    → IsIndexed (index_of s)
    → (t : Repository) × (result : CallLogSyncResult) × (ingest_mobile_call_batch f s o
        ≡ (t, done result))
      × (outcomes result.items ≡ verdicts r (reports f o o.batch.items))
      × Represents (submit_all r (reports f o o.batch.items)) (index_of t)
      × IsIndexed (index_of t)
unfolding ingest_mobile_call_batch ingest_new_batch complete_batch
batch-refines f r s o current admitted new held sound =
    let all = ingest_items-done f r s o o.batch.items held sound in
    (
      (complete_batch all.after o current.device all.results).0,
      batch_result o all.results,
      rw (ingest_mobile_call_batch, admitted, new, ingest_new_batch, all.step_done) refl,
      all.judged,
      all.held,
      all.sound,
    )

-- Each item is stored already, with the digest that it has.
abbrev pub AreKnown :
    (CallLogSyncItem → String) → Repository → MobileCallBatchOptions → List CallLogSyncItem → Type 0
AreKnown f s o [] = Unit
AreKnown f s o (item ∷ items) =
    (get (item_key o item) s.call_fingerprint_by_external_id ≡ some (f item)) × AreKnown f s o items

abbrev pub AreDuplicates : List CallLogSyncItemResult → Type 0
AreDuplicates [] = Unit
AreDuplicates (result ∷ results) =
    (result.outcome ≡ SyncItemOutcome.duplicate) × AreDuplicates results

some_not_none : {A : Type 0} {a : A} → some a ≡ none → ⊥
some_not_none e = cc

known_item :
    (f : CallLogSyncItem → String) (s : Repository) (o : MobileCallBatchOptions)
    (item : CallLogSyncItem)
    → IsIndexed (index_of s)
    → get (item_key o item) s.call_fingerprint_by_external_id ≡ some (f item)
    → (call : CallLog) × (ingest_item f s o item
        ≡ (s, done (item_result item SyncItemOutcome.duplicate call)))
unfolding ingest_item repeat_item
known_item f s o item sound known = elim (sound (item_key o item)) [
  | inl (no_id, no_fp) ↦ absurd (some_not_none (sym known ∙ no_fp))
  | inr (id, call, fp, entry) ↦
      let found : get (item_key o item) s.call_id_by_external_id ≡ some id = entry.id_found in
      let stored : get id s.calls ≡ some call = entry.call_found in
      (
        call,
        rw
            (
              ingest_item,
              found,
              truthy_named id entry.named,
              repeat_item,
              stored,
              known,
              eq_refl (f item),
            )
            refl,
      )
]

-- Items that are known with their digests, in a repository whose call index is sound, change
-- nothing, in whatever batch they stand: each is answered as a duplicate.
pub known_items-duplicates :
    (f : CallLogSyncItem → String) (s : Repository) (o : MobileCallBatchOptions)
    (items : List CallLogSyncItem)
    → IsIndexed (index_of s)
    → AreKnown f s o items
    → (results : List CallLogSyncItemResult) × (ingest_items f s o items ≡ (s, done results))
      × AreDuplicates results
unfolding ingest_items
known_items-duplicates f s o [] sound known = ([], refl, tt)
known_items-duplicates f s o (item ∷ items) sound (first, rest) =
    let (call, step) = known_item f s o item sound first in
    let (results, steps, all) = known_items-duplicates f s o items sound rest in
    (
      item_result item SyncItemOutcome.duplicate call ∷ results,
      rw (ingest_items, step, steps) refl,
      (refl, all),
    )
