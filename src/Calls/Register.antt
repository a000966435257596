-- ===== src/Calls/Register.antt =====
-- What a batch of calls promises, stated without calls, leads or ids: a register of external ids,
-- each with the digest of its last report. `ingestMobileCallBatch` of apps/api/src/repository.ts
-- keeps such a register.
use cylizerapp.Base.{
  String, ◌≡◌, refl, sym, ap, subst, ◌∙◌, inl, inr, false, Option, none, some, List, [], ◌∷◌, arith,
  eq_iff, eq_refl, str_eq, Bool-cases, if◌then◌else◌,
}
use cylizerapp.Base.Dict.{get, set, get-set, get-set_self}
use cylizerapp.Base.Outcome.{Outcome, done}
use cylizerapp.Contracts.Calls.{CallLog}
use cylizerapp.Contracts.Sync.{CallLogSyncItem, CallLogSyncItemResult, SyncItemOutcome}
use cylizerapp.Domain.Calls.{MobileCallBatchOptions}
use cylizerapp.Repository.{Repository, call_id_named}
use cylizerapp.Calls.Batch.{
  item_key, item_result, updated_call, reported_call, store_update, store_report, repeat_item,
  create_item, ingest_item,
}
use cylizerapp.Calls.Index.{
  CallIndex, index_of, IsEntry, IsFree, IsIndexed, put_call, change_call, truthy_named,
  put_call-IsIndexed, change_call-IsIndexed, link-same,
}

abbrev pub Register : Type 0
Register = String → Option String

-- What a report is, given the digest of the report before it.
abbrev pub verdict : Option String → String → SyncItemOutcome
verdict none fingerprint = SyncItemOutcome.created
verdict (some known) fingerprint =
    if str_eq known fingerprint then SyncItemOutcome.duplicate else SyncItemOutcome.updated

abbrev pub submit : Register → String × String → Register
submit r (key, fingerprint) k = if str_eq key k then some fingerprint else r k

-- The register after some reports, and the verdict on each.
unfoldable pub submit_all : Register → List (String × String) → Register
submit_all r [] = r
submit_all r (report ∷ reports) = submit_all (submit r report) reports

unfoldable pub verdicts : Register → List (String × String) → List SyncItemOutcome
verdicts r [] = []
verdicts r ((key, fingerprint) ∷ reports) =
    verdict (r key) fingerprint ∷ verdicts (submit r (key, fingerprint)) reports

-- The register that the repository holds.
abbrev pub Represents : Register → CallIndex → Type 0
Represents r x = (k : String) → r k ≡ get k x.fingerprints

store_report-index :
    (s : Repository) (o : MobileCallBatchOptions) (item : CallLogSyncItem) (fingerprint : String)
    (call : CallLog)
    → index_of (store_report s o item fingerprint call)
      ≡ put_call (index_of s) (item_key o item) call.id call fingerprint
unfolding store_report
store_report-index s o item fingerprint call =
    link-same index_of (λ t n leads links activities. refl) _ call o.at

store_update-index :
    (s : Repository) (o : MobileCallBatchOptions) (item : CallLogSyncItem) (fingerprint id : String)
    (call : CallLog)
    → index_of (store_update s o item fingerprint id call)
      ≡ change_call (index_of s) (item_key o item) id call fingerprint
unfolding store_update
store_update-index s o item fingerprint id call =
    link-same index_of (λ t n leads links activities. refl) _ call o.at

-- What an item does in a repository whose index is sound and that holds the register `r`.
pub record ItemDone (fingerprint : String) (r : Register) (s : Repository)
    (o : MobileCallBatchOptions) (item : CallLogSyncItem)
    (step : Repository × Outcome CallLogSyncItemResult) : Type 0 where
  pub after : Repository
  pub result : CallLogSyncItemResult
  pub step_done : step ≡ (after, done result)
  pub judged : result.outcome ≡ verdict (r (item_key o item)) fingerprint
  pub labelled : result.call_log_id ≡ get (item_key o item) after.call_id_by_external_id
  pub held : Represents (submit r (item_key o item, fingerprint)) (index_of after)
  pub sound : IsIndexed (index_of after)

submit-Represents :
    (r : Register) (x y : CallIndex) (key fp : String)
    → y.fingerprints ≡ set key fp x.fingerprints
    → Represents r x
    → Represents (submit r (key, fp)) y
submit-Represents r x y key fp e held k =
    rw (e, get-set) (ap (λ v. if str_eq key k then some fp else v) (held k))

repeat-Represents :
    (r : Register) (x : CallIndex) (key fp : String)
    → get key x.fingerprints ≡ some fp
    → Represents r x
    → Represents (submit r (key, fp)) x
repeat-Represents r x key fp e held k = ground (arith, eq_iff key k, held k)

module _ (fp : String) (r : Register) (s : Repository) (o : MobileCallBatchOptions)
    (item : CallLogSyncItem) (held : Represents r (index_of s))
    (sound : IsIndexed (index_of s)) where
  judged_by :
      (known : Option String)
      → get (item_key o item) s.call_fingerprint_by_external_id ≡ known
      → verdict known fp ≡ verdict (r (item_key o item)) fp
  judged_by known e = ap (λ x. verdict x fp) (sym e ∙ sym (held (item_key o item)))

  create_item-done :
      IsFree (index_of s) (item_key o item) → ItemDone fp r s o item (create_item s o item fp)
  unfolding create_item reported_call
  create_item-done (no_id, no_fp) =
      let key = item_key o item in
      let call = reported_call s o item in
      let t = store_report s o item fp call in
      let e = store_report-index s o item fp call in
      record {
        after = t;
        result = item_result item SyncItemOutcome.created call;
        step_done = refl;
        judged = judged_by none no_fp;
        labelled =
            sym (ap (λ x. get key x.ids) e ∙ get-set_self key call.id s.call_id_by_external_id);
        held =
            submit-Represents r (index_of s) (index_of t) key fp (ap (λ x. x.fingerprints) e) held;
        sound =
            subst IsIndexed (sym e)
              (put_call-IsIndexed (index_of s) key call.id call fp (call_id_named s) refl sound);
      }

  duplicate_item-done :
      {id : String} {call : CallLog}
      → IsEntry (index_of s) (item_key o item) id call fp
      → ItemDone fp r s o item (s, done (item_result item SyncItemOutcome.duplicate call))
  duplicate_item-done {id} {call} entry = record {
    after = s;
    result = item_result item SyncItemOutcome.duplicate call;
    step_done = refl;
    judged = rw (eq_refl fp) at (judged_by (some fp) entry.fingerprint_found);
    labelled = ap some entry.owned ∙ sym entry.id_found;
    held = repeat-Represents r (index_of s) (item_key o item) fp entry.fingerprint_found held;
    sound = sound;
  }

  update_item-done :
      {id known : String} {call : CallLog}
      → str_eq known fp ≡ false
      → IsEntry (index_of s) (item_key o item) id call known
      → ItemDone fp r s o item (
        store_update s o item fp id (updated_call o item call),
        done (item_result item SyncItemOutcome.updated (updated_call o item call)),
      )
  unfolding updated_call
  update_item-done {id} {known} {call} changed entry =
      let key = item_key o item in
      let new = updated_call o item call in
      let t = store_update s o item fp id new in
      let e = store_update-index s o item fp id new in
      record {
        after = t;
        result = item_result item SyncItemOutcome.updated new;
        step_done = refl;
        judged = rw changed at (judged_by (some known) entry.fingerprint_found);
        labelled = ap some entry.owned ∙ sym (ap (λ x. get key x.ids) e ∙ entry.id_found);
        held =
            submit-Represents r (index_of s) (index_of t) key fp (ap (λ x. x.fingerprints) e) held;
        sound = subst IsIndexed (sym e) (
            change_call-IsIndexed (index_of s) key id new fp entry.id_found entry.named entry.owned
              sound);
      }

  repeat_item-done :
      {id known : String} {call : CallLog}
      → IsEntry (index_of s) (item_key o item) id call known
      → ItemDone fp r s o item (repeat_item s o item fp id)
  unfolding repeat_item
  repeat_item-done {id} {known} {call} entry =
      let found : get id s.calls ≡ some call = entry.call_found in
      let digest : get (item_key o item) s.call_fingerprint_by_external_id ≡ some known =
        entry.fingerprint_found in
      elim (Bool-cases (str_eq known fp)) [
        | inl same ↦
            rw (repeat_item, found, digest, same)
              (duplicate_item-done {id = id} {call = call} (
                subst (λ v. IsEntry (index_of s) (item_key o item) id call v)
                  (ground (arith, eq_iff known fp)) entry))
        | inr changed ↦
            rw (repeat_item, found, digest, changed)
              (update_item-done {id = id} {known = known} {call = call} changed entry)
      ]

pub ingest_item-done :
    (f : CallLogSyncItem → String) (r : Register) (s : Repository) (o : MobileCallBatchOptions)
    (item : CallLogSyncItem)
    → Represents r (index_of s)
    → IsIndexed (index_of s)
    → ItemDone (f item) r s o item (ingest_item f s o item)
unfolding ingest_item
ingest_item-done f r s o item held sound = elim (sound (item_key o item)) [
  | inl (no_id, no_fp) ↦
      let free : get (item_key o item) s.call_id_by_external_id ≡ none = no_id in
      rw (ingest_item, free) (create_item-done (f item) r s o item held sound (no_id, no_fp))
  | inr (id, call, known, entry) ↦
      let found : get (item_key o item) s.call_id_by_external_id ≡ some id = entry.id_found in
      rw (ingest_item, found, truthy_named id entry.named)
        (repeat_item-done (f item) r s o item held sound {id = id} {known = known} {call = call}
          entry)
]
