-- ===== src/Calls/Frame.antt =====
-- What `ingestMobileCallBatch` of apps/api/src/repository.ts leaves as it is.
use cylizerapp.Base.{ℕ, String, ◌≡◌, refl, ◌∙◌, inl, inr, List, [], ◌∷◌, Bool-cases, Option-cases}
use cylizerapp.Base.Dict.{Dict, get}
use cylizerapp.Base.Text.{truthy, text_is}
use cylizerapp.Base.Outcome.{and_then_keeps}
use cylizerapp.Contracts.Calls.{CallLog}
use cylizerapp.Contracts.Leads.{Lead, LeadActivity}
use cylizerapp.Contracts.Organizations.{IsoDateTime}
use cylizerapp.Contracts.Sync.{CallLogSyncItem}
use cylizerapp.Domain.Calls.{MobileCallBatchOptions}
use cylizerapp.Repository.{Repository}
use cylizerapp.Calls.Link.{link_call_to_unique_lead}
use cylizerapp.Calls.Index.{link-same}
use cylizerapp.Calls.Batch.{
  item_key, store_update, store_report, repeat_item, create_item, ingest_item, ingest_items,
}

-- What does not read calls, leads, links, activities and the id counter is as it was after the
-- items of a batch.
module _ {ℓ} {X : Type ℓ} (f : Repository → X)
    (same : (s : Repository) (n : ℕ) (leads : Dict Lead) (links : Dict String)
        (activities : Dict LeadActivity) (calls : Dict CallLog) (ids fingerprints : Dict String)
      → f (record s {
        id_value = n;
        leads = leads;
        lead_id_by_call_id = links;
        lead_activities = activities;
        calls = calls;
        call_id_by_external_id = ids;
        call_fingerprint_by_external_id = fingerprints;
      })
        ≡ f s) where
  linked-same :
      (s : Repository) (call : CallLog) (at : IsoDateTime)
      → f (link_call_to_unique_lead s call at) ≡ f s
  linked-same = link-same f (λ s n leads links activities.
      same s n leads links activities s.calls s.call_id_by_external_id
        s.call_fingerprint_by_external_id)

  repeat-same :
      (s : Repository) (o : MobileCallBatchOptions) (item : CallLogSyncItem) (fp id : String)
      → f (repeat_item s o item fp id).0 ≡ f s
  unfolding repeat_item store_update
  repeat-same s o item fp id = elim (Option-cases (get id s.calls)) [
    | inl lost ↦ rw (repeat_item, lost) refl
    | inr (call, found) ↦
        elim (Bool-cases (text_is (get (item_key o item) s.call_fingerprint_by_external_id) fp)) [
          | inl duplicate ↦ rw (repeat_item, found, duplicate) refl
          | inr changed ↦
              rw (repeat_item, found, changed) (linked-same _ _ o.at ∙ same s _ _ _ _ _ _ _)
        ]
  ]

  item-same :
      (fp : CallLogSyncItem → String) (s : Repository) (o : MobileCallBatchOptions)
      (item : CallLogSyncItem)
      → f (ingest_item fp s o item).0 ≡ f s
  unfolding ingest_item create_item store_report
  item-same fp s o item =
      elim (Option-cases (truthy (get (item_key o item) s.call_id_by_external_id))) [
        | inl new ↦ rw (ingest_item, new) (linked-same _ _ o.at ∙ same s _ _ _ _ _ _ _)
        | inr (id, found) ↦ rw (ingest_item, found) (repeat-same s o item (fp item) id)
      ]

  pub items-same :
      (fp : CallLogSyncItem → String) (s : Repository) (o : MobileCallBatchOptions)
      (items : List CallLogSyncItem)
      → f (ingest_items fp s o items).0 ≡ f s
  unfolding ingest_items
  items-same fp s o [] = refl
  items-same fp s o (item ∷ items) =
      and_then_keeps (λ t. f t ≡ f s) (ingest_item fp s o item) _ (item-same fp s o item)
        (λ t result e.
          and_then_keeps (λ u. f u ≡ f s) (ingest_items fp t o items) _
            (items-same fp t o items ∙ e) (λ u results e'. e'))
