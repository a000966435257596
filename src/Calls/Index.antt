-- ===== src/Calls/Index.antt =====
-- The index of stored calls by external id in apps/api/src/repository.ts: `calls`,
-- `callIdByExternalId` and `callFingerprintByExternalId` go together.
use cylizerapp.Base.{
  ℕ, String, ◌≡◌, refl, ◌∙◌, ◌≢◌, ◌⊎◌, inl, inr, Option, none, some, arith, eq_iff, str_eq,
  Bool-cases, Option-cases, is_some,
}
use cylizerapp.Base.Dict.{Dict, get, set, get-set, get-set_self, get-set_ne}
use cylizerapp.Base.Text.{truthy}
use cylizerapp.Contracts.Organizations.{IsoDateTime}
use cylizerapp.Contracts.Calls.{CallLog}
use cylizerapp.Contracts.Leads.{Lead, LeadActivity}
use cylizerapp.Repository.{Repository}
use cylizerapp.Lead.Access.{employee_team}
use cylizerapp.Calls.Link.{
  link_call_to_unique_lead, link_to, record_link, the_only, link_candidates, linked_lead_id,
}

pub record CallIndex : Type 0 where
  pub calls : Dict CallLog
  pub ids : Dict String
  pub fingerprints : Dict String

abbrev pub index_of : Repository → CallIndex
index_of s = record {
  calls = s.calls;
  ids = s.call_id_by_external_id;
  fingerprints = s.call_fingerprint_by_external_id;
}

-- The key leads to a stored call and to the digest of its last report.
pub record IsEntry (x : CallIndex) (key id : String) (call : CallLog) (fingerprint : String)
    : Type 0 where
  pub id_found : get key x.ids ≡ some id
  pub named : id ≢ ""
  pub owned : call.id ≡ id
  pub call_found : get id x.calls ≡ some call
  pub fingerprint_found : get key x.fingerprints ≡ some fingerprint

abbrev pub IsFree : CallIndex → String → Type 0
IsFree x key = (get key x.ids ≡ none) × (get key x.fingerprints ≡ none)

abbrev pub HasEntry : CallIndex → String → Type 0
HasEntry x key =
    (id : String) × (call : CallLog) × (fingerprint : String) × IsEntry x key id call fingerprint

-- Every external id is unknown or leads to a stored call.
abbrev pub IsIndexed : CallIndex → Type 0
IsIndexed x = (key : String) → IsFree x key ⊎ HasEntry x key

abbrev pub put_call : CallIndex → String → String → CallLog → String → CallIndex
put_call x key id call fingerprint = record {
  calls = set id call x.calls;
  ids = set key id x.ids;
  fingerprints = set key fingerprint x.fingerprints;
}

-- A call whose external id is known.
abbrev pub change_call : CallIndex → String → String → CallLog → String → CallIndex
change_call x key id call fingerprint = record x {
  calls = set id call x.calls;
  fingerprints = set key fingerprint x.fingerprints;
}

pub stored_after :
    (id other : String) (call old : CallLog) (m : Dict CallLog)
    → call.id ≡ id
    → get other m ≡ some old
    → old.id ≡ other
    → (found : CallLog) × (get other (set id call m) ≡ some found) × (found.id ≡ other)
stored_after id other call old m owned h own = elim (Bool-cases (str_eq id other)) [
  | inl same ↦ (call, rw (get-set, same) refl, ground (arith, eq_iff id other))
  | inr differ ↦ (old, rw (get-set, differ) h, own)
]

other_entry :
    (x : CallIndex) (key k id : String) (call : CallLog) (fingerprint : String)
    → call.id ≡ id
    → key ≢ k
    → IsFree x k ⊎ HasEntry x k
    → IsFree (put_call x key id call fingerprint) k
      ⊎ HasEntry (put_call x key id call fingerprint) k
other_entry x key k id call fingerprint owned h (inl (a, b)) =
    inl (get-set_ne key k id x.ids h ∙ a, get-set_ne key k fingerprint x.fingerprints h ∙ b)
other_entry x key k id call fingerprint owned h (inr (j, old, f, entry)) =
    let (found, e, own) = stored_after id j call old x.calls owned entry.call_found entry.owned in
    inr (
      j,
      found,
      f,
      record {
        id_found = get-set_ne key k id x.ids h ∙ entry.id_found;
        named = entry.named;
        owned = own;
        call_found = e;
        fingerprint_found = get-set_ne key k fingerprint x.fingerprints h ∙ entry.fingerprint_found;
      },
    )

pub put_call-IsIndexed :
    (x : CallIndex) (key id : String) (call : CallLog) (fingerprint : String)
    → id ≢ ""
    → call.id ≡ id
    → IsIndexed x
    → IsIndexed (put_call x key id call fingerprint)
put_call-IsIndexed x key id call fingerprint named owned h k = elim (Bool-cases (str_eq key k)) [
  | inl same ↦ inr (
    id,
    call,
    fingerprint,
    record {
      id_found = rw (get-set, same) refl;
      named = named;
      owned = owned;
      call_found = get-set_self id call x.calls;
      fingerprint_found = rw (get-set, same) refl;
    },
  )
  | inr differ ↦ other_entry x key k id call fingerprint owned (ground (arith, eq_iff key k)) (h k)
]

other_change :
    (x : CallIndex) (key k id : String) (call : CallLog) (fingerprint : String)
    → call.id ≡ id
    → key ≢ k
    → IsFree x k ⊎ HasEntry x k
    → IsFree (change_call x key id call fingerprint) k
      ⊎ HasEntry (change_call x key id call fingerprint) k
other_change x key k id call fingerprint owned h (inl (a, b)) =
    inl (a, get-set_ne key k fingerprint x.fingerprints h ∙ b)
other_change x key k id call fingerprint owned h (inr (j, old, f, entry)) =
    let (found, e, own) = stored_after id j call old x.calls owned entry.call_found entry.owned in
    inr (
      j,
      found,
      f,
      record {
        id_found = entry.id_found;
        named = entry.named;
        owned = own;
        call_found = e;
        fingerprint_found = get-set_ne key k fingerprint x.fingerprints h ∙ entry.fingerprint_found;
      },
    )

pub change_call-IsIndexed :
    (x : CallIndex) (key id : String) (call : CallLog) (fingerprint : String)
    → get key x.ids ≡ some id
    → id ≢ ""
    → call.id ≡ id
    → IsIndexed x
    → IsIndexed (change_call x key id call fingerprint)
change_call-IsIndexed x key id call fingerprint known named owned h k =
    elim (Bool-cases (str_eq key k)) [
      | inl same ↦ inr (
        id,
        call,
        fingerprint,
        record {
          id_found = ground (arith, eq_iff key k);
          named = named;
          owned = owned;
          call_found = get-set_self id call x.calls;
          fingerprint_found = rw (get-set, same) refl;
        },
      )
      | inr differ ↦
          other_change x key k id call fingerprint owned (ground (arith, eq_iff key k)) (h k)
    ]

-- What does not read leads, links, activities and the id counter is as it was after a link.
module _ {ℓ} {X : Type ℓ} (f : Repository → X)
    (same : (s : Repository) (n : ℕ) (leads : Dict Lead) (links : Dict String)
        (activities : Dict LeadActivity)
      → f (record s {
        id_value = n;
        leads = leads;
        lead_id_by_call_id = links;
        lead_activities = activities;
      })
        ≡ f s) where
  link_to-same :
      (s : Repository) (call : CallLog) (at : IsoDateTime) (lead : Option Lead)
      → f (link_to s call at lead) ≡ f s
  unfolding link_to record_link
  link_to-same s call at none = refl
  link_to-same s call at (some lead) = elim (Bool-cases (is_some (linked_lead_id s call))) [
    | inl linked ↦ rw linked (same s _ _ _ _)
    | inr new ↦ rw new (same s _ _ _ _)
  ]

  pub link-same :
      (s : Repository) (call : CallLog) (at : IsoDateTime)
      → f (link_call_to_unique_lead s call at) ≡ f s
  unfolding link_call_to_unique_lead
  link-same s call at = elim (Bool-cases call.participant.is_internal) [
    | inl internal ↦ rw internal refl
    | inr outside ↦ elim (Option-cases (truthy (employee_team s (some call.employee_id)))) [
      | inl nobody ↦ rw (outside, nobody) refl
      | inr (team, found) ↦
          rw (outside, found) (link_to-same s call at (the_only (link_candidates s call team)))
    ]
  ]

pub truthy_named : (id : String) → id ≢ "" → truthy (some id) ≡ some id
truthy_named id h = ground (arith, eq_iff id "")
