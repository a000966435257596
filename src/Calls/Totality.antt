-- ===== src/Calls/Totality.antt =====
-- `ingestCall` of apps/api/src/repository.ts never meets the broken indexes that it would throw
-- for.
use mathlib.Core.Option.{some-injective}
use cylizerapp.Base.{
  String, ◌≡◌, refl, sym, ap, subst, ◌∙◌, inl, inr, true, false, not, none, some, str_eq,
  Bool-cases, Option-cases,
}
use cylizerapp.Base.Dict.{get, set, get-set, get-set_self}
use cylizerapp.Base.Outcome.{Outcome, done}
use cylizerapp.Contracts.Calls.{CallLog}
use cylizerapp.Domain.Calls.{IngestCallResult}
use cylizerapp.Repository.{Repository, IdempotencyRecord, tick_id, call_id_named}
use cylizerapp.Calls.Link.{link_call_to_unique_lead}
use cylizerapp.Calls.Index.{
  link-same, index_of, IsIndexed, truthy_named, put_call-IsIndexed, stored_after,
}
use cylizerapp.Calls.Single.{
  IngestCallOptions, idempotency_map_key, external_map_key, differs, new_call, replay_call,
  remember, repeat_external, store_call, create_call, ingest_fresh, ingest_call,
}

-- Every completed request leads to a stored call that has the id it names.
abbrev pub IsAnswerable : Repository → Type 0
IsAnswerable s =
    (key : String) (prior : IdempotencyRecord)
    → get key s.idempotency ≡ some prior
    → (call : CallLog) × (get prior.call_id s.calls ≡ some call) × (call.id ≡ prior.call_id)

remember-IsAnswerable :
    (s : Repository) (o : IngestCallOptions) (id : String) (call : CallLog)
    → get id s.calls ≡ some call
    → call.id ≡ id
    → IsAnswerable s
    → IsAnswerable (remember s o id)
unfolding remember
remember-IsAnswerable s o id call found own h key prior e =
    elim (Bool-cases (str_eq (idempotency_map_key o) key)) [
      | inl same ↦
          let e' = rw (get-set, same) at e in
          let at : id ≡ prior.call_id = ap (λ x. x.call_id) (some-injective _ prior e') in
          (call, ap (λ i. get i s.calls) (sym at) ∙ found, own ∙ at)
      | inr other ↦ h key prior (rw (get-set, other) at e)
    ]

-- What holds after `ingestCall`: it has answered, and the indexes are sound.
abbrev pub IsAnswered : Repository × Outcome IngestCallResult → Type 0
IsAnswered step =
    (t : Repository) × (r : IngestCallResult) × (step ≡ (t, done r))
    × IsIndexed (index_of t)
    × IsAnswerable t

module _ (s : Repository) (o : IngestCallOptions) (sound : IsIndexed (index_of s))
    (answerable : IsAnswerable s) where
  replay-IsAnswered :
      (prior : IdempotencyRecord)
      → get (idempotency_map_key o) s.idempotency ≡ some prior
      → IsAnswered (s, replay_call s o prior)
  unfolding replay_call
  replay-IsAnswered prior stored =
      let (call, found, own) = answerable (idempotency_map_key o) prior stored in
      let same = str_eq prior.fingerprint o.fingerprint in
      (
        s,
        record { call = call; duplicate = same; conflict = not same },
        rw (replay_call, found) refl,
        sound,
        answerable,
      )

  repeat-IsAnswered :
      (id : String) (call : CallLog)
      → get id s.calls ≡ some call
      → call.id ≡ id
      → IsAnswered (repeat_external s o id)
  unfolding repeat_external remember
  repeat-IsAnswered id call found own =
      elim (Bool-cases
        (differs (get (external_map_key o) s.call_fingerprint_by_external_id) o.fingerprint)) [
          | inl other ↦ (
            s,
            record { call = call; duplicate = false; conflict = true },
            rw (repeat_external, found, other) refl,
            sound,
            answerable,
          )
          | inr same ↦ (
            remember s o call.id,
            record { call = call; duplicate = true; conflict = false },
            rw (repeat_external, found, same) refl,
            sound,
            remember-IsAnswerable s o call.id call (ap (λ i. get i s.calls) own ∙ found) refl
                answerable,
          )
        ]

  stored_base : Repository
  stored_base =
      let call = new_call s o in
      record (tick_id s) {
        calls = set call.id call s.calls;
        call_id_by_external_id = set (external_map_key o) call.id s.call_id_by_external_id;
        call_fingerprint_by_external_id =
            set (external_map_key o) o.fingerprint s.call_fingerprint_by_external_id;
      }

  base-IsAnswerable : IsAnswerable stored_base
  unfolding stored_base
  base-IsAnswerable key prior e =
      let call = new_call s o in
      let (old, found, own) = answerable key prior e in
      stored_after call.id prior.call_id call old s.calls refl found own

  create-IsAnswered : IsAnswered (create_call s o)
  unfolding create_call store_call stored_base remember new_call
  create-IsAnswered =
      let call = new_call s o in
      let stored = store_call s o call in
      let index = link-same index_of (λ t n leads links activities. refl) stored call o.at in
      let kept = link-same IsAnswerable (λ t n leads links activities. refl) stored call o.at in
      (
        link_call_to_unique_lead stored call o.at,
        record { call = call; duplicate = false; conflict = false },
        refl,
        subst IsIndexed (sym index) (
            put_call-IsIndexed (index_of s) (external_map_key o) call.id call o.fingerprint
              (call_id_named s) refl sound),
        subst (λ X. X) (sym kept)
            (remember-IsAnswerable stored_base o call.id call (get-set_self call.id call s.calls)
              refl base-IsAnswerable),
      )

  fresh-IsAnswered : IsAnswered (ingest_fresh s o)
  unfolding ingest_fresh
  fresh-IsAnswered = elim (sound (external_map_key o)) [
    | inl (no_id, no_fp) ↦
        let free : get (external_map_key o) s.call_id_by_external_id ≡ none = no_id in
        rw (ingest_fresh, free) create-IsAnswered
    | inr (id, call, known, entry) ↦
        let found : get (external_map_key o) s.call_id_by_external_id ≡ some id = entry.id_found in
        rw (ingest_fresh, found, truthy_named id entry.named)
          (repeat-IsAnswered id call entry.call_found entry.owned)
  ]

  -- Where every external id and every completed request leads to a stored call, `ingestCall`
  -- answers without an error, and this is so again afterwards.
  pub ingest_call-IsAnswered : IsAnswered (ingest_call s o)
  unfolding ingest_call
  ingest_call-IsAnswered = elim (Option-cases (get (idempotency_map_key o) s.idempotency)) [
    | inl new ↦ rw (ingest_call, new) fresh-IsAnswered
    | inr (prior, found) ↦ rw (ingest_call, found) (replay-IsAnswered prior found)
  ]
