-- ===== src/Calls/Again.antt =====
-- Calls that are sent again, in apps/api/src/repository.ts: `ingestCall` under a used idempotency
-- key and `ingestMobileCallBatch` under a used batch id.
use mathlib.Core.Option.{some-injective}
use cylizerapp.Base.{
  String, ◌≡◌, refl, sym, ap, subst, ◌∙◌, inl, inr, false, not, none, some, arith, eq_iff, str_eq,
  Option-cases,
}
use cylizerapp.Base.Dict.{get, get-set_self}
use cylizerapp.Base.Outcome.{done}
use cylizerapp.Contracts.Calls.{CallLog}
use cylizerapp.Domain.Calls.{IngestCallResult}
use cylizerapp.Repository.{Repository, IdempotencyRecord}
use cylizerapp.Calls.Index.{link-same, index_of, IsIndexed, truthy_named}
use cylizerapp.Calls.Single.{
  IngestCallOptions, idempotency_map_key, external_map_key, differs, new_call, replay_call,
  remember, repeat_external, store_call, create_call, ingest_fresh, ingest_call,
}

-- The request's key leads to a call that is stored, under the request's fingerprint.
record IsRemembered (s : Repository) (o : IngestCallOptions) (call : CallLog) : Type 0 where
  call_id : String
  found :
      get (idempotency_map_key o) s.idempotency
      ≡ some (record { fingerprint = o.fingerprint; call_id = call_id })
  call_found : get call_id s.calls ≡ some call

create-IsRemembered :
    (s : Repository) (o : IngestCallOptions) → IsRemembered (create_call s o).0 o (new_call s o)
unfolding create_call store_call remember
create-IsRemembered s o =
    let call = new_call s o in
    let stored = store_call s o call in
    record {
      call_id = call.id;
      found =
          link-same (λ t. get (idempotency_map_key o) t.idempotency)
            (λ t n leads links activities. refl) stored call o.at
          ∙ get-set_self (idempotency_map_key o) _ s.idempotency;
      call_found =
          link-same (λ t. get call.id t.calls) (λ t n leads links activities. refl) stored call o.at
          ∙ get-set_self call.id call s.calls;
    }

repeat-IsRemembered :
    (s : Repository) (o : IngestCallOptions) (id : String) {t : Repository} {r : IngestCallResult}
    → ((call : CallLog) → get id s.calls ≡ some call → call.id ≡ id)
    → repeat_external s o id ≡ (t, done r)
    → r.conflict ≡ false
    → IsRemembered t o r.call
unfolding remember repeat_external
repeat-IsRemembered s o id {t} {r} owned e agreed = elim (Option-cases (get id s.calls)) [
  | inl lost ↦ let e' = rw (repeat_external, lost) at e in cc
  | inr (call, found) ↦
      let e' = rw (repeat_external, found) at e in
      let same : differs (get (external_map_key o) s.call_fingerprint_by_external_id) o.fingerprint
          ≡ false =
        cc in
      let e'' = rw same at e' in
      let after : remember s o call.id ≡ t = ap (λ p. p.0) e'' in
      let answer : call ≡ r.call = cc in
      subst (λ u. IsRemembered u o r.call) after
        (record {
          call_id = call.id;
          found = get-set_self (idempotency_map_key o) _ s.idempotency;
          call_found = ap (λ i. get i s.calls) (owned call found) ∙ found ∙ ap some answer;
        })
]

replay-IsRemembered :
    (s : Repository) (o : IngestCallOptions) (prior : IdempotencyRecord) {r : IngestCallResult}
    → get (idempotency_map_key o) s.idempotency ≡ some prior
    → replay_call s o prior ≡ done r
    → r.conflict ≡ false
    → IsRemembered s o r.call
unfolding replay_call
replay-IsRemembered s o prior {r} stored e agreed =
    elim (Option-cases (get prior.call_id s.calls)) [
      | inl lost ↦ let e' = rw (replay_call, lost) at e in cc
      | inr (call, found) ↦
          let e' = rw (replay_call, found) at e in
          let same : not (str_eq prior.fingerprint o.fingerprint) ≡ false = cc in
          let answer : call ≡ r.call = cc in
          let print : prior.fingerprint ≡ o.fingerprint =
            ground (arith, eq_iff prior.fingerprint o.fingerprint) in
          record {
            call_id = prior.call_id;
            found =
                stored ∙ ap (λ x. some (record { fingerprint = x; call_id = prior.call_id })) print;
            call_found = found ∙ ap some answer;
          }
    ]

fresh-IsRemembered :
    (s : Repository) (o : IngestCallOptions) {t : Repository} {r : IngestCallResult}
    → IsIndexed (index_of s)
    → ingest_fresh s o ≡ (t, done r)
    → r.conflict ≡ false
    → IsRemembered t o r.call
unfolding ingest_fresh create_call
fresh-IsRemembered s o {t} {r} sound e agreed = elim (sound (external_map_key o)) [
  | inl (no_id, no_fp) ↦
      let free : get (external_map_key o) s.call_id_by_external_id ≡ none = no_id in
      let e' = rw (ingest_fresh, free) at e in
      let after : (create_call s o).0 ≡ t = ap (λ p. p.0) e' in
      let answer : new_call s o ≡ r.call = cc in
      subst (λ u. IsRemembered u o r.call) after
        (subst (IsRemembered (create_call s o).0 o) answer (create-IsRemembered s o))
  | inr (id, call, known, entry) ↦
      let found : get (external_map_key o) s.call_id_by_external_id ≡ some id = entry.id_found in
      let e' = rw (ingest_fresh, found, truthy_named id entry.named) at e in
      repeat-IsRemembered s o id {t = t} {r = r}
        (λ c h. ap (λ x. x.id) (some-injective c call (sym h ∙ entry.call_found)) ∙ entry.owned) e'
        agreed
]

ingest-IsRemembered :
    (s : Repository) (o : IngestCallOptions) {t : Repository} {r : IngestCallResult}
    → IsIndexed (index_of s)
    → ingest_call s o ≡ (t, done r)
    → r.conflict ≡ false
    → IsRemembered t o r.call
unfolding ingest_call
ingest-IsRemembered s o {t} {r} sound e agreed =
    elim (Option-cases (get (idempotency_map_key o) s.idempotency)) [
      | inl new ↦ fresh-IsRemembered s o {t = t} {r = r} sound (rw new at e) agreed
      | inr (prior, found) ↦
          let e' = rw found at e in
          let same : s ≡ t = ap (λ p. p.0) e' in
          let answer : replay_call s o prior ≡ done r = ap (λ p. p.1) e' in
          subst (λ u. IsRemembered u o r.call) same
            (replay-IsRemembered s o prior {r = r} found answer agreed)
    ]

-- After a call was taken, any request under the same organization and idempotency key changes
-- nothing and is answered with that call: as a duplicate when its fingerprint is the same, as a
-- conflict when it is another. The call index must be sound.
pub ingest_call_again :
    (s t : Repository) (o o' : IngestCallOptions) (r : IngestCallResult)
    → IsIndexed (index_of s)
    → ingest_call s o ≡ (t, done r)
    → r.conflict ≡ false
    → idempotency_map_key o' ≡ idempotency_map_key o
    → ingest_call t o' ≡ (
      t,
      done (record {
        call = r.call;
        duplicate = str_eq o.fingerprint o'.fingerprint;
        conflict = not (str_eq o.fingerprint o'.fingerprint);
      }),
    )
unfolding ingest_call replay_call
ingest_call_again s t o o' r sound e agreed key =
    let memory = ingest-IsRemembered s o {t = t} {r = r} sound e agreed in
    rw (key, memory.found, replay_call, memory.call_found) refl
