-- ===== src/Mobile/Replay.antt =====
-- Requests of apps/api/src/repository.ts that are sent again: each mobile operation stores its
-- answer under device, operation and request ID.
pub mod Requests
pub mod Admin
pub mod Redemption
pub mod Tests
use cylizerapp.Base.{
  String, ◌≡◌, refl, sym, ap, ◌∙◌, Bool, true, false, Option, none, some, arith, Option-cases, inl,
  inr,
}
use cylizerapp.Base.Outcome.{Outcome, done, throws, conflict, once}
use cylizerapp.Domain.{
  MobileResponse, activated, reconsented, rotation_prepared, rotation_confirmed, session_revoked,
  as_replayed, StoredMobileCredentialRequest,
}
use cylizerapp.Repository.{Repository}
use cylizerapp.Mobile.Consent.{replay_response}

as_replayed_idem : (r : MobileResponse) → as_replayed (as_replayed r) ≡ as_replayed r
as_replayed_idem (activated _ _ _ _) = refl
as_replayed_idem (reconsented _ _ _ _) = refl
as_replayed_idem (rotation_prepared _ _ _ _) = refl
as_replayed_idem (rotation_confirmed _ _ _ _) = refl
as_replayed_idem (session_revoked _ _ _ _) = refl

replay-marked :
    (prior : StoredMobileCredentialRequest) (same : Bool) (message : String) (r : MobileResponse)
    → replay_response prior same message ≡ done r
    → as_replayed r ≡ r
unfolding replay_response
replay-marked prior true message r e =
    let marked : as_replayed prior.response ≡ r = cc in
    ap as_replayed (sym marked) ∙ as_replayed_idem prior.response ∙ marked
replay-marked prior false message r e = cc

-- A method as it treats the state: where the request is stored, when a stored one is the same,
-- and what a request does that is not stored.
module _ (stored : Repository → Option StoredMobileCredentialRequest)
    (same : StoredMobileCredentialRequest → Bool) (message : String)
    (fresh : Repository → Repository × Outcome MobileResponse) where
  abbrev pub keyed : Repository → Repository × Outcome MobileResponse
  keyed s = once s (stored s) (λ prior. replay_response prior (same prior) message) (fresh s)

  -- The request that a first run leaves behind.
  abbrev pub Records : Repository → Repository → MobileResponse → Type 0
  Records s t r =
      (prior : StoredMobileCredentialRequest) × (stored t ≡ some prior)
      × (same prior ≡ true)
      × (prior.response ≡ r)

  module _ (s t : Repository) (r : MobileResponse)
      (records : fresh s ≡ (t, done r) → Records s t r) where
    pub keyed-again : keyed s ≡ (t, done r) → keyed t ≡ (t, done (as_replayed r))
    unfolding replay_response
    keyed-again e = elim (Option-cases (stored s)) [
      | inl new ↦
          let (prior, found, accepted, answer) = records (rw new at e) in
          rw (found, accepted) (ap (λ x. (t, done (as_replayed x))) answer)
      | inr (prior, found) ↦
          let e' = rw found at e in
          let unchanged : s ≡ t = ap (λ p. p.0) e' in
          let answer : replay_response prior (same prior) message ≡ done r = ap (λ p. p.1) e' in
          let found' : stored t ≡ some prior = ap stored (sym unchanged) ∙ found in
          rw found' (
            ap (λ x. (t, x))
              (answer ∙ ap done (sym (replay-marked prior (same prior) message r answer))))
    ]

    -- A success leaves a stored request that counts as the same.
    pub keyed-stored :
        keyed s ≡ (t, done r)
        → (prior : StoredMobileCredentialRequest) × (stored t ≡ some prior) × (same prior ≡ true)
    unfolding replay_response
    keyed-stored e = elim (Option-cases (stored s)) [
      | inl new ↦
          let (prior, found, accepted, answer) = records (rw new at e) in (prior, found, accepted)
      | inr (prior, found) ↦
          let e' = rw found at e in
          let unchanged : s ≡ t = ap (λ p. p.0) e' in
          let answer : replay_response prior (same prior) message ≡ done r = ap (λ p. p.1) e' in
          (prior, ap stored (sym unchanged) ∙ found, ground arith)
    ]
