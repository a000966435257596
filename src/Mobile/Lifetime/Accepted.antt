-- ===== src/Mobile/Lifetime/Accepted.antt =====
-- What `resolveDeviceCredential` of apps/api/src/repository.ts has found when it accepts a token.
use cylizerapp.Base.{
  String, ◌≡◌, sym, ap, ◌∙◌, ◌<◌, refl, inl, inr, true, none, some, arith, Option-cases, eq_iff,
}
use mathlib.Core.Option.{some-injective}
use cylizerapp.Base.Dict.{get}
use cylizerapp.Base.Dict.Keys.{find-values}
use cylizerapp.Base.Outcome.{done, Outcome-cases}
use cylizerapp.Contracts.Organizations.{IsoDateTime}
use cylizerapp.Domain.{
  StoredDeviceCredential, DeviceCredentialState, same_state, DeviceCredentialType,
  MobileDeviceContext,
}
use cylizerapp.Repository.{Repository}
use cylizerapp.Mobile.Credentials.{
  resolve_device_credential, find_current_mobile_credential, find_current-IsCurrentFor,
  CurrentCredential, context_for_credential, names_credential, is_usable,
}
use cylizerapp.Mobile.Lifetime.{IsSound, is_closed}

pub usable-not_closed :
    (c : StoredDeviceCredential) (at : IsoDateTime) → is_usable c at ≡ true → is_closed c ≡ true → ⊥
unfolding is_usable is_closed
usable-not_closed c at u h = ground arith

state_active :
    (state : DeviceCredentialState)
    → same_state state DeviceCredentialState.active ≡ true
    → state ≡ DeviceCredentialState.active
state_active DeviceCredentialState.active e = refl
state_active DeviceCredentialState.pending e = absurd cc
state_active DeviceCredentialState.consumed e = absurd cc
state_active DeviceCredentialState.revoked e = absurd cc

pub is_usable_parts :
    (c : StoredDeviceCredential) (at : IsoDateTime)
    → is_usable c at ≡ true
    → (c.lifecycle_state ≡ DeviceCredentialState.active)
      × (c.revoked_at ≡ none)
      × (c.consumed_at ≡ none)
      × (at < c.expires_at)
unfolding is_usable
is_usable_parts c at u = ground (arith, state_active c.lifecycle_state)

resolve_found :
    (s : Repository) (hash : String) (type : DeviceCredentialType) (at : IsoDateTime)
    (context : MobileDeviceContext)
    → resolve_device_credential s hash type at ≡ done context
    → (c : StoredDeviceCredential) × (get hash s.device_credentials_by_hash ≡ some c)
      × (c.id ≡ context.credential_id)
      × (current : CurrentCredential) × (find_current_mobile_credential s context type at
          ≡ done current)
unfolding resolve_device_credential context_for_credential
resolve_found s hash type at context e =
    elim (Option-cases (get hash s.device_credentials_by_hash)) [
      | inl gone ↦ absurd (ground arith)
      | inr (c, stored) ↦ elim (Outcome-cases (find_current_mobile_credential s context type at)) [
        | inl (current, found) ↦ (c, stored, ground arith, current, found)
        | inr other ↦ absurd (ground arith)
      ]
    ]

named_id :
    (context : MobileDeviceContext) (type : DeviceCredentialType) (c : StoredDeviceCredential)
    → names_credential context type c ≡ true
    → c.id ≡ context.credential_id
unfolding names_credential
named_id context type c h = ground (arith, eq_iff c.id context.credential_id)

pub accepted-is_usable :
    (s : Repository) (hash : String) (type : DeviceCredentialType) (at : IsoDateTime)
    (context : MobileDeviceContext)
    → IsSound s
    → resolve_device_credential s hash type at ≡ done context
    → (c : StoredDeviceCredential) × (get hash s.device_credentials_by_hash ≡ some c)
      × (is_usable c at ≡ true)
accepted-is_usable s hash type at context sound e =
    let (c, stored, same_id, current, found) = resolve_found s hash type at context e in
    let fact = find_current-IsCurrentFor s context type at current found in
    let (k, kept, named) =
      find-values (names_credential context type) s.device_credentials_by_hash
        {v = current.credential} sound.is_map fact.listed in
    let ids = named_id context type current.credential named ∙ sym same_id in
    let hashes = sound.by_id hash c stored in
    let hashes' = sound.by_id k current.credential kept in
    let index = ap (λ id. get id s.device_credential_hash_by_id) ids in
    let keys : k ≡ hash = some-injective k hash (sym hashes' ∙ index ∙ hashes) in
    let place = ap (λ h. get h s.device_credentials_by_hash) keys in
    (current.credential, sym place ∙ kept, fact.usable)
