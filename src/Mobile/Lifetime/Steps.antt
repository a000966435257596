-- ===== src/Mobile/Lifetime/Steps.antt =====
-- The operations as steps of a service: any of them, in any order, by any caller; and what no
-- sequence of calls can undo.
use cylizerapp.Base.{String, ◌≡◌, sym, ◌∙◌, ◌≢◌, ◌<◌, subst, true, none, some}
use mathlib.Core.Option.{some-injective}
use cylizerapp.Base.Dict.{get}
use cylizerapp.Base.Outcome.{done}
use cylizerapp.Contracts.Organizations.{IsoDateTime}
use cylizerapp.Domain.{
  StoredDeviceCredential, DeviceCredentialState, DeviceCredentialType, MobileDeviceContext,
  PairingCodeRecord,
}
use cylizerapp.Repository.{Repository}
use cylizerapp.Mobile.Credentials.{resolve_device_credential}
use cylizerapp.Mobile.Lifetime.{IsSound, HoldsClosed, is_closed}
use cylizerapp.Mobile.Lifetime.Facts.{Kept}
use cylizerapp.Mobile.Lifetime.Accepted.{usable-not_closed, is_usable_parts, accepted-is_usable}
use cylizerapp.Mobile.PairingCheck.{create_pairing_code, revoke_pairing_code, RedeemOptions}
use cylizerapp.Mobile.Pairing.{redeem_pairing_code}
use cylizerapp.Mobile.Activation.{
  ActivateOptions, activate_mobile_device, ReconsentOptions, reconsent_mobile_device,
}
use cylizerapp.Mobile.Rotation.{
  PrepareOptions, prepare_device_session_rotation, ConfirmOptions, confirm_device_session_rotation,
}
use cylizerapp.Mobile.Revocation.{RevokeOptions, revoke_mobile_session}
use cylizerapp.Mobile.AdminRevocation.{AdminRevokeOptions, revoke_device_by_administrator}
use cylizerapp.Mobile.Suspension.{suspend_employee}
use cylizerapp.Mobile.Heartbeat.{HeartbeatOptions, record_device_heartbeat}
use cylizerapp.Contracts.Sync.{CallLogSyncItem}
use cylizerapp.Domain.Calls.{MobileCallBatchOptions}
use cylizerapp.Calls.Batch.{ingest_mobile_call_batch}
use cylizerapp.Calls.Single.{IngestCallOptions, ingest_call}
use cylizerapp.Mobile.Lifetime.Ingestion.{batch-Kept, ingest-Kept}
use cylizerapp.Mobile.Lifetime.Calls.{
  IsNewId, redeem-Kept, activate-Kept, reconsent-Kept, prepares-Kept, confirms-Kept, beat-Kept,
  revoke-Kept, admin_revoke-Kept, suspend-Kept, revoke_code-Kept, create_code-Kept,
}

-- Which hashes of bootstrap tokens the callers pair with: the client proposes that token, and the
-- code takes it as it is.
abbrev pub Anything : String → Type 0
Anything hash = Unit

abbrev pub OtherThan : String → String → Type 0
OtherThan hash other = other ≢ hash

-- One call of the service, pairings being made with an allowed hash. The server's generator
-- (`ids.next("device_credential")`) gives each new credential an id that is not yet in use.
pub data Step (allowed : String → Type 0) (s : Repository) : Repository → Type 0 where
  creates_code : (code : PairingCodeRecord) → Step allowed s (create_pairing_code s code)
  revokes_code :
      (organization_id id : String) (at : IsoDateTime)
      → Step allowed s (revoke_pairing_code s organization_id id at).0
  redeems :
      (o : RedeemOptions)
      → IsNewId o.bootstrap_credential.id s
      → allowed o.bootstrap_credential.token_hash
      → Step allowed s (redeem_pairing_code s o).0
  activates :
      (o : ActivateOptions)
      → IsNewId o.session_credential.id s
      → Step allowed s (activate_mobile_device s o).0
  reconsents : (o : ReconsentOptions) → Step allowed s (reconsent_mobile_device s o).0
  prepares :
      (o : PrepareOptions)
      → IsNewId o.session_credential.id s
      → Step allowed s (prepare_device_session_rotation s o).0
  confirms : (o : ConfirmOptions) → Step allowed s (confirm_device_session_rotation s o).0
  beats : (o : HeartbeatOptions) → Step allowed s (record_device_heartbeat s o).0
  revokes : (o : RevokeOptions) → Step allowed s (revoke_mobile_session s o).0
  admin_revokes : (o : AdminRevokeOptions) → Step allowed s (revoke_device_by_administrator s o).0
  suspends :
      (organization_id employee_id actor_user_id : String) (at : IsoDateTime)
      → Step allowed s (suspend_employee s organization_id employee_id actor_user_id at).0
  synchronizes :
      (fingerprint : CallLogSyncItem → String) (o : MobileCallBatchOptions)
      → Step allowed s (ingest_mobile_call_batch fingerprint s o).0
  ingests : (o : IngestCallOptions) → Step allowed s (ingest_call s o).0

pub data Reach (allowed : String → Type 0) (s : Repository) : Repository → Type 0 where
  here : Reach allowed s s
  next : {t u : Repository} → Reach allowed s t → Step allowed t u → Reach allowed s u

Step-Kept :
    {allowed : String → Type 0} (watched : Type 0) (hash : String)
    → (watched → (other : String) → allowed other → other ≢ hash)
    → {s t : Repository} → Step allowed s t
    → Kept watched hash s
    → Kept watched hash t
Step-Kept watched hash apart {s} (creates_code code) k = create_code-Kept watched hash s k code
Step-Kept watched hash apart {s} (revokes_code organization_id id at) k =
    revoke_code-Kept watched hash s k organization_id id at
Step-Kept watched hash apart {s} (redeems o new may) k =
    redeem-Kept watched hash s k o new (λ w. apart w o.bootstrap_credential.token_hash may)
Step-Kept watched hash apart {s} (activates o new) k = activate-Kept watched hash s k o new
Step-Kept watched hash apart {s} (reconsents o) k = reconsent-Kept watched hash s k o
Step-Kept watched hash apart {s} (prepares o new) k = prepares-Kept watched hash s k o new
Step-Kept watched hash apart {s} (confirms o) k = confirms-Kept watched hash s k o
Step-Kept watched hash apart {s} (beats o) k = beat-Kept watched hash s k o
Step-Kept watched hash apart {s} (revokes o) k = revoke-Kept watched hash s k o
Step-Kept watched hash apart {s} (admin_revokes o) k = admin_revoke-Kept watched hash s k o
Step-Kept watched hash apart {s} (suspends organization_id employee_id actor_user_id at) k =
    suspend-Kept watched hash s k organization_id employee_id actor_user_id at
Step-Kept watched hash apart {s} (synchronizes fingerprint o) k =
    batch-Kept watched hash s k fingerprint o
Step-Kept watched hash apart {s} (ingests o) k = ingest-Kept watched hash s k o

Reach-Kept :
    {allowed : String → Type 0} (watched : Type 0) (hash : String)
    → (watched → (other : String) → allowed other → other ≢ hash)
    → {s t : Repository} → Reach allowed s t
    → Kept watched hash s
    → Kept watched hash t
Reach-Kept watched hash apart here k = k
Reach-Kept watched hash apart (next r st) k =
    Step-Kept watched hash apart st (Reach-Kept watched hash apart r k)

-- In every state that any calls lead to from a sound one, whatever tokens the clients propose,
-- each credential stands once, under its own hash, and its id leads back to that hash; new
-- credentials have ids that are not yet in use.
pub Reach-IsSound :
    {allowed : String → Type 0} {s t : Repository} → Reach allowed s t → IsSound s → IsSound t
Reach-IsSound r sound = (Reach-Kept ⊥ "" (λ w. absurd w) r (sound, λ w. absurd w)).0

-- In a sound state a bearer token is accepted only while the very credential stored under its hash
-- is active, neither revoked nor consumed, and not expired.
pub resolve-is_usable :
    (s : Repository) (hash : String) (type : DeviceCredentialType) (at : IsoDateTime)
    (context : MobileDeviceContext)
    → IsSound s
    → resolve_device_credential s hash type at ≡ done context
    → (c : StoredDeviceCredential) × (get hash s.device_credentials_by_hash ≡ some c)
      × (c.lifecycle_state ≡ DeviceCredentialState.active)
      × (c.revoked_at ≡ none)
      × (c.consumed_at ≡ none)
      × (at < c.expires_at)
resolve-is_usable s hash type at context sound e =
    let (c, stored, usable) = accepted-is_usable s hash type at context sound e in
    let (active, live, unused, early) = is_usable_parts c at usable in
    (c, stored, active, live, unused, early)

-- A token whose credential is revoked or consumed in a sound state is denied, at any time and as
-- any type of credential, in every state that any calls by anyone lead to from there, as long as no
-- pairing among them proposes that very token again (and new credentials have ids not yet in use).
pub closed-denied_forever :
    {s t : Repository} (hash : String) (type : DeviceCredentialType) (at : IsoDateTime)
    (context : MobileDeviceContext)
    → Reach (OtherThan hash) s t
    → IsSound s
    → HoldsClosed hash s.device_credentials_by_hash
    → resolve_device_credential t hash type at ≢ done context
closed-denied_forever {t = t} hash type at context r sound closed e =
    let (sound', closed') =
      Reach-Kept (Unit {0}) hash (λ _ _ apart. apart) r (sound, λ _. closed) in
    let (c, stored, usable) = accepted-is_usable t hash type at context sound' e in
    let (d, stored', shut) = closed' tt in
    let same : d ≡ c = some-injective d c (sym stored' ∙ stored) in
    usable-not_closed c at usable (subst (λ x. is_closed x ≡ true) same shut)
