-- ===== src/Mobile/Lifetime/Keeps.antt =====
-- Every write to the credential maps keeps them in agreement and keeps closed credentials
-- closed. The server's generator gives new ids. The bootstrap token is the client's, and the code
-- stores it whatever stands under its hash: a closed hash stays closed when it is another one.
use cylizerapp.Base.{
  String, ◌≡◌, ◌≢◌, refl, sym, ◌∙◌, inl, inr, subst, true, Option, none, some, List, [], ◌∷◌, arith,
  Option-cases, Bool-cases, str_eq,
}
use mathlib.Core.Option.{some-injective}
use cylizerapp.Base.Dict.{get, set, map_values, get-set_ne}
use cylizerapp.Base.Outcome.{done}
use cylizerapp.Contracts.Organizations.{IsoDateTime}
use cylizerapp.Contracts.Employees.{Employee, EmployeeDevice}
use cylizerapp.Contracts.Sync.{MobilePolicy}
use cylizerapp.Domain.{StoredDeviceCredential, DeviceCredentialType, PairingCodeRecord}
use cylizerapp.Repository.{Repository}
use cylizerapp.Mobile.Credentials.{CurrentCredential}
use cylizerapp.Mobile.Lifetime.{IsIndexed, HoldsClosed, is_closed}
use cylizerapp.Mobile.Lifetime.Index.{
  KeepsNames, KeepsClosed, IsIndexed-map_values, IsIndexed-set, IsIndexed-add,
  HoldsClosed-map_values, HoldsClosed-set_ne, HoldsClosed-set,
}
use cylizerapp.Mobile.Consent.{stored_credential}
use cylizerapp.Mobile.Activation.{
  ActivateOptions, admit_activation, commit_activation, consumed_bootstrap,
}
use cylizerapp.Mobile.Rotation.{
  PrepareOptions, is_fresh_rotation, admit_prepare, commit_prepare, ConfirmOptions, RotationPair,
  admit_confirm, commit_confirm, promoted, replaced,
}
use cylizerapp.Mobile.PairingCheck.{RedeemOptions}
use cylizerapp.Mobile.Pairing.{revoke_open, prepare_device, bootstrap_of, store_redemption}
use cylizerapp.Mobile.AdminRevocation.{revoke_live}
use cylizerapp.Mobile.Suspension.{close_credential, suspend_device, suspend_devices}
use cylizerapp.Mobile.Lifetime.Facts.{
  Kept, not_present, revoke_open-KeepsNames, revoke_open-KeepsClosed, revoke_live-KeepsNames,
  revoke_live-KeepsClosed, close_credential-KeepsNames, close_credential-KeepsClosed,
  current-stored, admit_activation_found, fresh_session_new, fresh_rotation_new,
  admit_confirm_found, rotation_hashes_ne, promoted_closed,
}

module _ (watched : Type 0) (hash : String) (s : Repository) where
  pub activation-Kept :
      (o : ActivateOptions) (p : CurrentCredential × MobilePolicy)
      → get o.session_credential.id s.device_credential_hash_by_id ≡ none
      → admit_activation s o ≡ done p
      → Kept watched hash s
      → Kept watched hash (commit_activation s o p).0
  unfolding commit_activation is_closed
  activation-Kept o (current, active) new e (sound, closed) =
      let (found, fresh) = admit_activation_found s o current active e in
      let stored =
        current-stored s o.context DeviceCredentialType.bootstrap o.at current sound found in
      let unused = fresh_session_new s o fresh in
      let consumed = consumed_bootstrap o.at current.credential in
      let creds = s.device_credentials_by_hash in
      let key = current.credential.token_hash in
      (
        IsIndexed-add (set key consumed creds) s.device_credential_hash_by_id
            (stored_credential o.session_credential o.context o.at) new
            (IsIndexed-set creds s.device_credential_hash_by_id key current.credential consumed
              stored refl refl sound),
        λ w.
            HoldsClosed-set_ne hash (set key consumed creds)
              (HoldsClosed-set hash creds (closed w) key consumed (λ d _ _. ground arith))
              o.session_credential.token_hash
              (stored_credential o.session_credential o.context o.at)
              (not_present hash o.session_credential.token_hash s (closed w) unused),
      )

  pub prepare-Kept :
      (o : PrepareOptions)
      → get o.session_credential.id s.device_credential_hash_by_id ≡ none
      → admit_prepare s o ≡ done tt
      → Kept watched hash s
      → Kept watched hash (commit_prepare s o tt).0
  unfolding commit_prepare admit_prepare
  prepare-Kept o new e (sound, closed) =
      let fresh : is_fresh_rotation s o ≡ true = ground arith in
      (
        IsIndexed-add s.device_credentials_by_hash s.device_credential_hash_by_id
            (stored_credential o.session_credential o.context o.at) new sound,
        λ w.
            HoldsClosed-set_ne hash s.device_credentials_by_hash (closed w)
              o.session_credential.token_hash
              (stored_credential o.session_credential o.context o.at)
              (not_present hash o.session_credential.token_hash s (closed w)
                (fresh_rotation_new s o fresh)),
      )

module _ (watched : Type 0) (hash : String) (s : Repository) where
  pub confirm-Kept :
      (o : ConfirmOptions) (pair : RotationPair)
      → admit_confirm s o ≡ done pair
      → Kept watched hash s
      → Kept watched hash (commit_confirm s o pair).0
  unfolding commit_confirm is_closed
  confirm-Kept o pair e (sound, closed) =
      let (pending, old, waiting, active) = admit_confirm_found s o pair e in
      let creds = s.device_credentials_by_hash in
      let hashes = s.device_credential_hash_by_id in
      let first = set pair.pending_hash (promoted pair.pending) creds in
      let still : get pair.old_hash first ≡ some pair.old =
        get-set_ne pair.pending_hash pair.old_hash (promoted pair.pending) creds
          (rotation_hashes_ne s o pair e)
        ∙ old in
      (
        IsIndexed-set first hashes pair.old_hash pair.old (replaced o.at pair.old) still refl refl (
            IsIndexed-set creds hashes pair.pending_hash pair.pending (promoted pair.pending)
              pending refl refl sound),
        λ w.
            HoldsClosed-set hash first
              (HoldsClosed-set hash creds (closed w) pair.pending_hash (promoted pair.pending)
                (λ d found shut. promoted_closed pair.pending o waiting (
                  subst (λ c. is_closed c ≡ true)
                    (some-injective d pair.pending (sym found ∙ pending)) shut)))
              pair.old_hash (replaced o.at pair.old) (λ _ _ _. refl),
      )

  -- A loop over the credentials that keeps names and keeps closed ones closed.
  loop-Kept :
      (f : StoredDeviceCredential → StoredDeviceCredential)
      → KeepsNames f
      → KeepsClosed f
      → Kept watched hash s
      → IsIndexed (map_values f s.device_credentials_by_hash) s.device_credential_hash_by_id
        × (watched → HoldsClosed hash (map_values f s.device_credentials_by_hash))
  loop-Kept f names keeps (sound, closed) = (
    IsIndexed-map_values s.device_credentials_by_hash s.device_credential_hash_by_id f names sound,
    λ w. HoldsClosed-map_values hash s.device_credentials_by_hash (closed w) f keeps,
  )

  pub revoke_open-Kept :
      (id : String) (at : IsoDateTime)
      → Kept watched hash s
      → IsIndexed
          (map_values (revoke_open id at) s.device_credentials_by_hash)
          s.device_credential_hash_by_id
        × (watched → HoldsClosed hash (map_values (revoke_open id at) s.device_credentials_by_hash))
  revoke_open-Kept id at =
      loop-Kept (revoke_open id at) (revoke_open-KeepsNames id at) (revoke_open-KeepsClosed id at)

  pub revoke_live-Kept :
      (id : String) (at : IsoDateTime)
      → Kept watched hash s
      → IsIndexed
          (map_values (revoke_live id at) s.device_credentials_by_hash)
          s.device_credential_hash_by_id
        × (watched → HoldsClosed hash (map_values (revoke_live id at) s.device_credentials_by_hash))
  revoke_live-Kept id at =
      loop-Kept (revoke_live id at) (revoke_live-KeepsNames id at) (revoke_live-KeepsClosed id at)

  pub suspend_device-Kept :
      (organization_id actor_user_id : String) (at : IsoDateTime) (device_id : String)
      → Kept watched hash s
      → Kept watched hash (suspend_device organization_id actor_user_id at device_id s)
  unfolding suspend_device
  suspend_device-Kept organization_id actor_user_id at device_id kept =
      elim (Option-cases (get device_id s.devices)) [
        | inl gone ↦ rw (gone, suspend_device) kept
        | inr (device, found) ↦ elim (Bool-cases (str_eq device.organization_id organization_id)) [
          | inl ours ↦
              rw (found, ours, suspend_device)
                (loop-Kept (close_credential device_id at)
                  (close_credential-KeepsNames device_id at)
                  (close_credential-KeepsClosed device_id at) kept)
          | inr other ↦ rw (found, other, suspend_device) kept
        ]
      ]

  pub prepare_device-Kept :
      (o : RedeemOptions) (code : PairingCodeRecord) (existing : Option EmployeeDevice)
      → Kept watched hash s
      → Kept watched hash (prepare_device s o code existing).0
  unfolding prepare_device
  prepare_device-Kept o code none kept = kept
  prepare_device-Kept o code (some device) kept = revoke_open-Kept device.id o.at kept

  pub store_redemption-Kept :
      (o : RedeemOptions) (id : String) (code : PairingCodeRecord) (employee : Employee)
      (device : EmployeeDevice)
      → get o.bootstrap_credential.id s.device_credential_hash_by_id ≡ none
      → (watched → o.bootstrap_credential.token_hash ≢ hash)
      → Kept watched hash s
      → Kept watched hash (store_redemption s o id code employee device)
  unfolding store_redemption
  store_redemption-Kept o id code employee device new apart (sound, closed) = (
    IsIndexed-add s.device_credentials_by_hash s.device_credential_hash_by_id
        (bootstrap_of o code device) new sound,
    λ w.
        HoldsClosed-set_ne hash s.device_credentials_by_hash (closed w)
          o.bootstrap_credential.token_hash (bootstrap_of o code device) (apart w),
  )

pub suspend_devices-Kept :
    (watched : Type 0) (hash : String) (s : Repository) (organization_id actor_user_id : String)
    (at : IsoDateTime) (ids : List String)
    → Kept watched hash s
    → Kept watched hash (suspend_devices organization_id actor_user_id at ids s)
unfolding suspend_devices
suspend_devices-Kept watched hash s organization_id actor_user_id at [] kept = kept
suspend_devices-Kept watched hash s organization_id actor_user_id at (id ∷ ids) kept =
    suspend_devices-Kept watched hash (suspend_device organization_id actor_user_id at id s)
      organization_id actor_user_id at ids
      (suspend_device-Kept watched hash s organization_id actor_user_id at id kept)
