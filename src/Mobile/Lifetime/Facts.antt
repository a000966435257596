-- ===== src/Mobile/Lifetime/Facts.antt =====
-- What the checks of the operations have established when they write, and what the loops over
-- the credentials keep.
use cylizerapp.Base.{String, ◌≡◌, ap, ◌∙◌, ◌≢◌, true, none, some, arith}
use cylizerapp.Base.Dict.{get}
use cylizerapp.Base.Dict.Keys.{find-values}
use cylizerapp.Base.Outcome.{done}
use cylizerapp.Contracts.Organizations.{IsoDateTime}
use cylizerapp.Contracts.Sync.{MobilePolicy}
use cylizerapp.Domain.{StoredDeviceCredential, DeviceCredentialType, MobileDeviceContext}
use cylizerapp.Repository.{Repository}
use cylizerapp.Mobile.Credentials.{
  CurrentCredential, find_current_mobile_credential, find_current-IsCurrentFor, names_credential,
}
use cylizerapp.Mobile.Lifetime.{IsSound, HoldsClosed, is_closed}
use cylizerapp.Mobile.Lifetime.Index.{KeepsNames, KeepsClosed}
use cylizerapp.Mobile.Activation.{ActivateOptions, is_fresh_session, admit_activation}
use cylizerapp.Mobile.Rotation.{
  PrepareOptions, is_fresh_rotation, ConfirmOptions, RotationPair, is_pending_rotation,
  is_replaceable, admit_confirm, promoted,
}
use cylizerapp.Mobile.Pairing.{revoke_open}
use cylizerapp.Mobile.AdminRevocation.{revoke_live}
use cylizerapp.Mobile.Suspension.{close_credential}

-- Sound maps in which, if that is watched, the hash stands for a closed credential.
abbrev pub Kept : Type 0 → String → Repository → Type 0
Kept watched hash s = IsSound s × (watched → HoldsClosed hash s.device_credentials_by_hash)

pub not_present :
    (hash k : String) (s : Repository)
    → HoldsClosed hash s.device_credentials_by_hash
    → get k s.device_credentials_by_hash ≡ none
    → k ≢ hash
not_present hash k s (c, found, _) gone e =
    let same = ap (λ h. get h s.device_credentials_by_hash) e in cc

pub revoke_open-KeepsNames : (id : String) (at : IsoDateTime) → KeepsNames (revoke_open id at)
unfolding revoke_open
revoke_open-KeepsNames id at c = ground arith

pub revoke_open-KeepsClosed : (id : String) (at : IsoDateTime) → KeepsClosed (revoke_open id at)
unfolding revoke_open is_closed
revoke_open-KeepsClosed id at c h = ground arith

pub revoke_live-KeepsNames : (id : String) (at : IsoDateTime) → KeepsNames (revoke_live id at)
unfolding revoke_live
revoke_live-KeepsNames id at c = ground arith

pub revoke_live-KeepsClosed : (id : String) (at : IsoDateTime) → KeepsClosed (revoke_live id at)
unfolding revoke_live is_closed
revoke_live-KeepsClosed id at c h = ground arith

pub close_credential-KeepsNames :
    (id : String) (at : IsoDateTime) → KeepsNames (close_credential id at)
unfolding close_credential
close_credential-KeepsNames id at c = ground arith

pub close_credential-KeepsClosed :
    (id : String) (at : IsoDateTime) → KeepsClosed (close_credential id at)
unfolding close_credential is_closed
close_credential-KeepsClosed id at c h = ground arith

-- Where a current credential is stored.
pub current-stored :
    (s : Repository) (context : MobileDeviceContext) (type : DeviceCredentialType)
    (at : IsoDateTime) (current : CurrentCredential)
    → IsSound s
    → find_current_mobile_credential s context type at ≡ done current
    → get current.credential.token_hash s.device_credentials_by_hash ≡ some current.credential
current-stored s context type at current sound e =
    let fact = find_current-IsCurrentFor s context type at current e in
    let (k, found, _) =
      find-values (names_credential context type) s.device_credentials_by_hash
        {v = current.credential} sound.is_map fact.listed in
    ap (λ h. get h s.device_credentials_by_hash) (sound.own_hash k current.credential found) ∙ found

pub admit_activation_found :
    (s : Repository) (o : ActivateOptions) (current : CurrentCredential) (active : MobilePolicy)
    → admit_activation s o ≡ done (current, active)
    → (find_current_mobile_credential s o.context DeviceCredentialType.bootstrap o.at
        ≡ done current)
      × (is_fresh_session s o ≡ true)
unfolding admit_activation
admit_activation_found s o current active e = ground arith

pub fresh_session_new :
    (s : Repository) (o : ActivateOptions)
    → is_fresh_session s o ≡ true
    → get o.session_credential.token_hash s.device_credentials_by_hash ≡ none
unfolding is_fresh_session
fresh_session_new s o e = ground arith

pub fresh_rotation_new :
    (s : Repository) (o : PrepareOptions)
    → is_fresh_rotation s o ≡ true
    → get o.session_credential.token_hash s.device_credentials_by_hash ≡ none
unfolding is_fresh_rotation
fresh_rotation_new s o e = ground arith

pub admit_confirm_found :
    (s : Repository) (o : ConfirmOptions) (pair : RotationPair)
    → admit_confirm s o ≡ done pair
    → (get pair.pending_hash s.device_credentials_by_hash ≡ some pair.pending)
      × (get pair.old_hash s.device_credentials_by_hash ≡ some pair.old)
      × (is_pending_rotation pair.pending o ≡ true)
      × (is_replaceable pair.old ≡ true)
unfolding admit_confirm
admit_confirm_found s o pair e = ground arith

pub different_states :
    (a b : StoredDeviceCredential) (o : ConfirmOptions)
    → is_pending_rotation a o ≡ true
    → is_replaceable b ≡ true
    → a ≢ b
unfolding is_pending_rotation is_replaceable
different_states a b o p q e =
    let state = ap (λ (c : StoredDeviceCredential). c.lifecycle_state) e in ground arith

-- A rotation writes two hashes, not one twice.
pub rotation_hashes_ne :
    (s : Repository) (o : ConfirmOptions) (pair : RotationPair)
    → admit_confirm s o ≡ done pair
    → pair.pending_hash ≢ pair.old_hash
rotation_hashes_ne s o pair e same =
    let (pending, old, waiting, active) = admit_confirm_found s o pair e in
    let there = ap (λ h. get h s.device_credentials_by_hash) same in
    let equal : pair.pending ≡ pair.old = cc in
    different_states pair.pending pair.old o waiting active equal

pub promoted_closed :
    (c : StoredDeviceCredential) (o : ConfirmOptions)
    → is_pending_rotation c o ≡ true
    → is_closed c ≡ true
    → is_closed (promoted c) ≡ true
unfolding is_pending_rotation is_closed
promoted_closed c o p h = ground arith
