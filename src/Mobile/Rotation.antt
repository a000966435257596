-- ===== src/Mobile/Rotation.antt =====
-- `prepareDeviceSessionRotation` and `confirmDeviceSessionRotation` of
-- apps/api/src/repository.ts: a session token is replaced in two steps.
use cylizerapp.Base.{String, Bool, false, not, ◌&&◌, some, ltb, is_some, str_eq}
use cylizerapp.Base.Dict.{get, has, set}
use cylizerapp.Base.Outcome.{
  Outcome, done, require, throw_if, consent_required, default_consent_message, lookup_or_missing,
  commit_if, once, ◌>>=◌, ◌>>◌,
}
use cylizerapp.Contracts.Organizations.{IsoDateTime}
use cylizerapp.Domain.{
  DeviceCredentialType, DeviceCredentialState, NewDeviceCredential, StoredDeviceCredential,
  MobileDeviceContext, MobileCredentialOperation, MobileResponse, rotation_prepared,
  rotation_confirmed, StoredMobileCredentialRequest, same_type, same_state,
}
use cylizerapp.Repository.{Repository}
use cylizerapp.Mobile.Credentials.{
  find_current_mobile_credential, is_consent_current, credential_request_key, proposed_is,
}
use cylizerapp.Mobile.Consent.{
  stored_credential, is_token_hash, completed_request, replay_response, is_same_request,
}

pub record PrepareOptions : Type 0 where
  pub context : MobileDeviceContext
  pub session_credential : NewDeviceCredential
  pub request_id : String
  pub request_fingerprint : String
  pub at : IsoDateTime

-- The proposed credential is pending, for this request and from this session, under a new hash.
unfoldable pub is_fresh_rotation : Repository → PrepareOptions → Bool
is_fresh_rotation s o =
    same_type o.session_credential.credential_type DeviceCredentialType.session
    && same_state o.session_credential.lifecycle_state DeviceCredentialState.pending
    && str_eq o.session_credential.request_id o.request_id
    && proposed_is o.session_credential.rotated_from_credential_id o.context.credential_id
    && is_token_hash o.session_credential.token_hash
    && not (has o.session_credential.token_hash s.device_credentials_by_hash)

unfoldable pub admit_prepare : Repository → PrepareOptions → Outcome (Unit {0})
admit_prepare s o = do
  current ← find_current_mobile_credential s o.context DeviceCredentialType.session o.at
  require (is_fresh_rotation s o)
  throw_if (not (is_consent_current s o.context.device_id))
      (consent_required default_consent_message)
  done tt

abbrev pub prepare_key : PrepareOptions → String
prepare_key o =
    credential_request_key o.context.device_id MobileCredentialOperation.rotation_prepare
      o.request_id

abbrev pub prepare_response : PrepareOptions → MobileResponse
prepare_response o = rotation_prepared o.request_id o.session_credential.expires_at o.at false

unfoldable pub commit_prepare : Repository → PrepareOptions → Unit {0} → Repository × MobileResponse
commit_prepare s o _ = (
  record s {
    device_credentials_by_hash =
        set o.session_credential.token_hash (stored_credential o.session_credential o.context o.at)
          s.device_credentials_by_hash;
    device_credential_hash_by_id =
        set o.session_credential.id o.session_credential.token_hash s.device_credential_hash_by_id;
    credential_requests =
        set (prepare_key o)
          (completed_request o.context MobileCredentialOperation.rotation_prepare o.request_id
            o.request_fingerprint (some o.session_credential.token_hash) (prepare_response o)
            o.context.credential_id o.at)
          s.credential_requests;
  },
  prepare_response o,
)

unfoldable pub is_same_prepare : StoredMobileCredentialRequest → PrepareOptions → Bool
is_same_prepare prior o =
    is_same_request prior o.context o.request_fingerprint
    && proposed_is prior.proposed_token_hash o.session_credential.token_hash

unfoldable pub prepare_device_session_rotation :
    Repository → PrepareOptions → Repository × Outcome MobileResponse
prepare_device_session_rotation s o =
    once s (get (prepare_key o) s.credential_requests)
      (λ prior.
        replay_response prior (is_same_prepare prior o)
          "The request ID was already used with a different rotation payload")
      (commit_if s (admit_prepare s o) (commit_prepare s o))

pub record ConfirmOptions : Type 0 where
  pub context : MobileDeviceContext
  pub request_id : String
  pub prepare_request_id : String
  pub request_fingerprint : String
  pub at : IsoDateTime

-- The two credentials of a rotation, each with the hash that it is stored under.
pub record RotationPair : Type 0 where
  pub pending_hash : String
  pub pending : StoredDeviceCredential
  pub old_hash : String
  pub old : StoredDeviceCredential

unfoldable pub is_pending_rotation : StoredDeviceCredential → ConfirmOptions → Bool
is_pending_rotation pending o =
    same_state pending.lifecycle_state DeviceCredentialState.pending
    && str_eq pending.request_id o.prepare_request_id
    && ltb o.at pending.expires_at

unfoldable pub is_replaceable : StoredDeviceCredential → Bool
is_replaceable old =
    same_state old.lifecycle_state DeviceCredentialState.active && not (is_some old.revoked_at)

unfoldable pub admit_confirm : Repository → ConfirmOptions → Outcome RotationPair
admit_confirm s o = do
  pending_hash ← lookup_or_missing (get o.context.credential_id s.device_credential_hash_by_id)
  pending ← lookup_or_missing (get pending_hash s.device_credentials_by_hash)
  require (is_pending_rotation pending o)
  rotated_from ← lookup_or_missing pending.rotated_from_credential_id
  prepare ← lookup_or_missing (
      get
        (credential_request_key o.context.device_id MobileCredentialOperation.rotation_prepare
          o.prepare_request_id)
        s.credential_requests)
  old_hash ← lookup_or_missing (get rotated_from s.device_credential_hash_by_id)
  require (proposed_is prepare.proposed_token_hash pending_hash)
  old ← lookup_or_missing (get old_hash s.device_credentials_by_hash)
  require (is_replaceable old)
  done (record { pending_hash = pending_hash; pending = pending; old_hash = old_hash; old = old })

abbrev pub confirm_key : ConfirmOptions → String
confirm_key o =
    credential_request_key o.context.device_id MobileCredentialOperation.rotation_confirm
      o.request_id

abbrev pub confirm_response : ConfirmOptions → RotationPair → MobileResponse
confirm_response o pair = rotation_confirmed o.request_id pair.pending.expires_at o.at false

abbrev pub promoted : StoredDeviceCredential → StoredDeviceCredential
promoted credential = record credential { lifecycle_state = DeviceCredentialState.active }

abbrev pub replaced : IsoDateTime → StoredDeviceCredential → StoredDeviceCredential
replaced at credential = record credential {
  lifecycle_state = DeviceCredentialState.revoked;
  revoked_at = some at;
}

unfoldable pub commit_confirm :
    Repository → ConfirmOptions → RotationPair → Repository × MobileResponse
commit_confirm s o pair = (
  record s {
    device_credentials_by_hash =
        set pair.old_hash (replaced o.at pair.old)
          (set pair.pending_hash (promoted pair.pending) s.device_credentials_by_hash);
    credential_requests =
        set (confirm_key o)
          (completed_request o.context MobileCredentialOperation.rotation_confirm o.request_id
            o.request_fingerprint (some pair.pending_hash) (confirm_response o pair) pair.pending.id
            o.at)
          s.credential_requests;
  },
  confirm_response o pair,
)

unfoldable pub confirm_device_session_rotation :
    Repository → ConfirmOptions → Repository × Outcome MobileResponse
confirm_device_session_rotation s o =
    once s (get (confirm_key o) s.credential_requests)
      (λ prior.
        replay_response prior (is_same_request prior o.context o.request_fingerprint)
          "The request ID was already used with a different rotation confirmation")
      (commit_if s (admit_confirm s o) (commit_confirm s o))
