-- ===== src/Mobile/Revocation.antt =====
-- `revokeMobileSession` of apps/api/src/repository.ts: a device ends its own session.
use cylizerapp.Base.{String, false, none, some}
use cylizerapp.Base.Dict.{get, set, map_values}
use cylizerapp.Base.Outcome.{Outcome, done, lookup_or_missing, commit_if, once, ◌>>=◌}
use cylizerapp.Contracts.Organizations.{IsoDateTime}
use cylizerapp.Contracts.Employees.{EmployeeDevice, DeviceStatus}
use cylizerapp.Domain.{
  DeviceCredentialType, StoredConsentReceipt, MobileDeviceContext, MobileCredentialOperation,
  MobileResponse, session_revoked,
}
use cylizerapp.Repository.{Repository}
use cylizerapp.Mobile.Credentials.{
  CurrentCredential, find_current_mobile_credential, credential_request_key,
}
use cylizerapp.Mobile.Consent.{completed_request, replay_response, is_same_request}
use cylizerapp.Mobile.Pairing.{revoke_open}

pub record RevokeOptions : Type 0 where
  pub context : MobileDeviceContext
  pub request_id : String
  pub request_fingerprint : String
  pub at : IsoDateTime

unfoldable pub admit_revoke :
    Repository → RevokeOptions → Outcome (CurrentCredential × StoredConsentReceipt)
admit_revoke s o = do
  current ← find_current_mobile_credential s o.context DeviceCredentialType.session o.at
  consent ← lookup_or_missing current.consent
  done (current, consent)

abbrev pub revoke_key : RevokeOptions → String
revoke_key o =
    credential_request_key o.context.device_id MobileCredentialOperation.revoke o.request_id

abbrev pub revoked_device : IsoDateTime → EmployeeDevice → EmployeeDevice
revoked_device at device = record device {
  status = DeviceStatus.revoked;
  revoked_at = some at;
  updated_at = at;
}

unfoldable pub commit_revoke :
    Repository
    → RevokeOptions
    → CurrentCredential × StoredConsentReceipt
    → Repository × MobileResponse
commit_revoke s o (current, consent) =
    let response = session_revoked current.device.id o.at o.at false in
    (
      record s {
        device_credentials_by_hash =
            map_values (revoke_open current.device.id o.at) s.device_credentials_by_hash;
        active_consent_by_device =
            set current.device.id (record consent { withdrawn_at = some o.at })
              s.active_consent_by_device;
        devices = set o.context.device_id (revoked_device o.at current.device) s.devices;
        credential_requests =
            set (revoke_key o)
              (completed_request o.context MobileCredentialOperation.revoke o.request_id
                o.request_fingerprint none response o.context.credential_id o.at)
              s.credential_requests;
      },
      response,
    )

unfoldable pub revoke_mobile_session :
    Repository → RevokeOptions → Repository × Outcome MobileResponse
revoke_mobile_session s o =
    once s (get (revoke_key o) s.credential_requests)
      (λ prior.
        replay_response prior (is_same_request prior o.context o.request_fingerprint)
          "The request ID was already used with a different revocation payload")
      (commit_if s (admit_revoke s o) (commit_revoke s o))
