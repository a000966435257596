-- ===== src/Mobile/Activation.antt =====
-- `activateMobileDevice` and `reconsentMobileDevice` of apps/api/src/repository.ts.
use cylizerapp.Base.{String, Bool, false, not, ◌&&◌, none, some, str_eq}
use cylizerapp.Base.Dict.{get, has, set}
use cylizerapp.Base.Outcome.{
  Outcome, done, require, throw_if, consent_required, commit_if, once, ◌>>=◌, ◌>>◌,
}
use cylizerapp.Contracts.Organizations.{IsoDateTime}
use cylizerapp.Contracts.Employees.{DeviceStatus, EmployeeStatus, EmployeeDevice, Employee}
use cylizerapp.Contracts.Sync.{MobilePolicy, MobileActivationInput, MobileReconsentInput}
use cylizerapp.Domain.{
  DeviceCredentialType, DeviceCredentialState, NewDeviceCredential, StoredDeviceCredential,
  MobileDeviceContext, MobileCredentialOperation, MobileResponse, activated, reconsented,
  StoredMobileCredentialRequest, same_type, same_state,
}
use cylizerapp.Repository.{Repository}
use cylizerapp.Mobile.Credentials.{
  CurrentCredential, find_current_mobile_credential, credential_request_key, proposed_is,
}
use cylizerapp.Mobile.Consent.{
  in_consent_window, agreed_policy, receipt, reference_of, stored_credential, is_token_hash,
  completed_request, replay_response, is_same_request, withdraw_consent,
}

pub record ActivateOptions : Type 0 where
  pub context : MobileDeviceContext
  pub activation : MobileActivationInput
  pub session_credential : NewDeviceCredential
  pub request_fingerprint : String
  pub policy : MobilePolicy
  pub at : IsoDateTime

-- The proposed session credential is an active one for this request, under a hash not in use.
unfoldable pub is_fresh_session : Repository → ActivateOptions → Bool
is_fresh_session s o =
    same_type o.session_credential.credential_type DeviceCredentialType.session
    && same_state o.session_credential.lifecycle_state DeviceCredentialState.active
    && str_eq o.session_credential.request_id o.activation.request_id
    && is_token_hash o.session_credential.token_hash
    && not (has o.session_credential.token_hash s.device_credentials_by_hash)

unfoldable pub admit_activation :
    Repository → ActivateOptions → Outcome (CurrentCredential × MobilePolicy)
admit_activation s o = do
  current ← find_current_mobile_credential s o.context DeviceCredentialType.bootstrap o.at
  require (is_fresh_session s o)
  throw_if (not (in_consent_window o.activation.consent.accepted_at o.at))
      (consent_required "Consent must be refreshed before activation")
  active ← agreed_policy (s.mobile_policies o.context.collection_mode) o.policy o.activation.policy
  done (current, active)

abbrev pub activation_key : ActivateOptions → String
activation_key o =
    credential_request_key o.context.device_id MobileCredentialOperation.activate
      o.activation.request_id

abbrev pub consumed_bootstrap : IsoDateTime → StoredDeviceCredential → StoredDeviceCredential
consumed_bootstrap at credential = record credential {
  consumed_at = some at;
  lifecycle_state = DeviceCredentialState.consumed;
}

abbrev pub activated_device : ActivateOptions → EmployeeDevice → EmployeeDevice
activated_device o device = record device {
  status = DeviceStatus.connected;
  permissions = o.activation.permissions;
  last_seen_at = some o.at;
  updated_at = o.at;
}

abbrev activated_employee : ActivateOptions → Employee → Employee
activated_employee o employee = record employee {
  status = EmployeeStatus.active;
  updated_at = o.at;
}

abbrev pub activation_response : ActivateOptions → CurrentCredential → MobilePolicy → MobileResponse
activation_response o current active =
    activated (activated_device o current.device) o.session_credential.expires_at
      (reference_of active) false

unfoldable pub commit_activation :
    Repository → ActivateOptions → CurrentCredential × MobilePolicy → Repository × MobileResponse
commit_activation s o (current, active) = (
  record s {
    device_credentials_by_hash =
        set o.session_credential.token_hash (stored_credential o.session_credential o.context o.at)
          (set current.credential.token_hash (consumed_bootstrap o.at current.credential)
            s.device_credentials_by_hash);
    device_credential_hash_by_id =
        set o.session_credential.id o.session_credential.token_hash s.device_credential_hash_by_id;
    active_consent_by_device =
        set current.device.id
          (receipt o.context active o.activation.consent o.activation.permissions o.at)
          s.active_consent_by_device;
    devices = set o.context.device_id (activated_device o current.device) s.devices;
    employees = set o.context.employee_id (activated_employee o current.employee) s.employees;
    credential_requests =
        set (activation_key o)
          (completed_request o.context MobileCredentialOperation.activate o.activation.request_id
            o.request_fingerprint (some o.session_credential.token_hash)
            (activation_response o current active) current.credential.id o.at)
          s.credential_requests;
  },
  activation_response o current active,
)

unfoldable pub is_same_activation : StoredMobileCredentialRequest → ActivateOptions → Bool
is_same_activation prior o =
    is_same_request prior o.context o.request_fingerprint
    && proposed_is prior.proposed_token_hash o.session_credential.token_hash

unfoldable pub activate_mobile_device :
    Repository → ActivateOptions → Repository × Outcome MobileResponse
activate_mobile_device s o =
    once s (get (activation_key o) s.credential_requests)
      (λ prior.
        replay_response prior (is_same_activation prior o)
          "The request ID was already used with a different activation payload")
      (commit_if s (admit_activation s o) (commit_activation s o))

pub record ReconsentOptions : Type 0 where
  pub context : MobileDeviceContext
  pub reconsent : MobileReconsentInput
  pub request_fingerprint : String
  pub policy : MobilePolicy
  pub at : IsoDateTime

unfoldable pub admit_reconsent :
    Repository → ReconsentOptions → Outcome (CurrentCredential × MobilePolicy)
admit_reconsent s o = do
  current ← find_current_mobile_credential s o.context DeviceCredentialType.session o.at
  throw_if (not (in_consent_window o.reconsent.consent.accepted_at o.at))
      (consent_required "Consent must be refreshed before synchronization resumes")
  active ← agreed_policy (s.mobile_policies o.context.collection_mode) o.policy o.reconsent.policy
  done (current, active)

abbrev pub reconsent_key : ReconsentOptions → String
reconsent_key o =
    credential_request_key o.context.device_id MobileCredentialOperation.reconsent
      o.reconsent.request_id

abbrev reconsented_device : ReconsentOptions → EmployeeDevice → EmployeeDevice
reconsented_device o device = record device {
  permissions = o.reconsent.permissions;
  updated_at = o.at;
}

abbrev pub reconsent_response : ReconsentOptions → CurrentCredential → MobilePolicy → MobileResponse
reconsent_response o current active =
    reconsented (reconsented_device o current.device) (reference_of active)
      o.reconsent.consent.accepted_at false

unfoldable pub commit_reconsent :
    Repository → ReconsentOptions → CurrentCredential × MobilePolicy → Repository × MobileResponse
commit_reconsent s o (current, active) = (
  record s {
    active_consent_by_device =
        set o.context.device_id
          (receipt o.context active o.reconsent.consent o.reconsent.permissions o.at)
          (withdraw_consent current.device.id o.at current.consent s.active_consent_by_device);
    devices = set o.context.device_id (reconsented_device o current.device) s.devices;
    credential_requests =
        set (reconsent_key o)
          (completed_request o.context MobileCredentialOperation.reconsent o.reconsent.request_id
            o.request_fingerprint none (reconsent_response o current active) o.context.credential_id
            o.at)
          s.credential_requests;
  },
  reconsent_response o current active,
)

unfoldable pub reconsent_mobile_device :
    Repository → ReconsentOptions → Repository × Outcome MobileResponse
reconsent_mobile_device s o =
    once s (get (reconsent_key o) s.credential_requests)
      (λ prior.
        replay_response prior (is_same_request prior o.context o.request_fingerprint)
          "The request ID was already used with a different consent payload")
      (commit_if s (admit_reconsent s o) (commit_reconsent s o))
