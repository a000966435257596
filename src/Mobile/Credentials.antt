-- ===== src/Mobile/Credentials.antt =====
-- Which bearer token stands for which device: `findCurrentMobileCredential`, `isConsentCurrent`,
-- `contextForCredential` and the three `resolve…` methods of apps/api/src/repository.ts.
use cylizerapp.Base.{
  String, ◌≡◌, refl, ap, eq_iff, Bool, true, false, not, ◌&&◌, Option, none, some, ltb, leb,
  is_some, str_eq, find, find_holds, arith,
}
use cylizerapp.Base.Dict.{get, values}
use cylizerapp.Base.Text.{key3}
use cylizerapp.Base.Outcome.{Outcome, done, require, lookup_or_missing, ◌>>=◌, ◌>>◌}
use cylizerapp.Contracts.Organizations.{IsoDateTime, Organization, is_operating}
use cylizerapp.Contracts.Employees.{
  Employee, EmployeeDevice, is_active_employee, is_enrollable, is_pending_device, is_connected,
}
use cylizerapp.Contracts.Sync.{MobileCollectionMode, MobilePolicy, same_mode}
use cylizerapp.Domain.{
  DeviceCredentialType, DeviceCredentialState, StoredDeviceCredential, StoredConsentReceipt,
  MobileDeviceContext, MobileCredentialOperation, operation_text, same_type, same_state,
}
use cylizerapp.Repository.{Repository}

pub record CurrentCredential : Type 0 where
  pub credential : StoredDeviceCredential
  pub device : EmployeeDevice
  pub employee : Employee
  pub consent : Option StoredConsentReceipt

-- `candidate` is the credential that the context names.
unfoldable pub names_credential :
    MobileDeviceContext → DeviceCredentialType → StoredDeviceCredential → Bool
names_credential context type candidate =
    str_eq candidate.id context.credential_id
    && same_type candidate.credential_type type
    && str_eq candidate.organization_id context.organization_id
    && str_eq candidate.employee_id context.employee_id
    && str_eq candidate.device_id context.device_id

-- Active, neither revoked nor consumed, and not expired at `at`.
unfoldable pub is_usable : StoredDeviceCredential → IsoDateTime → Bool
is_usable credential at =
    same_state credential.lifecycle_state DeviceCredentialState.active
    && not (is_some credential.revoked_at)
    && not (is_some credential.consumed_at)
    && ltb at credential.expires_at

-- `deviceCollectionModes.get(device.id) === mode`.
abbrev pub mode_is : Option MobileCollectionMode → MobileCollectionMode → Bool
mode_is none mode = false
mode_is (some found) mode = same_mode found mode

abbrev not_withdrawn : Option StoredConsentReceipt → Bool
not_withdrawn none = false
not_withdrawn (some consent) = not (is_some consent.withdrawn_at)

-- The state that device, employee and consent must be in for a credential of each type.
unfoldable pub stands_for :
    DeviceCredentialType → EmployeeDevice → Employee → Option StoredConsentReceipt → Bool
stands_for DeviceCredentialType.bootstrap device employee consent =
    is_pending_device device.status && is_enrollable employee.status && not (is_some consent)
stands_for DeviceCredentialType.session device employee consent =
    is_connected device.status && is_active_employee employee.status && not_withdrawn consent

-- Organization, employee and device belong together and to the context.
unfoldable pub is_registered :
    Repository → MobileDeviceContext → Organization → Employee → EmployeeDevice → Bool
is_registered s context organization employee device =
    is_operating organization.status
    && str_eq employee.organization_id context.organization_id
    && str_eq device.organization_id context.organization_id
    && str_eq device.employee_id context.employee_id
    && str_eq device.installation_id context.installation_id
    && mode_is (get device.id s.device_collection_modes) context.collection_mode

unfoldable pub find_current_mobile_credential :
    Repository
    → MobileDeviceContext
    → DeviceCredentialType
    → IsoDateTime
    → Outcome CurrentCredential
find_current_mobile_credential s context type at = do
  require (same_type context.credential_type type)
  credential ←
      lookup_or_missing (find (names_credential context type) (values s.device_credentials_by_hash))
  require (is_usable credential at)
  organization ← lookup_or_missing (get context.organization_id s.organizations)
  employee ← lookup_or_missing (get context.employee_id s.employees)
  device ← lookup_or_missing (get context.device_id s.devices)
  require (is_registered s context organization employee device)
  require (stands_for type device employee (get device.id s.active_consent_by_device))
  done (record {
    credential = credential;
    device = device;
    employee = employee;
    consent = get device.id s.active_consent_by_device;
  })

abbrev policy_of : Option MobileCollectionMode → Repository → Option MobilePolicy
policy_of none s = none
policy_of (some mode) s = s.mobile_policies mode

abbrev agrees : Option StoredConsentReceipt → Option MobilePolicy → Bool
agrees (some consent) (some policy) =
    not (is_some consent.withdrawn_at)
    && str_eq consent.policy_id policy.id
    && str_eq consent.policy_content_hash policy.content_hash
agrees _ _ = false

-- The device's consent is not withdrawn and is for the policy now in force.
unfoldable pub is_consent_current : Repository → String → Bool
is_consent_current s device_id =
    agrees (get device_id s.active_consent_by_device)
      (policy_of (get device_id s.device_collection_modes) s)

abbrev pub credential_request_key : String → MobileCredentialOperation → String → String
credential_request_key device_id operation request_id =
    key3 device_id (operation_text operation) request_id

unfoldable pub context_for_credential :
    Repository → StoredDeviceCredential → Outcome MobileDeviceContext
context_for_credential s credential = do
  device ← lookup_or_missing (get credential.device_id s.devices)
  mode ← lookup_or_missing (get credential.device_id s.device_collection_modes)
  done (record {
    credential_id = credential.id;
    credential_type = credential.credential_type;
    organization_id = credential.organization_id;
    employee_id = credential.employee_id;
    device_id = credential.device_id;
    installation_id = device.installation_id;
    collection_mode = mode;
    permissions = device.permissions;
    credential_state = credential.lifecycle_state;
    consent_current = is_consent_current s device.id;
    authenticated_replay = false;
  })

-- Who a bearer token speaks for now; `missing` denies it.
unfoldable pub resolve_device_credential :
    Repository → String → DeviceCredentialType → IsoDateTime → Outcome MobileDeviceContext
resolve_device_credential s token_hash type at = do
  credential ← lookup_or_missing (get token_hash s.device_credentials_by_hash)
  require (same_type credential.credential_type type)
  context ← context_for_credential s credential
  current ← find_current_mobile_credential s context type at
  done context

abbrev expected_state : MobileCredentialOperation → DeviceCredentialState
expected_state MobileCredentialOperation.activate = DeviceCredentialState.consumed
expected_state MobileCredentialOperation.revoke = DeviceCredentialState.revoked
expected_state _ = DeviceCredentialState.active

-- The token of a request that was completed before, to answer its repetition.
unfoldable pub resolve_device_credential_replay :
    Repository
    → String
    → DeviceCredentialType
    → MobileCredentialOperation
    → String
    → String
    → Outcome MobileDeviceContext
resolve_device_credential_replay s token_hash type operation request_id request_fingerprint = do
  credential ← lookup_or_missing (get token_hash s.device_credentials_by_hash)
  require (same_type credential.credential_type type)
  require (same_state credential.lifecycle_state (expected_state operation))
  request ←
      lookup_or_missing (
        get (credential_request_key credential.device_id operation request_id)
          s.credential_requests)
  require (
      str_eq request.credential_id credential.id
      && str_eq request.request_fingerprint request_fingerprint)
  context ← context_for_credential s credential
  done (record context { authenticated_replay = true })

-- `request.proposedTokenHash === hash`.
abbrev pub proposed_is : Option String → String → Bool
proposed_is none hash = false
proposed_is (some proposed) hash = str_eq proposed hash

unfoldable pub resolve_pending_rotation_credential :
    Repository → String → String → IsoDateTime → Outcome MobileDeviceContext
resolve_pending_rotation_credential s token_hash prepare_request_id at = do
  credential ← lookup_or_missing (get token_hash s.device_credentials_by_hash)
  require (
      same_type credential.credential_type DeviceCredentialType.session
      && same_state credential.lifecycle_state DeviceCredentialState.pending
      && str_eq credential.request_id prepare_request_id
      && ltb at credential.expires_at)
  request ← lookup_or_missing (
      get
        (credential_request_key credential.device_id MobileCredentialOperation.rotation_prepare
          prepare_request_id)
        s.credential_requests)
  require (proposed_is request.proposed_token_hash token_hash)
  context_for_credential s credential

-- The policy in force for the device's collection mode.
unfoldable pub find_current_mobile_policy :
    Repository → MobileDeviceContext → IsoDateTime → Outcome MobilePolicy
find_current_mobile_policy s context at = do
  policy ← lookup_or_missing (s.mobile_policies context.collection_mode)
  require (leb policy.effective_at at)
  done policy

-- What a current credential is known to satisfy.
pub record IsCurrentFor (s : Repository) (context : MobileDeviceContext)
    (type : DeviceCredentialType) (at : IsoDateTime) (current : CurrentCredential) : Type 0 where
  pub listed :
      find (names_credential context type) (values s.device_credentials_by_hash)
      ≡ some current.credential
  pub usable : is_usable current.credential at ≡ true
  pub device_found : get context.device_id s.devices ≡ some current.device
  pub employee_found : get context.employee_id s.employees ≡ some current.employee
  pub consent_found : get current.device.id s.active_consent_by_device ≡ current.consent
  pub fit : stands_for type current.device current.employee current.consent ≡ true

pub find_current-IsCurrentFor :
    (s : Repository) (context : MobileDeviceContext) (type : DeviceCredentialType)
    (at : IsoDateTime) (current : CurrentCredential)
    → find_current_mobile_credential s context type at ≡ done current
    → IsCurrentFor s context type at current
unfolding find_current_mobile_credential
find_current-IsCurrentFor s context type at current e = ground arith

-- A current credential has the id that the context names.
pub current-named :
    (s : Repository) (context : MobileDeviceContext) (type : DeviceCredentialType)
    (at : IsoDateTime) (current : CurrentCredential)
    → find_current_mobile_credential s context type at ≡ done current
    → str_eq current.credential.id context.credential_id ≡ true
unfolding names_credential
current-named s context type at current e =
    let fact = find_current-IsCurrentFor s context type at current e in
    let named =
      find_holds (names_credential context type) (values s.device_credentials_by_hash)
        {a = current.credential} fact.listed in
    ground arith

same_mode-eq : (a b : MobileCollectionMode) → same_mode a b ≡ true → a ≡ b
same_mode-eq MobileCollectionMode.android_call_log MobileCollectionMode.android_call_log e = refl
same_mode-eq MobileCollectionMode.synthetic_demo MobileCollectionMode.synthetic_demo e = refl
same_mode-eq MobileCollectionMode.android_call_log MobileCollectionMode.synthetic_demo e = cc
same_mode-eq MobileCollectionMode.synthetic_demo MobileCollectionMode.android_call_log e = cc

mode_is-eq :
    (found : Option MobileCollectionMode) (mode : MobileCollectionMode)
    → mode_is found mode ≡ true
    → found ≡ some mode
mode_is-eq none mode e = cc
mode_is-eq (some m) mode e = ap some (same_mode-eq m mode e)

current-mode_is :
    (s : Repository) (context : MobileDeviceContext) (type : DeviceCredentialType)
    (at : IsoDateTime) (current : CurrentCredential)
    → find_current_mobile_credential s context type at ≡ done current
    → mode_is (get current.device.id s.device_collection_modes) context.collection_mode ≡ true
unfolding find_current_mobile_credential is_registered
current-mode_is s context type at current e = ground arith

-- Its device collects in the mode that the context names.
pub current-mode :
    (s : Repository) (context : MobileDeviceContext) (type : DeviceCredentialType)
    (at : IsoDateTime) (current : CurrentCredential)
    → find_current_mobile_credential s context type at ≡ done current
    → get current.device.id s.device_collection_modes ≡ some context.collection_mode
current-mode s context type at current e =
    mode_is-eq _ context.collection_mode (current-mode_is s context type at current e)

-- A receipt that was not withdrawn, for the policy in force in the device's mode, is current.
pub is_consent_current_of :
    (s : Repository) (device_id : String) (mode : MobileCollectionMode)
    (consent : StoredConsentReceipt) (policy : MobilePolicy)
    → get device_id s.active_consent_by_device ≡ some consent
    → get device_id s.device_collection_modes ≡ some mode
    → s.mobile_policies mode ≡ some policy
    → consent.withdrawn_at ≡ none
    → consent.policy_id ≡ policy.id
    → consent.policy_content_hash ≡ policy.content_hash
    → is_consent_current s device_id ≡ true
unfolding is_consent_current
is_consent_current_of s device_id mode consent policy c m p w i h = ground (
  arith,
  eq_iff consent.policy_id policy.id,
  eq_iff consent.policy_content_hash policy.content_hash,
)
