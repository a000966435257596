-- ===== src/Mobile/Consent.antt =====
-- Consent in apps/api/src/repository.ts: the acceptance window, the policy that has to be in force,
-- the stored receipt, and the request record that answers a repeated request.
use cylizerapp.Base.{
  ℕ, ◌+◌, String, Bool, false, not, ◌&&◌, Option, none, some, leb, is_some, str_eq, if◌then◌else◌,
}
use cylizerapp.Base.Dict.{Dict, set}
use cylizerapp.Base.Text.{is_sha256_hex}
use cylizerapp.Base.Outcome.{
  Outcome, done, throws, conflict, consent_required, default_consent_message,
}
use cylizerapp.Contracts.Organizations.{IsoDateTime}
use cylizerapp.Contracts.Employees.{DevicePermissions}
use cylizerapp.Contracts.Sync.{MobilePolicy, MobilePolicyReference, MobileConsentReceiptInput}
use cylizerapp.Domain.{
  NewDeviceCredential, StoredDeviceCredential, StoredConsentReceipt, MobileDeviceContext,
  MobileCredentialOperation, MobileResponse, as_replayed, StoredMobileCredentialRequest,
}

-- Five minutes ahead and fifteen minutes back, in milliseconds.
abbrev pub consent_lead : ℕ
consent_lead = 300_000

abbrev pub consent_age : ℕ
consent_age = 900_000

unfoldable pub in_consent_window : IsoDateTime → IsoDateTime → Bool
in_consent_window accepted_at recorded_at =
    leb accepted_at (recorded_at + consent_lead) && leb recorded_at (accepted_at + consent_age)

abbrev is_policy : MobilePolicy → MobilePolicy → MobilePolicyReference → Bool
is_policy active policy reference =
    str_eq active.id policy.id
    && str_eq active.content_hash policy.content_hash
    && str_eq reference.id active.id
    && str_eq reference.content_hash active.content_hash

-- The policy in force, if the server's and the client's policies are both that one.
unfoldable pub agreed_policy :
    Option MobilePolicy → MobilePolicy → MobilePolicyReference → Outcome MobilePolicy
agreed_policy none policy reference = throws (consent_required default_consent_message)
agreed_policy (some active) policy reference =
    if is_policy active policy reference
    then done active
    else throws (consent_required default_consent_message)

abbrev pub receipt :
    MobileDeviceContext
    → MobilePolicy
    → MobileConsentReceiptInput
    → DevicePermissions
    → IsoDateTime
    → StoredConsentReceipt
receipt context active consent permissions at = record {
  organization_id = context.organization_id;
  employee_id = context.employee_id;
  device_id = context.device_id;
  policy_id = active.id;
  policy_content_hash = active.content_hash;
  policy_version = active.policy_version;
  disclosure_version = active.disclosure_version;
  permissions = permissions;
  accepted_at = consent.accepted_at;
  recorded_at = at;
  locale = consent.locale;
  withdrawn_at = none;
}

abbrev pub reference_of : MobilePolicy → MobilePolicyReference
reference_of policy = record { id = policy.id; content_hash = policy.content_hash }

-- A credential of the caller as it is stored for the context's device.
abbrev pub stored_credential :
    NewDeviceCredential → MobileDeviceContext → IsoDateTime → StoredDeviceCredential
stored_credential credential context at = record {
  id = credential.id;
  token_hash = credential.token_hash;
  expires_at = credential.expires_at;
  credential_type = credential.credential_type;
  rotated_from_credential_id = credential.rotated_from_credential_id;
  request_id = credential.request_id;
  lifecycle_state = credential.lifecycle_state;
  organization_id = context.organization_id;
  employee_id = context.employee_id;
  device_id = context.device_id;
  created_at = at;
  consumed_at = none;
  revoked_at = none;
}

-- `/^[0-9a-f]{64}$/.test(tokenHash)`.
abbrev pub is_token_hash : String → Bool
is_token_hash hash = is_sha256_hex hash

unfoldable pub completed_request :
    MobileDeviceContext
    → MobileCredentialOperation
    → String
    → String
    → Option String
    → MobileResponse
    → String
    → IsoDateTime
    → StoredMobileCredentialRequest
completed_request context operation request_id fingerprint proposed response credential_id at =
    record {
      request_id = request_id;
      organization_id = context.organization_id;
      employee_id = context.employee_id;
      device_id = context.device_id;
      credential_id = credential_id;
      operation = operation;
      request_fingerprint = fingerprint;
      proposed_token_hash = proposed;
      response = response;
      completed_at = at;
    }

-- The stored answer marked as a replay, or a conflict if the request is not the same one.
unfoldable pub replay_response :
    StoredMobileCredentialRequest → Bool → String → Outcome MobileResponse
replay_response prior same message =
    if same then done (as_replayed prior.response) else throws (conflict message)

-- The request came from this credential with this payload.
unfoldable pub is_same_request : StoredMobileCredentialRequest → MobileDeviceContext → String → Bool
is_same_request prior context fingerprint =
    str_eq prior.credential_id context.credential_id && str_eq prior.request_fingerprint fingerprint

abbrev pub is_open_consent : Option StoredConsentReceipt → Bool
is_open_consent none = false
is_open_consent (some consent) = not (is_some consent.withdrawn_at)

-- `if (consent && !consent.withdrawnAt) consent.withdrawnAt = at` for the active receipt of a
-- device.
unfoldable pub withdraw_consent :
    String
    → IsoDateTime
    → Option StoredConsentReceipt
    → Dict StoredConsentReceipt
    → Dict StoredConsentReceipt
withdraw_consent device_id at none receipts = receipts
withdraw_consent device_id at (some consent) receipts =
    if is_some consent.withdrawn_at
    then receipts
    else set device_id (record consent { withdrawn_at = some at }) receipts
