-- ===== src/Mobile/Scenario.antt =====
-- Test data for the mobile operations: one employee pairs a telephone, activates it, and replaces
-- its session token once.
use cylizerapp.Base.{String, true, false, Option, none, some, [], ◌∷◌}
use cylizerapp.Base.Outcome.{Outcome, done}
use cylizerapp.Contracts.Organizations.{
  Organization, OrganizationPlan, OrganizationStatus, UserStatus,
}
use cylizerapp.Contracts.Employees.{
  EmployeeStatus, Employee, DevicePermissions, DevicePermissionState, MobilePlatform,
}
use cylizerapp.Contracts.Sync.{MobileCollectionMode, MobilePolicy}
use cylizerapp.Domain.{
  DeviceCredentialType, DeviceCredentialState, NewDeviceCredential, MobileDeviceContext,
  PairingCodeRecord, MobileResponse, session_revoked,
}
use cylizerapp.Repository.{Repository}
use cylizerapp.Mobile.PairingCheck.{RedeemOptions}
use cylizerapp.Mobile.Pairing.{redeem_pairing_code}
use cylizerapp.Mobile.Activation.{ActivateOptions, ReconsentOptions, activate_mobile_device}
use cylizerapp.Mobile.Rotation.{PrepareOptions, ConfirmOptions, prepare_device_session_rotation}
use cylizerapp.Mobile.Revocation.{RevokeOptions}
use cylizerapp.Mobile.AdminRevocation.{AdminRevokeOptions}

abbrev pub permissions : DevicePermissions
permissions = record {
  call_log = DevicePermissionState.granted;
  phone_state = DevicePermissionState.granted;
  contacts = DevicePermissionState.denied;
  notifications = DevicePermissionState.granted;
  recording_files = DevicePermissionState.denied;
  background_execution = DevicePermissionState.granted;
}

abbrev pub policy : MobilePolicy
policy = record {
  id = "policy_1";
  content_hash = "c0ffee";
  policy_version = "1";
  disclosure_version = "1";
  collection_mode = MobileCollectionMode.synthetic_demo;
  title = "Calls";
  summary = "Call metadata";
  disclosures = [];
  effective_at = 0;
}

abbrev acme : Organization
acme = record {
  id = "org_1";
  name = "Acme";
  slug = "acme";
  status = OrganizationStatus.trial;
  plan = OrganizationPlan.trial;
  industry = none;
  logo_url = none;
  support_email = none;
  primary_phone = none;
  billing_address = none;
  settings = record {
    time_zone = "Asia/Kolkata";
    default_country_code = "IN";
    working_week_days = 1 ∷ 2 ∷ 3 ∷ 4 ∷ 5 ∷ [];
    working_day_starts_at = "09:00";
    working_day_ends_at = "18:00";
    recording_retention_days = 90;
    call_log_retention_days = 365;
    require_recording_consent = true;
    mask_phone_numbers_for_restricted_users = false;
  };
  trial_ends_at = none;
  created_at = 0;
  updated_at = 0;
  created_by = none;
  updated_by = none;
}

abbrev pub asha : Employee
asha = record {
  id = "emp_1";
  organization_id = "org_1";
  linked_user_id = none;
  employee_code = none;
  display_name = "Asha";
  email = none;
  primary_phone = none;
  job_title = none;
  team = some "North";
  status = EmployeeStatus.invited;
  manager_employee_id = none;
  working_hours = none;
  device_ids = [];
  created_at = 0;
  updated_at = 0;
  created_by = none;
  updated_by = none;
}

abbrev pub code : PairingCodeRecord
code = record {
  id = "code_1";
  code_hash = "code_hash";
  code_last_four = "0001";
  organization_id = "org_1";
  employee_id = "emp_1";
  created_at = 0;
  expires_at = 2_000;
  created_by_user_id = "user_1";
  collection_mode = MobileCollectionMode.synthetic_demo;
  consumed_at = none;
  revoked_at = none;
}

abbrev policies : MobileCollectionMode → Option MobilePolicy
policies MobileCollectionMode.synthetic_demo = some policy
policies MobileCollectionMode.android_call_log = none

-- An organization with one employee and one pairing code.
abbrev pub enrolling : Repository
enrolling = record {
  id_value = 7;
  organizations = ("org_1", acme) ∷ [];
  users =
      (
        "user_1",
        record {
          id = "user_1";
          organization_id = "org_1";
          email = "a@acme.in";
          display_name = "Admin";
          status = UserStatus.active;
          phone_number = none;
          avatar_url = none;
          role_ids = [];
          last_signed_in_at = none;
          created_at = 0;
          updated_at = 0;
          created_by = none;
          updated_by = none;
        },
      )
      ∷ [];
  employees = ("emp_1", asha) ∷ [];
  lead_statuses = [];
  leads = [];
  lead_teams = [];
  lead_notes = [];
  lead_follow_ups = [];
  lead_activities = [];
  lead_id_by_call_id = [];
  lead_assignment_rules = [];
  lead_assignment_rule_teams = [];
  lead_assignment_rule_cursors = [];
  lead_assignment_apply_requests = [];
  call_lead_correction_requests = [];
  mobile_lead_update_requests = [];
  devices = [];
  devices_by_installation = [];
  pairing_codes_by_id = ("code_1", code) ∷ [];
  pairing_code_id_by_hash = ("code_hash", "code_1") ∷ [];
  calls = [];
  call_id_by_external_id = [];
  call_fingerprint_by_external_id = [];
  idempotency = [];
  mobile_batches = [];
  device_credentials_by_hash = [];
  device_credential_hash_by_id = [];
  active_consent_by_device = [];
  credential_requests = [];
  pairing_redemptions = [];
  admin_device_revocations = [];
  admin_recovery_outbox_events = [];
  device_collection_modes = [];
  mobile_policies = policies;
  audits = ("org_1", []) ∷ [];
}

abbrev credential :
    String
    → String
    → DeviceCredentialType
    → Option String
    → String
    → DeviceCredentialState
    → NewDeviceCredential
credential id hash type from request state = record {
  id = id;
  token_hash = hash;
  expires_at = 5_000_000;
  credential_type = type;
  rotated_from_credential_id = from;
  request_id = request;
  lifecycle_state = state;
}

abbrev pub hash_1 : String
hash_1 = "1111111111111111111111111111111111111111111111111111111111111111"

abbrev pub hash_2 : String
hash_2 = "2222222222222222222222222222222222222222222222222222222222222222"

abbrev pub hash_3 : String
hash_3 = "3333333333333333333333333333333333333333333333333333333333333333"

abbrev pub pairing : RedeemOptions
pairing = record {
  code_hash = "code_hash";
  registration = record {
    installation_id = "install_1";
    platform = MobilePlatform.android;
    manufacturer = none;
    model = none;
    os_version = "14";
    app_version = "1.0";
    collection_mode = MobileCollectionMode.synthetic_demo;
    permissions = permissions;
  };
  bootstrap_credential =
      credential "cred_1" hash_1 DeviceCredentialType.bootstrap none "pair_1"
        DeviceCredentialState.active;
  request_id = "pair_1";
  request_fingerprint = "fp_pair";
  at = 1_000;
}

-- The telephone is paired and not activated.
abbrev pub paired : Repository
paired = (redeem_pairing_code enrolling pairing).0

abbrev context : String → DeviceCredentialType → DeviceCredentialState → MobileDeviceContext
context id type state = record {
  credential_id = id;
  credential_type = type;
  organization_id = "org_1";
  employee_id = "emp_1";
  device_id = "device_000008";
  installation_id = "install_1";
  collection_mode = MobileCollectionMode.synthetic_demo;
  permissions = permissions;
  credential_state = state;
  consent_current = false;
  authenticated_replay = false;
}

abbrev pub activation : ActivateOptions
activation = record {
  context = context "cred_1" DeviceCredentialType.bootstrap DeviceCredentialState.active;
  activation = record {
    request_id = "act_1";
    proposed_session_credential = "token";
    policy = record { id = "policy_1"; content_hash = "c0ffee" };
    consent = record { accepted_at = 2_500; locale = none };
    permissions = permissions;
  };
  session_credential =
      credential "cred_2" hash_2 DeviceCredentialType.session none "act_1"
        DeviceCredentialState.active;
  request_fingerprint = "fp_act";
  policy = policy;
  at = 3_000;
}

-- The telephone is active under its first session token.
abbrev pub active : Repository
active = (activate_mobile_device paired activation).0

abbrev pub session : MobileDeviceContext
session = context "cred_2" DeviceCredentialType.session DeviceCredentialState.active

abbrev pub reconsent : ReconsentOptions
reconsent = record {
  context = session;
  reconsent = record {
    request_id = "con_1";
    policy = record { id = "policy_1"; content_hash = "c0ffee" };
    consent = record { accepted_at = 3_500; locale = none };
    permissions = permissions;
  };
  request_fingerprint = "fp_con";
  policy = policy;
  at = 4_000;
}

abbrev pub preparation : PrepareOptions
preparation = record {
  context = session;
  session_credential =
      credential "cred_3" hash_3 DeviceCredentialType.session (some "cred_2") "rot_1"
        DeviceCredentialState.pending;
  request_id = "rot_1";
  request_fingerprint = "fp_rot";
  at = 4_000;
}

-- A second token is pending.
abbrev pub rotating : Repository
rotating = (prepare_device_session_rotation active preparation).0

abbrev pub confirmation : ConfirmOptions
confirmation = record {
  context = context "cred_3" DeviceCredentialType.session DeviceCredentialState.pending;
  request_id = "rot_2";
  prepare_request_id = "rot_1";
  request_fingerprint = "fp_con";
  at = 5_000;
}

abbrev pub revocation : RevokeOptions
revocation = record {
  context = session;
  request_id = "rev_1";
  request_fingerprint = "fp_rev";
  at = 5_000;
}

abbrev pub admin_revocation : AdminRevokeOptions
admin_revocation = record {
  organization_id = "org_1";
  device_id = "device_000008";
  actor_user_id = "user_1";
  request_id = "adm_1";
  request_fingerprint = "fp_adm";
  reason = "lost";
  audit_event_id = "audit_1";
  outbox_event_id = "outbox_1";
  at = 5_000;
}

-- The answer of a call that succeeds.
abbrev pub answer : Outcome MobileResponse → MobileResponse
answer (done response) = response
answer _ = session_revoked "" 0 0 false
