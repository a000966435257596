-- ===== src/Mobile/Pairing.antt =====
-- `redeemPairingCode` of apps/api/src/repository.ts, which attaches an installation to an employee.
use cylizerapp.Base.{
  String, Bool, true, false, not, ◌&&◌, Option, none, some, [], ◌∷◌, ◌++◌, is_some, str_eq, any,
  if◌then◌else◌,
}
use cylizerapp.Base.Dict.{get, set, remove, map_values}
use cylizerapp.Base.Outcome.{Outcome, done, throws, conflict, once}
use cylizerapp.Contracts.Organizations.{IsoDateTime}
use cylizerapp.Contracts.Employees.{Employee, EmployeeDevice, DeviceStatus, DeviceSyncState}
use cylizerapp.Domain.{
  PairingCodeRecord, StoredDeviceCredential, DeviceCredentialState, PairingOutcome,
  PairingRedemptionResult, StoredPairingRedemption,
}
use cylizerapp.Repository.{Repository, next_id, tick_id}
use cylizerapp.Mobile.PairingCheck.{
  RedeemOptions, Examination, refuse, accept, installation_key, examine,
}

abbrev new_device : Repository → RedeemOptions → PairingCodeRecord → EmployeeDevice
new_device s o code = record {
  id = next_id "device" s;
  organization_id = code.organization_id;
  employee_id = code.employee_id;
  installation_id = o.registration.installation_id;
  platform = o.registration.platform;
  manufacturer = o.registration.manufacturer;
  model = o.registration.model;
  os_version = o.registration.os_version;
  app_version = o.registration.app_version;
  status = DeviceStatus.pending;
  sync_state = DeviceSyncState.never_synced;
  permissions = o.registration.permissions;
  sim_cards = [];
  registered_at = o.at;
  last_seen_at = some o.at;
  last_heartbeat_at = none;
  last_successful_sync_at = none;
  battery_percent = none;
  is_charging = none;
  network_type = none;
  pending_call_count = some 0;
  pending_recording_count = some 0;
  revoked_at = none;
  created_at = o.at;
  updated_at = o.at;
  created_by = none;
  updated_by = none;
}

abbrev reset_device : RedeemOptions → EmployeeDevice → EmployeeDevice
reset_device o device = record device {
  platform = o.registration.platform;
  manufacturer = o.registration.manufacturer;
  model = o.registration.model;
  os_version = o.registration.os_version;
  app_version = o.registration.app_version;
  status = DeviceStatus.pending;
  sync_state = DeviceSyncState.never_synced;
  permissions = o.registration.permissions;
  last_seen_at = some o.at;
  last_heartbeat_at = none;
  last_successful_sync_at = none;
  battery_percent = none;
  is_charging = none;
  network_type = none;
  pending_call_count = some 0;
  pending_recording_count = some 0;
  revoked_at = none;
  updated_at = o.at;
}

-- A credential of the device that has no `revokedAt` yet is revoked.
unfoldable pub revoke_open : String → IsoDateTime → StoredDeviceCredential → StoredDeviceCredential
revoke_open device_id at credential =
    if str_eq credential.device_id device_id && not (is_some credential.revoked_at)
    then record credential { revoked_at = some at; lifecycle_state = DeviceCredentialState.revoked }
    else credential

-- The state with the installation's device in it, and that device: a new one, or the old one
-- with its credentials revoked and its consent dropped.
unfoldable pub prepare_device :
    Repository
    → RedeemOptions
    → PairingCodeRecord
    → Option EmployeeDevice
    → Repository × EmployeeDevice
prepare_device s o code none = (tick_id s, new_device s o code)
prepare_device s o code (some device) = (
  record s {
    device_credentials_by_hash =
        map_values (revoke_open device.id o.at) s.device_credentials_by_hash;
    active_consent_by_device = remove device.id s.active_consent_by_device;
  },
  reset_device o device,
)

abbrev pub bootstrap_of :
    RedeemOptions → PairingCodeRecord → EmployeeDevice → StoredDeviceCredential
bootstrap_of o code device = record {
  id = o.bootstrap_credential.id;
  token_hash = o.bootstrap_credential.token_hash;
  expires_at = o.bootstrap_credential.expires_at;
  credential_type = o.bootstrap_credential.credential_type;
  rotated_from_credential_id = o.bootstrap_credential.rotated_from_credential_id;
  request_id = o.bootstrap_credential.request_id;
  lifecycle_state = o.bootstrap_credential.lifecycle_state;
  organization_id = code.organization_id;
  employee_id = code.employee_id;
  device_id = device.id;
  created_at = o.at;
  consumed_at = none;
  revoked_at = none;
}

abbrev attach : EmployeeDevice → IsoDateTime → Employee → Employee
attach device at employee = record employee {
  device_ids =
      if any (λ id. str_eq id device.id) employee.device_ids
      then employee.device_ids
      else employee.device_ids ++ device.id ∷ [];
  updated_at = at;
}

abbrev pub consume : RedeemOptions → PairingCodeRecord → PairingCodeRecord
consume o code = record code { consumed_at = some o.at }

abbrev pub redemption_result :
    RedeemOptions → PairingCodeRecord → EmployeeDevice → PairingRedemptionResult
redemption_result o code device = record {
  outcome = PairingOutcome.redeemed;
  pairing = some (consume o code);
  device = some device;
  bootstrap_expires_at = some o.bootstrap_credential.expires_at;
  replayed = some false;
}

-- The writes that follow once the device is there.
unfoldable pub store_redemption :
    Repository → RedeemOptions → String → PairingCodeRecord → Employee → EmployeeDevice → Repository
store_redemption s o id code employee device = record s {
  pairing_codes_by_id = set id (consume o code) s.pairing_codes_by_id;
  devices = set device.id device s.devices;
  device_collection_modes = set device.id code.collection_mode s.device_collection_modes;
  devices_by_installation = set (installation_key code o) device.id s.devices_by_installation;
  employees = set code.employee_id (attach device o.at employee) s.employees;
  device_credentials_by_hash =
      set o.bootstrap_credential.token_hash (bootstrap_of o code device)
        s.device_credentials_by_hash;
  device_credential_hash_by_id =
      set o.bootstrap_credential.id o.bootstrap_credential.token_hash
        s.device_credential_hash_by_id;
  pairing_redemptions =
      set o.request_id
        (record {
          request_id = o.request_id;
          code_hash = o.code_hash;
          request_fingerprint = o.request_fingerprint;
          result = redemption_result o code device;
        })
        s.pairing_redemptions;
}

abbrev installation_is : Option EmployeeDevice → String → Bool
installation_is none installation_id = false
installation_is (some device) installation_id = str_eq device.installation_id installation_id

-- The stored answer again, if the request is the same.
unfoldable pub replay_redemption :
    StoredPairingRedemption → RedeemOptions → Outcome PairingRedemptionResult
replay_redemption prior o =
    if str_eq prior.code_hash o.code_hash
      && str_eq prior.request_fingerprint o.request_fingerprint
      && installation_is prior.result.device o.registration.installation_id
    then done (record (prior.result) { replayed = some true })
    else throws (conflict "The request ID was already used with a different pairing payload")

unfoldable pub commit_redemption :
    Repository → RedeemOptions → Examination → Repository × Outcome PairingRedemptionResult
commit_redemption s o (refuse result) = (s, done result)
commit_redemption s o (accept id code employee existing) =
    let (t, device) = prepare_device s o code existing in
    (store_redemption t o id code employee device, done (redemption_result o code device))

unfoldable pub redeem_pairing_code :
    Repository → RedeemOptions → Repository × Outcome PairingRedemptionResult
redeem_pairing_code s o =
    once s (get o.request_id s.pairing_redemptions) (λ prior. replay_redemption prior o)
      (commit_redemption s o (examine s o))
