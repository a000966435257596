-- ===== src/Mobile/PairingCheck.antt =====
-- Pairing codes of apps/api/src/repository.ts: `createPairingCode`, `revokePairingCode`, and the
-- reasons for which `redeemPairingCode` refuses a code.
use cylizerapp.Base.{
  String, Bool, false, not, ◌&&◌, ◌||◌, Option, none, some, leb, is_some, str_eq, if◌then◌else◌,
}
use cylizerapp.Base.Dict.{get, set}
use cylizerapp.Base.Text.{key2}
use cylizerapp.Base.Outcome.{Outcome, done, missing}
use cylizerapp.Contracts.Organizations.{IsoDateTime}
use cylizerapp.Contracts.Employees.{Employee, EmployeeDevice, is_enrollable}
use cylizerapp.Contracts.Sync.{same_mode}
use cylizerapp.Domain.{
  PairingCodeRecord, DeviceRegistration, NewDeviceCredential, PairingOutcome,
  PairingRedemptionResult,
}
use cylizerapp.Repository.{Repository}

unfoldable pub create_pairing_code : Repository → PairingCodeRecord → Repository
create_pairing_code s code = record s {
  pairing_codes_by_id = set code.id code s.pairing_codes_by_id;
  pairing_code_id_by_hash = set code.code_hash code.id s.pairing_code_id_by_hash;
}

-- The record after a revocation: consumed and revoked codes stay as they are.
abbrev close_code : IsoDateTime → PairingCodeRecord → PairingCodeRecord
close_code at code =
    if not (is_some code.consumed_at) && not (is_some code.revoked_at)
    then record code { revoked_at = some at }
    else code

unfoldable pub revoke_pairing_code :
    Repository → String → String → IsoDateTime → Repository × Outcome PairingCodeRecord
revoke_pairing_code s organization_id pairing_code_id at =
    elim (get pairing_code_id s.pairing_codes_by_id) [
      | none ↦ (s, missing)
      | some code ↦
          if str_eq code.organization_id organization_id
          then (
            record s {
              pairing_codes_by_id = set pairing_code_id (close_code at code) s.pairing_codes_by_id;
            },
            done (close_code at code),
          )
          else (s, missing)
    ]

pub record RedeemOptions : Type 0 where
  pub code_hash : String
  pub registration : DeviceRegistration
  pub bootstrap_credential : NewDeviceCredential
  pub request_id : String
  pub request_fingerprint : String
  pub at : IsoDateTime

abbrev pub refusal : PairingOutcome → Option PairingCodeRecord → PairingRedemptionResult
refusal outcome code = record {
  outcome = outcome;
  pairing = code;
  device = none;
  bootstrap_expires_at = none;
  replayed = none;
}

pub data Examination : Type 0 where
  refuse : PairingRedemptionResult → Examination
  -- the code, the key it is stored under, the employee and the device of the installation
  accept : String → PairingCodeRecord → Employee → Option EmployeeDevice → Examination

abbrev lookup_device : Repository → Option String → Option EmployeeDevice
lookup_device s none = none
lookup_device s (some id) = get id s.devices

abbrev pub installation_key : PairingCodeRecord → RedeemOptions → String
installation_key code o = key2 code.organization_id o.registration.installation_id

abbrev pub existing_device : Repository → PairingCodeRecord → RedeemOptions → Option EmployeeDevice
existing_device s code o = lookup_device s (get (installation_key code o) s.devices_by_installation)

-- A device of the installation that belongs to another employee.
abbrev is_foreign : Option EmployeeDevice → PairingCodeRecord → Bool
is_foreign none code = false
is_foreign (some device) code = not (str_eq device.employee_id code.employee_id)

examine_employee : Repository → RedeemOptions → String → PairingCodeRecord → Examination
examine_employee s o id code = elim (get code.employee_id s.employees) [
  | none ↦ refuse (refusal PairingOutcome.not_found none)
  | some employee ↦
      if not (str_eq employee.organization_id code.organization_id)
        || not (is_enrollable employee.status)
      then refuse (refusal PairingOutcome.not_found none)
      else (if not (same_mode code.collection_mode o.registration.collection_mode)
          then refuse (refusal PairingOutcome.not_found none)
          else (if is_foreign (existing_device s code o) code
              then refuse (refusal PairingOutcome.installation_conflict (some code))
              else accept id code employee (existing_device s code o)))
]

unfoldable pub examine_code : Repository → RedeemOptions → String → PairingCodeRecord → Examination
unfolding examine_employee
examine_code s o id code =
    if is_some code.revoked_at
    then refuse (refusal PairingOutcome.revoked (some code))
    else (if is_some code.consumed_at
        then refuse (refusal PairingOutcome.consumed (some code))
        else (if leb code.expires_at o.at
            then refuse (refusal PairingOutcome.expired (some code))
            else examine_employee s o id code))

abbrev pub stored_code : Repository → String → Option (String × PairingCodeRecord)
stored_code s code_hash = elim (get code_hash s.pairing_code_id_by_hash) [
  | none ↦ none
  | some id ↦ elim (get id s.pairing_codes_by_id) [ none ↦ none | some code ↦ some (id, code) ]
]

-- Every reason to refuse a code that has not been redeemed by this request before.
unfoldable pub examine : Repository → RedeemOptions → Examination
unfolding examine_code
examine s o = elim (stored_code s o.code_hash) [
  | none ↦ refuse (refusal PairingOutcome.not_found none)
  | some (id, code) ↦ examine_code s o id code
]
