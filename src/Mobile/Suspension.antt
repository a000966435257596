-- ===== src/Mobile/Suspension.antt =====
-- `suspendEmployee` of apps/api/src/repository.ts: an employee is paused with all devices.
use cylizerapp.Base.{String, not, ◌&&◌, none, some, List, [], ◌∷◌, is_some, str_eq, if◌then◌else◌}
use cylizerapp.Base.Dict.{get, set, map_values}
use cylizerapp.Base.Outcome.{Outcome, done, missing}
use cylizerapp.Contracts.Organizations.{IsoDateTime}
use cylizerapp.Contracts.Employees.{Employee, EmployeeStatus, EmployeeDevice, DeviceStatus}
use cylizerapp.Domain.{StoredDeviceCredential}
use cylizerapp.Repository.{Repository}

-- A credential of the device without `revokedAt` gets one; its lifecycle state stays.
unfoldable pub close_credential :
    String → IsoDateTime → StoredDeviceCredential → StoredDeviceCredential
close_credential device_id at credential =
    if str_eq credential.device_id device_id && not (is_some credential.revoked_at)
    then record credential { revoked_at = some at }
    else credential

suspended_device : IsoDateTime → String → EmployeeDevice → EmployeeDevice
suspended_device at actor_user_id device = record device {
  status = DeviceStatus.revoked;
  revoked_at = some at;
  updated_at = at;
  updated_by = some actor_user_id;
}

-- One round of the loop over `employee.deviceIds`.
unfoldable pub suspend_device : String → String → IsoDateTime → String → Repository → Repository
unfolding suspended_device
suspend_device organization_id actor_user_id at device_id s = elim (get device_id s.devices) [
  | none ↦ s
  | some device ↦
      if str_eq device.organization_id organization_id
      then record s {
        devices = set device_id (suspended_device at actor_user_id device) s.devices;
        device_credentials_by_hash =
            map_values (close_credential device_id at) s.device_credentials_by_hash;
      }
      else s
]

unfoldable pub suspend_devices :
    String → String → IsoDateTime → List String → Repository → Repository
suspend_devices organization_id actor_user_id at [] s = s
suspend_devices organization_id actor_user_id at (device_id ∷ ids) s =
    suspend_devices organization_id actor_user_id at ids
      (suspend_device organization_id actor_user_id at device_id s)

abbrev paused_employee : IsoDateTime → String → Employee → Employee
paused_employee at actor_user_id employee = record employee {
  status = EmployeeStatus.paused;
  updated_at = at;
  updated_by = some actor_user_id;
}

unfoldable pub suspend_employee :
    Repository → String → String → String → IsoDateTime → Repository × Outcome Employee
suspend_employee s organization_id employee_id actor_user_id at =
    elim (get employee_id s.employees) [
      | none ↦ (s, missing)
      | some employee ↦
          if str_eq employee.organization_id organization_id
          then (
            suspend_devices organization_id actor_user_id at employee.device_ids (record s {
              employees = set employee_id (paused_employee at actor_user_id employee) s.employees;
            }),
            done (paused_employee at actor_user_id employee),
          )
          else (s, missing)
    ]
