-- ===== src/Contracts/Employees.antt =====
-- packages/contracts/src/employees.ts: employees and their devices.
use cylizerapp.Base.{ℕ, String, Option, List, Bool, true, false}
use cylizerapp.Contracts.Organizations.{IsoDateTime}

pub data EmployeeStatus : Type 0 where
  invited active paused deactivated : EmployeeStatus

pub data MobilePlatform : Type 0 where
  android ios : MobilePlatform

pub data DeviceStatus : Type 0 where
  pending connected stale revoked : DeviceStatus

pub data DevicePermissionState : Type 0 where
  unknown granted denied restricted : DevicePermissionState

pub data DeviceSyncState : Type 0 where
  never_synced idle syncing degraded failed : DeviceSyncState

pub data NetworkType : Type 0 where
  offline wifi cellular ethernet unknown : NetworkType

pub record WorkingHours : Type 0 where
  pub time_zone : String
  pub week_days : List ℕ
  pub starts_at : String
  pub ends_at : String

pub record Employee : Type 0 where
  pub id : String
  pub organization_id : String
  pub linked_user_id : Option String
  pub employee_code : Option String
  pub display_name : String
  pub email : Option String
  pub primary_phone : Option String
  pub job_title : Option String
  pub team : Option String
  pub status : EmployeeStatus
  pub manager_employee_id : Option String
  pub working_hours : Option WorkingHours
  pub device_ids : List String
  pub created_at : IsoDateTime
  pub updated_at : IsoDateTime
  pub created_by : Option String
  pub updated_by : Option String

pub record DevicePermissions : Type 0 where
  pub call_log : DevicePermissionState
  pub phone_state : DevicePermissionState
  pub contacts : DevicePermissionState
  pub notifications : DevicePermissionState
  pub recording_files : DevicePermissionState
  pub background_execution : DevicePermissionState

pub record SimCard : Type 0 where
  pub id : String
  pub device_id : String
  pub slot_index : ℕ
  pub carrier_name : Option String
  pub phone_number : Option String
  pub subscription_id : Option String
  pub is_enabled : Bool

pub record EmployeeDevice : Type 0 where
  pub id : String
  pub organization_id : String
  pub employee_id : String
  pub installation_id : String
  pub platform : MobilePlatform
  pub manufacturer : Option String
  pub model : Option String
  pub os_version : String
  pub app_version : String
  pub status : DeviceStatus
  pub sync_state : DeviceSyncState
  pub permissions : DevicePermissions
  pub sim_cards : List SimCard
  pub registered_at : IsoDateTime
  pub last_seen_at : Option IsoDateTime
  pub last_heartbeat_at : Option IsoDateTime
  pub last_successful_sync_at : Option IsoDateTime
  pub battery_percent : Option ℕ
  pub is_charging : Option Bool
  pub network_type : Option NetworkType
  pub pending_call_count : Option ℕ
  pub pending_recording_count : Option ℕ
  pub revoked_at : Option IsoDateTime
  pub created_at : IsoDateTime
  pub updated_at : IsoDateTime
  pub created_by : Option String
  pub updated_by : Option String

abbrev pub is_active_employee : EmployeeStatus → Bool
is_active_employee EmployeeStatus.active = true
is_active_employee _ = false

-- `["invited", "active"].includes(status)`.
abbrev pub is_enrollable : EmployeeStatus → Bool
is_enrollable EmployeeStatus.invited = true
is_enrollable EmployeeStatus.active = true
is_enrollable _ = false

abbrev pub is_pending_device : DeviceStatus → Bool
is_pending_device DeviceStatus.pending = true
is_pending_device _ = false

abbrev pub is_connected : DeviceStatus → Bool
is_connected DeviceStatus.connected = true
is_connected _ = false

abbrev pub is_revoked_device : DeviceStatus → Bool
is_revoked_device DeviceStatus.revoked = true
is_revoked_device _ = false

abbrev pub is_granted : DevicePermissionState → Bool
is_granted DevicePermissionState.granted = true
is_granted _ = false

abbrev pub status_text : EmployeeStatus → String
status_text EmployeeStatus.invited = "invited"
status_text EmployeeStatus.active = "active"
status_text EmployeeStatus.paused = "paused"
status_text EmployeeStatus.deactivated = "deactivated"
