-- ===== src/Mobile/Heartbeat.antt =====
-- `recordDeviceHeartbeat` of apps/api/src/repository.ts.
use cylizerapp.Base.{ℕ, Bool, false, Option, some, List, [], ◌∷◌}
use cylizerapp.Base.Dict.{set}
use cylizerapp.Base.Outcome.{Outcome, commit_if}
use cylizerapp.Contracts.Organizations.{IsoDateTime}
use cylizerapp.Contracts.Employees.{EmployeeDevice}
use cylizerapp.Contracts.Sync.{DeviceHeartbeat, MobilePolicy, MobileDirective}
use cylizerapp.Domain.{DeviceCredentialType, MobileDeviceContext}
use cylizerapp.Repository.{Repository}
use cylizerapp.Mobile.Credentials.{
  CurrentCredential, find_current_mobile_credential, is_consent_current,
}

pub record HeartbeatAcknowledgement : Type 0 where
  pub server_time : IsoDateTime
  pub next_heartbeat_after_seconds : ℕ
  pub directives : List MobileDirective

pub record HeartbeatOptions : Type 0 where
  pub context : MobileDeviceContext
  pub heartbeat : DeviceHeartbeat
  pub at : IsoDateTime

observed_device : HeartbeatOptions → EmployeeDevice → EmployeeDevice
observed_device o device = record device {
  app_version = o.heartbeat.app_version;
  os_version = o.heartbeat.os_version;
  sync_state = o.heartbeat.sync_state;
  permissions = o.heartbeat.permissions;
  last_seen_at = some o.at;
  last_heartbeat_at = some o.heartbeat.observed_at;
  updated_at = o.at;
  battery_percent = o.heartbeat.battery_percent;
  is_charging = o.heartbeat.is_charging;
  network_type = o.heartbeat.network_type;
  pending_call_count = some o.heartbeat.pending_call_count;
  pending_recording_count = some o.heartbeat.pending_recording_count;
}

abbrev pub directives_for : Bool → Option MobilePolicy → List MobileDirective
directives_for false (some policy) =
    MobileDirective.require_consent policy.id policy.content_hash
      "The active collection policy has changed"
    ∷ []
directives_for _ _ = []

unfoldable pub commit_heartbeat :
    Repository → HeartbeatOptions → CurrentCredential → Repository × HeartbeatAcknowledgement
unfolding observed_device
commit_heartbeat s o current = (
  record s { devices = set o.context.device_id (observed_device o current.device) s.devices },
  record {
    server_time = o.at;
    next_heartbeat_after_seconds = 900;
    directives =
        directives_for (is_consent_current s o.context.device_id)
          (s.mobile_policies o.context.collection_mode);
  },
)

unfoldable pub record_device_heartbeat :
    Repository → HeartbeatOptions → Repository × Outcome HeartbeatAcknowledgement
record_device_heartbeat s o =
    commit_if s (find_current_mobile_credential s o.context DeviceCredentialType.session o.at)
      (commit_heartbeat s o)
