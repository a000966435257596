-- ===== src/Mobile/AdminRevocation.antt =====
-- `revokeDeviceByAdministrator` of apps/api/src/repository.ts: an administrator ends a device.
use cylizerapp.Base.{
  String, Bool, true, false, not, ◌&&◌, ◌||◌, none, some, List, [], ◌∷◌, ◌++◌, is_some, str_eq, any,
  count, if◌then◌else◌,
}
use cylizerapp.Base.Dict.{get, has, set, values, map_values}
use cylizerapp.Base.Text.{key2}
use cylizerapp.Base.Outcome.{
  Outcome, done, throws, plain, conflict, require, throw_if, lookup_or_missing, commit_if, once,
  ◌>>=◌, ◌>>◌,
}
use cylizerapp.Contracts.Organizations.{IsoDateTime, is_active_user}
use cylizerapp.Contracts.Employees.{EmployeeDevice, is_revoked_device}
use cylizerapp.Domain.{
  DeviceCredentialState, StoredDeviceCredential, AdminRevokeDeviceResult,
  StoredAdminDeviceRevocation, AuditEvent, AuditEntityType, same_state,
}
use cylizerapp.Contracts.Leads.{JsonValue}
use cylizerapp.Repository.{Repository}
use cylizerapp.Mobile.Consent.{is_open_consent, withdraw_consent}
use cylizerapp.Mobile.Revocation.{revoked_device}

pub record AdminRevokeOptions : Type 0 where
  pub organization_id : String
  pub device_id : String
  pub actor_user_id : String
  pub request_id : String
  pub request_fingerprint : String
  pub reason : String
  pub audit_event_id : String
  pub outbox_event_id : String
  pub at : IsoDateTime

unfoldable pub admit_admin_revoke :
    Repository → AdminRevokeOptions → Outcome (EmployeeDevice × List AuditEvent)
admit_admin_revoke s o = do
  device ← lookup_or_missing (get o.device_id s.devices)
  require (str_eq device.organization_id o.organization_id)
  throw_if (is_revoked_device device.status || is_some device.revoked_at)
      (conflict "The device has already been revoked")
  actor ← lookup_or_missing (get o.actor_user_id s.users)
  require (str_eq actor.organization_id o.organization_id && is_active_user actor.status)
  throw_if (not (has o.organization_id s.audits))
      (plain "Unknown organization for device revocation")
  events ← lookup_or_missing (get o.organization_id s.audits)
  throw_if
      (any (λ event. str_eq event.id o.audit_event_id) events
        || has o.outbox_event_id s.admin_recovery_outbox_events)
      (plain "Administrative device revocation evidence ID was already used")
  done (device, events)

-- An active or pending credential of the device.
unfoldable pub is_live_of : String → StoredDeviceCredential → Bool
is_live_of device_id credential =
    str_eq credential.device_id device_id
    && (same_state credential.lifecycle_state DeviceCredentialState.active
        || same_state credential.lifecycle_state DeviceCredentialState.pending)

unfoldable pub revoke_live : String → IsoDateTime → StoredDeviceCredential → StoredDeviceCredential
revoke_live device_id at credential =
    if is_live_of device_id credential
    then record credential { lifecycle_state = DeviceCredentialState.revoked; revoked_at = some at }
    else credential

unfoldable pub admin_revoke_result :
    Repository → AdminRevokeOptions → EmployeeDevice → AdminRevokeDeviceResult
admin_revoke_result s o device = record {
  device_id = device.id;
  employee_id = device.employee_id;
  revoked_at = o.at;
  reason = o.reason;
  revoked_credential_count = count (is_live_of device.id) (values s.device_credentials_by_hash);
  consent_withdrawn = is_open_consent (get device.id s.active_consent_by_device);
  replayed = false;
}

abbrev admin_event : AdminRevokeOptions → EmployeeDevice → AdminRevokeDeviceResult → AuditEvent
admin_event o device result = record {
  id = o.audit_event_id;
  organization_id = o.organization_id;
  actor_user_id = some o.actor_user_id;
  actor_device_id = none;
  request_id = some o.request_id;
  action = "device.admin_revoked";
  entity_type = AuditEntityType.device;
  entity_id = device.id;
  occurred_at = o.at;
  metadata =
      ("requestId", JsonValue.text o.request_id)
      ∷ ("employeeId", JsonValue.text device.employee_id)
      ∷ ("reason", JsonValue.text o.reason)
      ∷ ("revokedCredentialCount", JsonValue.number result.revoked_credential_count)
      ∷ ("consentWithdrawn", JsonValue.boolean result.consent_withdrawn)
      ∷ [];
}

abbrev pub admin_key : AdminRevokeOptions → String
admin_key o = key2 o.organization_id o.request_id

unfoldable pub commit_admin_revoke :
    Repository
    → AdminRevokeOptions
    → EmployeeDevice × List AuditEvent
    → Repository × AdminRevokeDeviceResult
commit_admin_revoke s o (device, events) =
    let result = admin_revoke_result s o device in
    (
      record s {
        device_credentials_by_hash =
            map_values (revoke_live device.id o.at) s.device_credentials_by_hash;
        active_consent_by_device =
            withdraw_consent device.id o.at (get device.id s.active_consent_by_device)
              s.active_consent_by_device;
        devices = set o.device_id (revoked_device o.at device) s.devices;
        audits = set o.organization_id (events ++ admin_event o device result ∷ []) s.audits;
        admin_recovery_outbox_events =
            set o.outbox_event_id
              (record {
                id = o.outbox_event_id;
                organization_id = o.organization_id;
                request_id = o.request_id;
                device_id = device.id;
                event_type = "device.admin_revoked";
              })
              s.admin_recovery_outbox_events;
        admin_device_revocations =
            set (admin_key o)
              (record {
                organization_id = o.organization_id;
                device_id = device.id;
                actor_user_id = o.actor_user_id;
                request_fingerprint = o.request_fingerprint;
                result = result;
              })
              s.admin_device_revocations;
      },
      result,
    )

unfoldable pub replay_admin_revoke :
    StoredAdminDeviceRevocation → AdminRevokeOptions → Outcome AdminRevokeDeviceResult
replay_admin_revoke prior o =
    if str_eq prior.device_id o.device_id
      && str_eq prior.actor_user_id o.actor_user_id
      && str_eq prior.request_fingerprint o.request_fingerprint
    then done (record (prior.result) { replayed = true })
    else throws
        (conflict "The request ID was already used with a different device revocation payload")

unfoldable pub revoke_device_by_administrator :
    Repository → AdminRevokeOptions → Repository × Outcome AdminRevokeDeviceResult
revoke_device_by_administrator s o =
    once s (get (admin_key o) s.admin_device_revocations) (λ prior. replay_admin_revoke prior o)
      (commit_if s (admit_admin_revoke s o) (commit_admin_revoke s o))
