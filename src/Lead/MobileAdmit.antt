-- ===== src/Lead/MobileAdmit.antt =====
-- Which updates of a lead from a telephone `applyMobileLeadUpdate` of apps/api/src/repository.ts
-- admits.
use cylizerapp.Base.{
  ℕ, ◌+◌, String, Bool, false, not, ◌&&◌, ◌||◌, Option, none, some, ltb, ◌==◌, str_eq, is_some,
}
use cylizerapp.Base.Dict.{get}
use cylizerapp.Base.Text.{key3, truthy, text_is}
use cylizerapp.Base.Outcome.{
  Outcome, done, missing, throws, conflict, bad_request, consent_required, default_consent_message,
  lookup_or_missing, require, throw_if, ◌>>=◌, ◌>>◌,
}
use cylizerapp.Contracts.Organizations.{IsoDateTime}
use cylizerapp.Contracts.Employees.{Employee}
use cylizerapp.Contracts.Leads.{Lead, LeadStatus}
use cylizerapp.Contracts.LeadOperations.{MobileLeadUpdateFollowUp}
use cylizerapp.Domain.{DeviceCredentialType}
use cylizerapp.Domain.Operations.{MobileLeadUpdateOptions}
use cylizerapp.Repository.{Repository}
use cylizerapp.Mobile.Credentials.{find_current_mobile_credential, is_consent_current}
use cylizerapp.Lead.Detail.{LeadDetail}

pub record MobileLeadUpdateReceipt : Type 0 where
  pub request_id : String
  pub replayed : Bool
  pub applied_lead_version : ℕ
  pub detail : Option LeadDetail

abbrev pub update_key : MobileLeadUpdateOptions → String
update_key o = key3 o.context.organization_id o.context.device_id o.input.request_id

-- The device's session and consent are current.
unfoldable pub admit_session : Repository → MobileLeadUpdateOptions → Outcome (Unit {0})
admit_session s o =
    elim (find_current_mobile_credential s o.context DeviceCredentialType.session o.at) [
      | done current ↦
          throw_if (not (is_consent_current s o.context.device_id))
            (consent_required default_consent_message)
      | missing ↦ throws (consent_required default_consent_message)
      | throws fault ↦ throws fault
    ]

-- Five minutes ahead, seven days behind.
unfoldable pub outside_window : IsoDateTime → IsoDateTime → Bool
outside_window occurred received =
    ltb (received + 300_000) occurred || ltb (occurred + 604_800_000) received

unfoldable pub requested_change : Repository → Lead → Option String → Outcome (Option LeadStatus)
requested_change s lead none = done none
requested_change s lead (some id) = do
  status ← lookup_or_missing (get id s.lead_statuses)
  require (str_eq status.organization_id lead.organization_id && status.is_active)
  done (some status)

abbrev late_reminder : Option MobileLeadUpdateFollowUp → Bool
late_reminder none = false
late_reminder (some f) = elim f.reminder_at [ none ↦ false | some at ↦ ltb f.due_at at ]

abbrev linked_user : Option Employee → Option String
linked_user none = none
linked_user (some e) = truthy e.linked_user_id

pub record MobileChange : Type 0 where
  pub lead : Lead
  pub actor_user_id : String
  pub status : Option LeadStatus

unfoldable pub admit_mobile_update : Repository → MobileLeadUpdateOptions → Outcome MobileChange
admit_mobile_update s o = do
  throw_if (outside_window o.input.occurred_at o.at)
      (bad_request "occurredAt is outside the accepted offline update window" "occurredAt")
  lead ← lookup_or_missing (get o.lead_id s.leads)
  require (
      str_eq lead.organization_id o.context.organization_id
      && not (is_some lead.archived_at)
      && text_is lead.assigned_employee_id o.context.employee_id)
  throw_if (not (lead.version == o.input.expected_lead_version))
      (conflict "The lead changed; refresh and retry")
  actor ← lookup_or_missing (linked_user (get o.context.employee_id s.employees))
  status ← requested_change s lead (truthy o.input.status_id)
  throw_if (late_reminder o.input.follow_up)
      (bad_request "The follow-up reminder cannot be after its due time" "followUp.reminderAt")
  done (record { lead = lead; actor_user_id = actor; status = status })
