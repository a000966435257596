-- ===== src/Contracts/Leads.antt =====
-- packages/contracts/src/leads.ts: leads, their notes, follow-ups and activities.
use cylizerapp.Base.{ℕ, String, Option, List, Bool, true, false}
use cylizerapp.Base.Dict.{Dict}
use cylizerapp.Contracts.Organizations.{IsoDateTime}

pub data LeadTemperature : Type 0 where
  cold warm hot : LeadTemperature

pub data LeadSource : Type 0 where
  manual csv_import website facebook instagram : LeadSource
  google_ads india_mart api integration unknown : LeadSource

pub data FollowUpStatus : Type 0 where
  pending completed cancelled overdue : FollowUpStatus

pub data FollowUpPriority : Type 0 where
  low normal high urgent : FollowUpPriority

pub data LeadActivityKind : Type 0 where
  created updated assigned unassigned status_changed custom_fields_changed : LeadActivityKind
  tag_added tag_removed note_added call_linked call_unlinked : LeadActivityKind
  follow_up_created follow_up_completed follow_up_cancelled : LeadActivityKind

mutual
  pub data JsonValue : Type 0 where
    null : JsonValue
    text : String → JsonValue
    number : ℕ → JsonValue
    boolean : Bool → JsonValue
    array : JsonItems → JsonValue
    object : JsonFields → JsonValue

  pub data JsonItems : Type 0 where
    no_items : JsonItems
    item : JsonValue → JsonItems → JsonItems

  pub data JsonFields : Type 0 where
    no_fields : JsonFields
    field : String → JsonValue → JsonFields → JsonFields

pub record LeadStatus : Type 0 where
  pub id : String
  pub organization_id : String
  pub name : String
  pub color : String
  pub position : ℕ
  pub is_initial : Bool
  pub is_won : Bool
  pub is_lost : Bool
  pub is_active : Bool

pub record Lead : Type 0 where
  pub id : String
  pub organization_id : String
  pub first_name : String
  pub last_name : Option String
  pub company_name : Option String
  pub phone_number : String
  pub alternate_phone_number : Option String
  pub email : Option String
  pub source : LeadSource
  pub source_reference : Option String
  pub status_id : String
  pub temperature : Option LeadTemperature
  pub assigned_employee_id : Option String
  pub tag_ids : List String
  pub custom_fields : Dict JsonValue
  pub last_contacted_at : Option IsoDateTime
  pub next_follow_up_at : Option IsoDateTime
  pub converted_at : Option IsoDateTime
  pub lost_at : Option IsoDateTime
  pub archived_at : Option IsoDateTime
  pub version : ℕ
  pub created_at : IsoDateTime
  pub updated_at : IsoDateTime
  pub created_by : Option String
  pub updated_by : Option String

pub record LeadNote : Type 0 where
  pub id : String
  pub organization_id : String
  pub lead_id : String
  pub author_user_id : String
  pub body : String
  pub is_pinned : Bool
  pub created_at : IsoDateTime
  pub updated_at : IsoDateTime
  pub created_by : Option String
  pub updated_by : Option String

pub record FollowUp : Type 0 where
  pub id : String
  pub organization_id : String
  pub lead_id : String
  pub assigned_employee_id : String
  pub title : String
  pub notes : Option String
  pub due_at : IsoDateTime
  pub reminder_at : Option IsoDateTime
  pub priority : FollowUpPriority
  pub status : FollowUpStatus
  pub completed_at : Option IsoDateTime
  pub completed_by_user_id : Option String
  pub version : ℕ
  pub created_at : IsoDateTime
  pub updated_at : IsoDateTime
  pub created_by : Option String
  pub updated_by : Option String

pub record LeadActivity : Type 0 where
  pub id : String
  pub organization_id : String
  pub lead_id : String
  pub kind : LeadActivityKind
  pub actor_user_id : Option String
  pub actor_employee_id : Option String
  pub call_log_id : Option String
  pub occurred_at : IsoDateTime
  pub summary : String
  pub metadata : Option (Dict JsonValue)

abbrev pub is_pending : FollowUpStatus → Bool
is_pending FollowUpStatus.pending = true
is_pending _ = false

pub data LeadQueueKey : Type 0 where
  all not_contacted overdue unreturned_calls : LeadQueueKey

pub record LeadQueueSummary : Type 0 where
  pub total : ℕ
  pub not_contacted : ℕ
  pub overdue : ℕ
  pub unreturned_calls : ℕ
