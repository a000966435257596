-- ===== src/Contracts/LeadOperations.antt =====
-- packages/contracts/src/lead-operations.ts: assignment rules.
use cylizerapp.Base.{ℕ, String, Option, List, Bool, true, false}
use cylizerapp.Contracts.Organizations.{IsoDateTime}
use cylizerapp.Contracts.Leads.{LeadSource, LeadTemperature, FollowUpPriority}

pub data LeadAssignmentStrategy : Type 0 where
  fixed_owner round_robin : LeadAssignmentStrategy

pub record LeadAssignmentConditions : Type 0 where
  pub sources : Option (List LeadSource)
  pub temperatures : Option (List LeadTemperature)
  pub status_ids : Option (List String)

pub record LeadAssignmentRule : Type 0 where
  pub id : String
  pub organization_id : String
  pub name : String
  pub priority : ℕ
  pub active : Bool
  pub conditions : LeadAssignmentConditions
  pub strategy : LeadAssignmentStrategy
  pub employee_ids : List String
  pub version : ℕ
  pub created_by_user_id : String
  pub updated_by_user_id : String
  pub created_at : IsoDateTime
  pub updated_at : IsoDateTime

pub record CreateLeadAssignmentRuleInput : Type 0 where
  pub name : String
  pub priority : ℕ
  pub active : Option Bool
  pub conditions : Option LeadAssignmentConditions
  pub strategy : LeadAssignmentStrategy
  pub employee_ids : List String

pub record LeadAssignmentRuleChanges : Type 0 where
  pub name : Option String
  pub priority : Option ℕ
  pub active : Option Bool
  pub conditions : Option LeadAssignmentConditions
  pub strategy : Option LeadAssignmentStrategy
  pub employee_ids : Option (List String)

pub record UpdateLeadAssignmentRuleInput : Type 0 where
  pub expected_version : ℕ
  pub changes : LeadAssignmentRuleChanges

pub record LeadAssignmentDistribution : Type 0 where
  pub employee_id : String
  pub lead_count : ℕ

pub record LeadAssignmentDryRun : Type 0 where
  pub matched_leads : ℕ
  pub unmatched_leads : ℕ
  pub distribution : List LeadAssignmentDistribution

pub record ApplyLeadAssignmentRulesInput : Type 0 where
  pub request_id : String
  pub include_existing_unassigned : Bool

pub record ApplyLeadAssignmentRulesResult : Type 0 where
  pub dry_run : LeadAssignmentDryRun
  pub request_id : String
  pub replayed : Bool
  pub applied_leads : ℕ

abbrev pub is_fixed_owner : LeadAssignmentStrategy → Bool
is_fixed_owner LeadAssignmentStrategy.fixed_owner = true
is_fixed_owner LeadAssignmentStrategy.round_robin = false

-- The values as the texts that they are on the wire.
abbrev pub source_text : LeadSource → String
source_text LeadSource.manual = "manual"
source_text LeadSource.csv_import = "csv_import"
source_text LeadSource.website = "website"
source_text LeadSource.facebook = "facebook"
source_text LeadSource.instagram = "instagram"
source_text LeadSource.google_ads = "google_ads"
source_text LeadSource.india_mart = "india_mart"
source_text LeadSource.api = "api"
source_text LeadSource.integration = "integration"
source_text LeadSource.unknown = "unknown"

abbrev pub temperature_text : LeadTemperature → String
temperature_text LeadTemperature.cold = "cold"
temperature_text LeadTemperature.warm = "warm"
temperature_text LeadTemperature.hot = "hot"

-- `null` for a lead is `none`.
pub record CorrectCallLeadLinkInput : Type 0 where
  pub request_id : String
  pub expected_lead_id : Option String
  pub replacement_lead_id : Option String
  pub reason : String

pub record CorrectCallLeadLinkResult : Type 0 where
  pub request_id : String
  pub call_log_id : String
  pub previous_lead_id : Option String
  pub replacement_lead_id : Option String
  pub corrected_at : IsoDateTime
  pub replayed : Bool

pub record MobileLeadUpdateFollowUp : Type 0 where
  pub title : String
  pub notes : Option String
  pub due_at : IsoDateTime
  pub reminder_at : Option IsoDateTime
  pub priority : Option FollowUpPriority

-- A note is its body.
pub record MobileLeadUpdateInput : Type 0 where
  pub request_id : String
  pub expected_lead_version : ℕ
  pub occurred_at : IsoDateTime
  pub status_id : Option String
  pub note : Option String
  pub follow_up : Option MobileLeadUpdateFollowUp
