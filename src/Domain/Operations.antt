-- ===== src/Domain/Operations.antt =====
-- apps/api/src/domain.ts: the options of the operations on assignment rules.
use cylizerapp.Base.{String}
use cylizerapp.Contracts.Organizations.{IsoDateTime}
use cylizerapp.Contracts.LeadOperations.{
  MobileLeadUpdateInput, CorrectCallLeadLinkInput, CreateLeadAssignmentRuleInput,
  UpdateLeadAssignmentRuleInput, ApplyLeadAssignmentRulesInput,
}
use cylizerapp.Domain.{LeadAccessScope, MobileDeviceContext}

pub record LeadAssignmentOperationOptions : Type 0 where
  pub organization_id : String
  pub scope : LeadAccessScope
  pub actor_user_id : String
  pub at : IsoDateTime

pub record CreateLeadAssignmentRuleOptions : Type 0 where
  pub operation : LeadAssignmentOperationOptions
  pub input : CreateLeadAssignmentRuleInput

pub record UpdateLeadAssignmentRuleOptions : Type 0 where
  pub operation : LeadAssignmentOperationOptions
  pub rule_id : String
  pub input : UpdateLeadAssignmentRuleInput

pub record ApplyLeadAssignmentRulesOptions : Type 0 where
  pub operation : LeadAssignmentOperationOptions
  pub input : ApplyLeadAssignmentRulesInput
  pub request_fingerprint : String

pub record CorrectCallLeadLinkOptions : Type 0 where
  pub organization_id : String
  pub scope : LeadAccessScope
  pub call_id : String
  pub input : CorrectCallLeadLinkInput
  pub actor_user_id : String
  pub request_fingerprint : String
  pub at : IsoDateTime

pub record MobileLeadUpdateOptions : Type 0 where
  pub context : MobileDeviceContext
  pub lead_id : String
  pub input : MobileLeadUpdateInput
  pub request_fingerprint : String
  pub at : IsoDateTime
