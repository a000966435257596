-- ===== src/Listing/Scope.antt =====
-- What `listLeads` of apps/api/src/repository.ts shows.
use mathlib.Core.List.Memᴰ
use mathlib.Core.List.{Memᴰ}
use cylizerapp.Base.{◌≤◌, ◌≢◌, String, ◌≡◌, none, some, List}
use cylizerapp.Base.Dict.{values}
use cylizerapp.Lead.Scopes.{ReachesLead}
use cylizerapp.Contracts.Leads.{Lead, LeadQueueKey}
use cylizerapp.Repository.{Repository}
use cylizerapp.Lead.Detail.{LeadListItem}
use cylizerapp.Listing.Leads.{ListLeadsOptions}

-- All leads, those never contacted, those with an overdue follow-up, and those with an unreturned
-- call.
abbrev pub InQueue : LeadQueueKey → LeadListItem → Type 0
InQueue LeadQueueKey.all item = Unit
InQueue LeadQueueKey.not_contacted item = item.lead.last_contacted_at ≡ none
InQueue LeadQueueKey.overdue item = 1 ≤ item.overdue_follow_up_count
InQueue LeadQueueKey.unreturned_calls item = 1 ≤ item.unreturned_missed_call_count

-- What a listed lead is: it stands in the repository, in the caller's organization, unarchived and
-- within the caller's scope; it has the status and the owner that the filter names, if it names
-- them, and is in the filter's queue.
pub record IsShown (s : Repository) (o : ListLeadsOptions) (item : LeadListItem) : Type 0 where
  pub stored : Memᴰ item.lead (values s.leads)
  pub ours : item.lead.organization_id ≡ o.organization_id
  pub unarchived : item.lead.archived_at ≡ none
  pub reached : ReachesLead s o.scope item.lead
  pub has_status : (id : String) → o.filter.status_id ≡ some id → id ≢ "" → item.lead.status_id ≡ id
  pub owned :
      (id : String)
      → o.filter.assigned_employee_id ≡ some id
      → id ≢ ""
      → item.lead.assigned_employee_id ≡ some id
  pub queued : InQueue o.filter.queue item
