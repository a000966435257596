-- ===== src/Listing/Leads.antt =====
-- `listLeadStatuses`, `listLeads` and `findLeadDetail` of apps/api/src/repository.ts. The code
-- units order of ids, `left.id < right.id`, is a parameter, `earlier_id`.
use cylizerapp.Base.{
  ℕ, String, Bool, true, not, ◌&&◌, ◌||◌, Option, List, [], ◌∷◌, str_eq, ltb, ◌==◌, keep, count,
  length, sort, is_some, or_default,
}
use cylizerapp.Base.Dict.{values}
use cylizerapp.Base.Text.{concat, text_is}
use cylizerapp.Base.Outcome.{Outcome, done, ◌>>=◌}
use cylizerapp.Base.Paging.{Page, page_of, behind}
use cylizerapp.Contracts.Organizations.{IsoDateTime}
use cylizerapp.Contracts.Leads.{Lead, LeadStatus, LeadQueueKey, LeadQueueSummary}
use cylizerapp.Domain.{LeadAccessScope}
use cylizerapp.Domain.Listing.{LeadCursor, LeadListFilter}
use cylizerapp.Repository.{Repository}
use cylizerapp.Lead.Access.{can_access_lead, find_accessible_lead}
use cylizerapp.Lead.Detail.{
  Locale, LeadListItem, LeadDetail, build_lead_list_item, build_lead_detail,
}
use cylizerapp.Listing.Orders.{Searching, mentions, passes_text}

pub record ListLeadsOptions : Type 0 where
  pub organization_id : String
  pub scope : LeadAccessScope
  pub filter : LeadListFilter
  pub after : Option LeadCursor
  pub limit : ℕ
  pub at : IsoDateTime

pub record LeadListResult : Type 0 where
  pub items : List LeadListItem
  pub summary : LeadQueueSummary
  pub has_more : Bool

abbrev position_before : Locale → LeadStatus → LeadStatus → Bool
position_before locale left right =
    ltb left.position right.position
    || (left.position == right.position) && locale.at_most left.id right.id

unfoldable pub list_lead_statuses : Repository → Locale → String → List LeadStatus
list_lead_statuses s locale organization_id = sort (position_before locale) (
    keep (λ status. str_eq status.organization_id organization_id && status.is_active)
      (values s.lead_statuses))

unfoldable pub is_listed : Repository → ListLeadsOptions → Lead → Bool
is_listed s o lead =
    str_eq lead.organization_id o.organization_id
    && not (is_some lead.archived_at)
    && can_access_lead s o.scope lead

-- `accessible.map((lead) => this.buildLeadListItem(lead, at))`, which throws for a lead without a
-- status of its organization.
unfoldable pub build_items :
    Repository → Locale → IsoDateTime → List Lead → Outcome (List LeadListItem)
build_items s locale at [] = done []
build_items s locale at (lead ∷ leads) = do
  item ← build_lead_list_item s locale lead at
  items ← build_items s locale at leads
  done (item ∷ items)

abbrev positive : ℕ → Bool
positive n = ltb 0 n

unfoldable pub in_queue : LeadQueueKey → LeadListItem → Bool
in_queue LeadQueueKey.all item = true
in_queue LeadQueueKey.not_contacted item = not (is_some item.lead.last_contacted_at)
in_queue LeadQueueKey.overdue item = positive item.overdue_follow_up_count
in_queue LeadQueueKey.unreturned_calls item = positive item.unreturned_missed_call_count

unfoldable pub queue_summary : List LeadListItem → LeadQueueSummary
queue_summary items = record {
  total = length items;
  not_contacted = count (in_queue LeadQueueKey.not_contacted) items;
  overdue = count (in_queue LeadQueueKey.overdue) items;
  unreturned_calls = count (in_queue LeadQueueKey.unreturned_calls) items;
}

abbrev lead_text : Lead → String
lead_text lead = concat lead.first_name (
    concat " " (
      concat (or_default lead.last_name "") (
        concat " " (
          concat (or_default lead.company_name "")
            (concat " " (concat lead.phone_number (concat " " (or_default lead.email ""))))))))

unfoldable pub matches_lead : Searching → LeadListFilter → LeadListItem → Bool
matches_lead searching filter item =
    passes_text (λ id. str_eq item.lead.status_id id) filter.status_id
    && passes_text (λ id. text_is item.lead.assigned_employee_id id) filter.assigned_employee_id
    && in_queue filter.queue item
    && mentions searching filter.search (lead_text item.lead)

-- The newest lead first.
unfoldable pub lead_before : Locale → LeadListItem → LeadListItem → Bool
lead_before locale left right =
    ltb right.lead.created_at left.lead.created_at
    || (left.lead.created_at == right.lead.created_at) && locale.at_most right.lead.id left.lead.id

unfoldable pub past_lead : (String → String → Bool) → LeadCursor → LeadListItem → Bool
past_lead earlier_id after item =
    ltb item.lead.created_at after.created_at
    || (item.lead.created_at == after.created_at) && earlier_id item.lead.id after.id

unfoldable pub sorted_leads :
    Locale → Searching → LeadListFilter → List LeadListItem → List LeadListItem
sorted_leads locale searching filter items =
    sort (lead_before locale) (keep (matches_lead searching filter) items)

unfoldable pub lead_page :
    Locale
    → Searching
    → (String → String → Bool)
    → ListLeadsOptions
    → List LeadListItem
    → Page LeadListItem
lead_page locale searching earlier_id o items =
    page_of o.limit
      (behind (past_lead earlier_id) o.after (sorted_leads locale searching o.filter items))

unfoldable pub list_leads :
    Repository
    → Locale
    → Searching
    → (String → String → Bool)
    → ListLeadsOptions
    → Outcome LeadListResult
list_leads s locale searching earlier_id o = do
  items ← build_items s locale o.at (keep (is_listed s o) (values s.leads))
  let page = lead_page locale searching earlier_id o items
  done (record { items = page.items; summary = queue_summary items; has_more = page.has_more })

pub record FindLeadOptions : Type 0 where
  pub organization_id : String
  pub scope : LeadAccessScope
  pub lead_id : String
  pub at : IsoDateTime

unfoldable pub find_lead_detail : Repository → Locale → FindLeadOptions → Outcome LeadDetail
find_lead_detail s locale o = do
  lead ← find_accessible_lead s o.organization_id o.scope o.lead_id
  build_lead_detail s locale lead o.at
