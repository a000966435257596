-- ===== src/Listing/Calls.antt =====
-- `listCalls` and `listCallsInPeriod` of apps/api/src/repository.ts.
use cylizerapp.Base.{
  ℕ, String, Bool, not, ◌&&◌, ◌||◌, Option, List, ltb, leb, ◌==◌, str_eq, keep, sort,
}
use cylizerapp.Base.Dict.{values}
use cylizerapp.Base.Paging.{Page, page_of, behind, cursor_at}
use cylizerapp.Contracts.Organizations.{IsoDateTime}
use cylizerapp.Contracts.Calls.{CallLog, direction_text, disposition_text}
use cylizerapp.Domain.Listing.{CallCursor, CallListFilter}
use cylizerapp.Repository.{Repository}
use cylizerapp.Lead.Detail.{Locale}
use cylizerapp.Listing.Orders.{passes, passes_text}

pub record ListCallsOptions : Type 0 where
  pub organization_id : String
  pub filter : CallListFilter
  pub after : Option CallCursor
  pub limit : ℕ

unfoldable pub matches_filter : String → CallListFilter → CallLog → Bool
matches_filter organization_id filter call =
    str_eq call.organization_id organization_id
    && passes_text (λ id. str_eq call.employee_id id) filter.employee_id
    && passes (λ d. str_eq (direction_text call.direction) (direction_text d)) filter.direction
    && passes (λ d. str_eq (disposition_text call.disposition) (disposition_text d))
        filter.disposition
    && passes (λ from. leb from call.started_at) filter.from
    && passes (λ to. ltb call.started_at to) filter.to

-- The newest call first.
unfoldable pub call_before : Locale → CallLog → CallLog → Bool
call_before locale left right =
    ltb right.started_at left.started_at
    || (left.started_at == right.started_at) && locale.at_most right.id left.id

unfoldable pub past_call : Locale → CallCursor → CallLog → Bool
past_call locale after call =
    ltb call.started_at after.started_at
    || (call.started_at == after.started_at) && not (locale.at_most after.id call.id)

unfoldable pub sorted_calls : Repository → Locale → String → CallListFilter → List CallLog
sorted_calls s locale organization_id filter =
    sort (call_before locale) (keep (matches_filter organization_id filter) (values s.calls))

unfoldable pub list_calls : Repository → Locale → ListCallsOptions → Page CallLog
list_calls s locale o =
    page_of o.limit
      (behind (past_call locale) o.after (sorted_calls s locale o.organization_id o.filter))

pub record PeriodOptions : Type 0 where
  pub organization_id : String
  pub from : IsoDateTime
  pub to : IsoDateTime
  pub employee_id : Option String

unfoldable pub list_calls_in_period : Repository → PeriodOptions → List CallLog
list_calls_in_period s o =
    keep
      (λ call.
        str_eq call.organization_id o.organization_id
        && leb o.from call.started_at
        && ltb call.started_at o.to
        && passes (λ id. str_eq call.employee_id id) o.employee_id)
      (values s.calls)

abbrev pub call_cursor : CallLog → CallCursor
call_cursor call = record { started_at = call.started_at; id = call.id }

-- The page behind the last call that a client has.
abbrev pub next_calls :
    Repository → Locale → String → CallListFilter → ℕ → Option CallLog → Page CallLog
next_calls s locale organization_id filter limit seen = list_calls s locale (record {
  organization_id = organization_id;
  filter = filter;
  after = cursor_at call_cursor seen;
  limit = limit;
})
