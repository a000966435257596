-- ===== src/Listing/Employees.antt =====
-- `listEmployees` of apps/api/src/repository.ts.
use mathlib.Core.List.{Memᴰ}
use cylizerapp.Base.{
  ℕ, ◌≤◌, ◌<◌, String, ◌≡◌, Bool, true, false, not, ◌&&◌, ◌||◌, Option, none, List, str_eq, keep,
  length, sort, arith, eq_iff, or_default,
}
use cylizerapp.Base.Dict.{get, values}
use cylizerapp.Base.Text.{concat, text_is}
use cylizerapp.Base.Outcome.{Outcome, lookup_or_missing, require, done, ◌>>=◌, ◌>>◌}
use cylizerapp.Base.Paging.{Page, page_of, behind, collect, cursor_at}
use cylizerapp.Base.Paging.Cover.{collect-all}
use cylizerapp.Base.Paging.Strict.{IsUntied, sort-IsStrict, mem-of-sort}
use cylizerapp.Contracts.Employees.{Employee, status_text}
use cylizerapp.Domain.Listing.{EmployeeCursor, EmployeeListFilter}
use cylizerapp.Repository.{Repository}
use cylizerapp.Lead.Detail.{Locale}
use cylizerapp.Listing.Orders.{IsOrder, Searching, mentions, passes, passes_text}

pub record ListEmployeesOptions : Type 0 where
  pub organization_id : String
  pub filter : EmployeeListFilter
  pub after : Option EmployeeCursor
  pub limit : ℕ

abbrev searched_text : Employee → String
searched_text e =
    concat e.display_name
      (concat " " (concat (or_default e.email "") (concat " " (or_default e.employee_code ""))))

unfoldable pub matches_employee : Searching → String → EmployeeListFilter → Employee → Bool
matches_employee searching organization_id filter e =
    str_eq e.organization_id organization_id
    && passes (λ status. str_eq (status_text e.status) (status_text status)) filter.status
    && passes_text (λ team. text_is e.team team) filter.team
    && mentions searching filter.search (searched_text e)

-- By name, then by id.
unfoldable pub employee_before : Locale → Employee → Employee → Bool
employee_before locale left right =
    not (locale.at_most right.display_name left.display_name)
    || locale.at_most left.display_name right.display_name
      && locale.at_most right.display_name left.display_name
      && locale.at_most left.id right.id

unfoldable pub past_employee : Locale → EmployeeCursor → Employee → Bool
past_employee locale after e =
    not (locale.at_most e.display_name after.display_name)
    || str_eq e.display_name after.display_name && not (locale.at_most e.id after.id)

unfoldable pub sorted_employees :
    Repository → Locale → Searching → String → EmployeeListFilter → List Employee
sorted_employees s locale searching organization_id filter =
    sort (employee_before locale)
      (keep (matches_employee searching organization_id filter) (values s.employees))

unfoldable pub list_employees :
    Repository → Locale → Searching → ListEmployeesOptions → Page Employee
list_employees s locale searching o = page_of o.limit (
    behind (past_employee locale) o.after
      (sorted_employees s locale searching o.organization_id o.filter))

unfoldable pub find_employee : Repository → String → String → Outcome Employee
find_employee s organization_id employee_id = do
  employee ← lookup_or_missing (get employee_id s.employees)
  require (str_eq employee.organization_id organization_id)
  done employee

abbrev pub employee_cursor : Employee → EmployeeCursor
employee_cursor e = record { display_name = e.display_name; id = e.id }

-- Texts that the locale takes for the same are the same.
abbrev pub IsToldApart : Locale → String → String → Type 0
IsToldApart locale a b = locale.at_most a b ≡ true → locale.at_most b a ≡ true → a ≡ b

-- The locale takes no two different names of these employees for the same.
abbrev pub AreToldApart : Locale → List Employee → Type 0
AreToldApart locale es =
    (x y : Employee) → Memᴰ x es → Memᴰ y es → IsToldApart locale x.display_name y.display_name

employee_agrees :
    (locale : Locale)
    → IsOrder locale
    → (c x : Employee) → IsToldApart locale c.display_name x.display_name
    → past_employee locale (employee_cursor c) x ≡ not (employee_before locale x c)
unfolding past_employee employee_before
employee_agrees locale order c x told = ground (
  arith,
  eq_iff x.display_name c.display_name,
  told,
  order.total x.display_name c.display_name,
  order.total c.display_name x.display_name,
)

employee_before_total :
    (locale : Locale)
    → IsOrder locale
    → (x y : Employee) → employee_before locale x y ≡ false
    → employee_before locale y x ≡ true
unfolding employee_before
employee_before_total locale order x y e =
    ground (arith, order.total x.id y.id, order.total x.display_name y.display_name)

employee_before_trans :
    (locale : Locale)
    → IsOrder locale
    → (x y z : Employee) → employee_before locale x y ≡ true
    → employee_before locale y z ≡ true
    → employee_before locale x z ≡ true
unfolding employee_before
employee_before_trans locale order x y z a b =
    let p = x.display_name in
    let q = y.display_name in
    let r = z.display_name in
    ground (
      arith,
      order.transitive x.id y.id z.id,
      order.transitive p q r,
      order.transitive r p q,
      order.transitive q r p,
      order.transitive r q p,
      order.total p q,
      order.total q r,
      order.total p r,
    )

employee_before_self :
    (locale : Locale) → IsOrder locale → (c : Employee) → employee_before locale c c ≡ true
unfolding employee_before
employee_before_self locale order c =
    ground (arith, order.total c.id c.id, order.total c.display_name c.display_name)

-- The page behind the last employee that a client has.
abbrev pub next_employees :
    Repository
    → Locale
    → Searching
    → String
    → EmployeeListFilter
    → ℕ
    → Option Employee
    → Page Employee
next_employees s locale searching organization_id filter limit seen =
    list_employees s locale searching (record {
      organization_id = organization_id;
      filter = filter;
      after = cursor_at employee_cursor seen;
      limit = limit;
    })

-- A client that asks `listEmployees` page after page, each behind the last employee it has, has
-- after finitely many pages exactly the matching employees, by name, none twice and none left out.
-- The page limit must be at least 1, `localeCompare` an order, and among the matching employees no
-- two may have different names that the locale takes for the same, nor both the same name and ids
-- that it takes for the same.
pub collect-list_employees :
    (s : Repository) (locale : Locale) (searching : Searching) (organization_id : String)
    (filter : EmployeeListFilter) (limit fuel : ℕ)
    → IsOrder locale
    → AreToldApart locale
        (keep (matches_employee searching organization_id filter) (values s.employees))
    → IsUntied
        (employee_before locale)
        (keep (matches_employee searching organization_id filter) (values s.employees))
    → 1 ≤ limit
    → length (sorted_employees s locale searching organization_id filter) < fuel
    → collect (next_employees s locale searching organization_id filter limit) fuel none
      ≡ sorted_employees s locale searching organization_id filter
unfolding list_employees sorted_employees
collect-list_employees s locale searching organization_id filter limit fuel order told untied
      some_limit enough =
    let before = employee_before locale in
    collect-all (employee_before locale) (past_employee locale) employee_cursor limit
      (sorted_employees s locale searching organization_id filter) some_limit
      (λ c x m n.
        employee_agrees locale order c x
          (told c x (mem-of-sort before _ m) (mem-of-sort before _ n)))
      (employee_before_self locale order)
      (sort-IsStrict (employee_before locale) (employee_before_total locale order)
        (employee_before_trans locale order) _ untied)
      fuel enough
