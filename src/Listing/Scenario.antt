-- ===== src/Listing/Scenario.antt =====
-- Test data for the listings: a locale that orders texts by code points, employees and calls.
use mathlib.Core.List.Memᴰ
use Prim.Native.Nat.{compare, Ordering}
use Prim.Native.Char.{code}
use text.Mathlib.TextEquality.{codes_equal}
use cylizerapp.Base.{
  String, ◌≡◌, refl, sym, ap, subst, inl, inr, ◌∙◌, Bool, true, false, ◌&&◌, ◌||◌, none, [], ◌∷◌,
  ltb, ◌==◌, arith,
}
use cylizerapp.Base.Paging.Strict.{IsUntied}
use cylizerapp.Domain.Listing.{CallListFilter, EmployeeListFilter}
use cylizerapp.Contracts.Calls.{CallLog}
use cylizerapp.Contracts.Employees.{Employee}
use cylizerapp.Repository.{Repository}
use cylizerapp.Lead.Detail.{Locale}
use cylizerapp.Listing.Orders.{IsOrder, Searching}
use cylizerapp.Calls.Scenario.{staffed, simulated}
use cylizerapp.Calls.Single.{new_call}
use cylizerapp.Mobile.Scenario.{asha}

abbrev at_most_text : String → String → Bool
at_most_text String.[] t = true
at_most_text (String.◌∷◌ c s) String.[] = false
at_most_text (String.◌∷◌ c s) (String.◌∷◌ d t) =
    ltb (code c) (code d) || (code c == code d) && at_most_text s t

text_total : (s t : String) → at_most_text s t ≡ false → at_most_text t s ≡ true
text_total String.[] t e = cc
text_total (String.◌∷◌ c s) String.[] e = refl
text_total (String.◌∷◌ c s) (String.◌∷◌ d t) e = ground (arith, text_total s t)

text_trans :
    (s t u : String) → at_most_text s t ≡ true → at_most_text t u ≡ true → at_most_text s u ≡ true
text_trans String.[] t u a b = refl
text_trans (String.◌∷◌ c s) String.[] u a b = cc
text_trans (String.◌∷◌ c s) (String.◌∷◌ d t) String.[] a b = cc
text_trans (String.◌∷◌ c s) (String.◌∷◌ d t) (String.◌∷◌ e u) a b = ground (arith, text_trans s t u)

pub text_antisymmetric : (s t : String) → at_most_text s t ≡ true → at_most_text t s ≡ true → s ≡ t
text_antisymmetric String.[] String.[] a b = refl
text_antisymmetric String.[] (String.◌∷◌ d t) a b = cc
text_antisymmetric (String.◌∷◌ c s) String.[] a b = cc
text_antisymmetric (String.◌∷◌ c s) (String.◌∷◌ d t) a b =
    let same : compare (code c) (code d) ≡ Ordering.eq = ground arith in
    let rest : s ≡ t = text_antisymmetric s t (ground arith) (ground arith) in
    ap (λ x. String.◌∷◌ x s) (codes_equal c d same) ∙ ap (λ x. String.◌∷◌ d x) rest

abbrev pub by_code : Locale
by_code = record { at_most = at_most_text; mentions_missed = λ text. false }

pub by_code-IsOrder : IsOrder by_code
by_code-IsOrder = record { total = text_total; transitive = text_trans }

abbrev pub searching : Searching
searching = record { trim = λ s. s; lower = λ s. s; includes = λ text wanted. true }

abbrev pub named_call : String → CallLog
named_call id = record (new_call staffed simulated) { id = id }

abbrev pub namesake : Employee
namesake = record asha { id = "emp_2" }

-- Two calls with the same start.
abbrev pub two_calls : Repository
two_calls = record staffed {
  calls = ("call_1", named_call "call_1") ∷ ("call_2", named_call "call_2") ∷ [];
}

abbrev pub every_call : CallListFilter
every_call = record {
  employee_id = none;
  direction = none;
  disposition = none;
  from = none;
  to = none;
}

-- Two employees with the same name.
abbrev pub two_employees : Repository
two_employees = record staffed { employees = ("emp_1", asha) ∷ ("emp_2", namesake) ∷ [] }

abbrev pub every_employee : EmployeeListFilter
every_employee = record { search = none; status = none; team = none }

-- Two entries are untied when the first, if it may stand in front, may not stand behind.
pub pair-IsUntied :
    {A : Type 0} (before : A → A → Bool) (x y : A)
    → (before x y ≡ true → before y x ≡ false)
    → IsUntied before (x ∷ y ∷ [])
pair-IsUntied before x y h = (
  λ z m. elim (Memᴰ.cases_cons m) [
    | inl same ↦ subst (λ v. before x v ≡ true → before v x ≡ false) (sym same) h
    | inr rest ↦ absurd (Memᴰ.not-nil rest)
  ],
  (λ z m. absurd (Memᴰ.not-nil m), tt),
)
