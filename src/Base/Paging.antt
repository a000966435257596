-- ===== src/Base/Paging.antt =====
-- Listing by pages: a sorted array, the part behind a cursor, and `limit` entries of it, as the
-- list operations of apps/api/src/repository.ts return them.
pub mod Cover
pub mod Strict
use cylizerapp.Base.{
  ℕ, zero, suc, Bool, Option, none, some, List, [], ◌∷◌, ◌++◌, keep, length, take, ltb,
  if◌then◌else◌,
}

pub record Page {ℓ} (A : Type ℓ) : Type ℓ where
  pub items : List A
  pub has_more : Bool

module _ {ℓ} {A : Type ℓ} where
  -- `page = xs.slice(0, limit + 1)`; the page without the probe, and whether the probe is there.
  abbrev pub page_of : ℕ → List A → Page A
  page_of limit xs =
      let page = take (suc limit) xs in
      record { items = take limit page; has_more = ltb limit (length page) }

  abbrev pub last : Option A → List A → Option A
  last found [] = found
  last found (x ∷ xs) = last (some x) xs

  module _ {κ} {C : Type κ} where
    -- The entries behind the cursor, all of them without one.
    abbrev pub behind : (C → A → Bool) → Option C → List A → List A
    behind past none xs = xs
    behind past (some cursor) xs = keep (past cursor) xs

    abbrev pub cursor_at : (A → C) → Option A → Option C
    cursor_at cursor_of none = none
    cursor_at cursor_of (some x) = some (cursor_of x)

  -- A client that asks page after page, each behind the last entry that it has.
  unfoldable pub collect : (Option A → Page A) → ℕ → Option A → List A
  collect ask zero seen = []
  collect ask (suc fuel) seen =
      let page = ask seen in
      let rest = collect ask fuel (last seen page.items) in
      page.items ++ (if page.has_more then rest else [])
