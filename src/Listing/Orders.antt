-- ===== src/Listing/Orders.antt =====
-- Text as the listings of apps/api/src/repository.ts compare and search it. What the platform's
-- locale decides is a parameter, with what is documented of it.
use cylizerapp.Base.{String, ◌≡◌, Bool, true, false, Option, none, some}
use cylizerapp.Base.Text.{truthy}
use cylizerapp.Lead.Detail.{Locale}

-- `localeCompare` orders the texts. Different texts may be the same to it, such as two spellings of
-- an accent.
pub record IsOrder (locale : Locale) : Type 0 where
  pub total : (a b : String) → locale.at_most a b ≡ false → locale.at_most b a ≡ true
  pub transitive :
      (a b c : String)
      → locale.at_most a b ≡ true
      → locale.at_most b c ≡ true
      → locale.at_most a c ≡ true

-- `trim`, `toLocaleLowerCase` and `includes`.
pub record Searching : Type 0 where
  pub trim : String → String
  pub lower : String → String
  pub includes : String → String → Bool

-- `!search || text.toLocaleLowerCase().includes(search)`, where `search` is
-- `filter.search?.trim().toLocaleLowerCase()`.
abbrev normalized : Searching → Option String → Option String
normalized searching none = none
normalized searching (some search) = some (searching.lower (searching.trim search))

abbrev pub mentions : Searching → Option String → String → Bool
mentions searching search text = elim (truthy (normalized searching search)) [
  | none ↦ true
  | some wanted ↦ searching.includes (searching.lower text) wanted
]

-- A filter that is not given lets everything pass.
abbrev pub passes {ℓ} : {A : Type ℓ} → (A → Bool) → Option A → Bool
passes test none = true
passes test (some wanted) = test wanted

-- The same of a text filter, where the empty text is as good as none.
abbrev pub passes_text : (String → Bool) → Option String → Bool
passes_text test wanted = passes test (truthy wanted)
