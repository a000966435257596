-- ===== src/Base/Dict/Keys.antt =====
-- A `Map` holds one entry for each key: what `set` and the loops keep, and what it says of a
-- search through the values.
use Prim.Native.String.{String}
use mathlib.Core.Path.{◌≡◌, refl}
use mathlib.Core.Logic.{inl, inr}
use mathlib.Core.Bool.{Bool, true}
use mathlib.Core.Option.{none, some}
use mathlib.Core.List.{[], ◌∷◌}
use native.Mathlib.Omega.{arith}
use text.Mathlib.TextEquality.{eq_iff}
use text.Mathlib.TextPositions.{eq_refl}
use cylizerapp.Base.Tests.{Bool-cases}
use cylizerapp.Base.Lists.{find}
use cylizerapp.Base.Dict.{Dict, get, set, values, map_values, get-set, get-map_values}

module _ {ℓ} {V : Type ℓ} where
  -- No key stands twice.
  abbrev pub IsMap : Dict V → Type ℓ
  IsMap [] = Unit
  IsMap ((k, v) ∷ m) = (get k m ≡ none) × IsMap m

  pub set-IsMap : (k : String) (v : V) (m : Dict V) → IsMap m → IsMap (set k v m)
  unfolding get set
  set-IsMap k v [] h = (refl, tt)
  set-IsMap k v ((j, w) ∷ m) (new, h) =
      ground (arith, eq_iff j k, eq_iff k j, get-set k j v m, set-IsMap k v m h)

  pub map_values-IsMap : (f : V → V) (m : Dict V) → IsMap m → IsMap (map_values f m)
  unfolding map_values
  map_values-IsMap f [] h = tt
  map_values-IsMap f ((j, w) ∷ m) (new, h) =
      (ground (arith, get-map_values f j m), map_values-IsMap f m h)

  -- What a search through the values finds stands under a key, and meets the test.
  pub find-values :
      (p : V → Bool) (m : Dict V) {v : V}
      → IsMap m
      → find p (values m) ≡ some v
      → (k : String) × (get k m ≡ some v) × (p v ≡ true)
  unfolding get values find
  find-values p [] h e = cc
  find-values p ((j, w) ∷ m) {v} (new, h) e = elim (Bool-cases (p w)) [
    | inl hit ↦ (j, ground (arith, eq_refl j), ground arith)
    | inr miss ↦
        let (k, found, good) = find-values p m {v = v} h (ground arith) in
        (k, ground (arith, eq_iff j k), good)
  ]
