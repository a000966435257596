-- ===== src/Base/Paging/Strict.antt =====
-- Sorting an array without ties leaves it strictly ordered.
use mathlib.Core.List.Memᴰ
use mathlib.Core.List.{Memᴰ}
use cylizerapp.Base.{
  ◌≡◌, refl, sym, subst, ◌⊎◌, inl, inr, Bool, true, false, List, [], ◌∷◌, Bool-cases, sort,
  insert_sorted,
}
use cylizerapp.Base.Paging.Cover.{IsStrict}

-- No two entries may each stand in front of the other.
abbrev pub IsUntied {ℓ} : {A : Type ℓ} → (A → A → Bool) → List A → Type ℓ
IsUntied before [] = Unit
IsUntied before (x ∷ xs) =
    ((y : _) → Memᴰ y xs → before x y ≡ true → before y x ≡ false) × IsUntied before xs

module _ {ℓ} {A : Type ℓ} (before : A → A → Bool) where
  mem-of-insert :
      (x : A) (xs : List A) {y : A} → Memᴰ y (insert_sorted before x xs) → (y ≡ x) ⊎ Memᴰ y xs
  unfolding insert_sorted
  mem-of-insert x [] m = Memᴰ.cases_cons m
  mem-of-insert x (z ∷ zs) {y} m = elim (Bool-cases (before x z)) [
    | inl first ↦ Memᴰ.cases_cons (rw first at m)
    | inr later ↦ elim (Memᴰ.cases_cons (rw later at m)) [
      | inl same ↦ inr (Memᴰ.head same)
      | inr rest ↦ elim (mem-of-insert x zs rest) [
        | inl same ↦ inl same
        | inr old ↦ inr (Memᴰ.tail old)
      ]
    ]
  ]

  pub mem-of-sort : (xs : List A) {y : A} → Memᴰ y (sort before xs) → Memᴰ y xs
  unfolding sort
  mem-of-sort [] m = m
  mem-of-sort (x ∷ xs) m = elim (mem-of-insert x (sort before xs) m) [
    | inl e ↦ Memᴰ.head e
    | inr m' ↦ Memᴰ.tail (mem-of-sort xs m')
  ]

module _ {ℓ} {A : Type ℓ} (before : A → A → Bool)
    (total : (x y : A) → before x y ≡ false → before y x ≡ true)
    (transitive : (x y z : A) → before x y ≡ true → before y z ≡ true → before x z ≡ true) where
  insert-IsStrict :
      (x : A) (xs : List A)
      → ((y : A) → Memᴰ y xs → before x y ≡ true → before y x ≡ false)
      → IsStrict before xs
      → IsStrict before (insert_sorted before x xs)
  unfolding insert_sorted
  insert-IsStrict x [] untied h = (λ y m. absurd (Memᴰ.not-nil m), tt)
  insert-IsStrict x (z ∷ zs) untied (later, strict) = elim (Bool-cases (before x z)) [
    | inl first ↦ rw first (
      λ y m. elim (Memᴰ.cases_cons m) [
        | inl same ↦
            subst (λ v. (before x v ≡ true) × (before v x ≡ false)) (sym same)
              (first, untied z (Memᴰ.head refl) first)
        | inr m' ↦
            let in_front = transitive x z y first (later y m').0 in
            (in_front, untied y (Memᴰ.tail m') in_front)
      ],
      (later, strict),
    )
    | inr after ↦ rw after (
      λ y m. elim (mem-of-insert before x zs m) [
        | inl same ↦
            subst (λ v. (before z v ≡ true) × (before v z ≡ false)) (sym same)
              (total x z after, after)
        | inr m' ↦ later y m'
      ],
      insert-IsStrict x zs (λ y m. untied y (Memᴰ.tail m)) strict,
    )
  ]

  pub sort-IsStrict : (xs : List A) → IsUntied before xs → IsStrict before (sort before xs)
  unfolding sort
  sort-IsStrict [] h = tt
  sort-IsStrict (x ∷ xs) (untied, rest) =
      insert-IsStrict x (sort before xs) (λ y m. untied y (mem-of-sort before xs m))
        (sort-IsStrict xs rest)
