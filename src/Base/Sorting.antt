-- ===== src/Base/Sorting.antt =====
-- The stable sort of an array and the first match in it, for a comparison that follows a rank.
use mathlib.Core.Option.{some-injective}
use mathlib.Core.List.Memᴰ
use mathlib.Core.List.{Memᴰ}
use cylizerapp.Base.{
  ℕ, ◌≤◌, ◌≡◌, refl, sym, ap, subst, ◌∙◌, ◌⊎◌, inl, inr, Bool, true, false, some, List, [], ◌∷◌,
  arith, Bool-cases, keep, find, sort, insert_sorted,
}

true_not_false : true ≡ false → ⊥
true_not_false e = cc

module _ {ℓ} {A : Type ℓ} where
  pub mem-keep : (p : A → Bool) (xs : List A) {x : A} → Memᴰ x xs → p x ≡ true → Memᴰ x (keep p xs)
  unfolding keep
  mem-keep p [] m h = absurd (Memᴰ.not-nil m)
  mem-keep p (y ∷ ys) (Memᴰ.head e) h = elim (Bool-cases (p y)) [
    | inl holds ↦ rw holds (Memᴰ.head e)
    | inr fails ↦ absurd (true_not_false (sym h ∙ ap p e ∙ fails))
  ]
  mem-keep p (y ∷ ys) (Memᴰ.tail m) h = elim (Bool-cases (p y)) [
    | inl holds ↦ rw holds (Memᴰ.tail (mem-keep p ys m h))
    | inr fails ↦ rw fails (mem-keep p ys m h)
  ]

  pub mem-of-keep :
      (p : A → Bool) (xs : List A) {x : A} → Memᴰ x (keep p xs) → Memᴰ x xs × (p x ≡ true)
  unfolding keep
  mem-of-keep p [] m = absurd (Memᴰ.not-nil m)
  mem-of-keep p (y ∷ ys) {x} m = elim (Bool-cases (p y)) [
    | inl holds ↦ elim (Memᴰ.cases_cons (rw holds at m)) [
      | inl e ↦ (Memᴰ.head e, ap p e ∙ holds)
      | inr m' ↦ let (old, h) = mem-of-keep p ys m' in (Memᴰ.tail old, h)
    ]
    | inr fails ↦ let (old, h) = mem-of-keep p ys (rw fails at m) in (Memᴰ.tail old, h)
  ]

  pub mem-find : (p : A → Bool) (xs : List A) {a : A} → find p xs ≡ some a → Memᴰ a xs
  unfolding find
  mem-find p [] e = cc
  mem-find p (x ∷ xs) {a} e = elim (Bool-cases (p x)) [
    | inl holds ↦ Memᴰ.head (sym (some-injective x a (rw holds at e)))
    | inr fails ↦ Memᴰ.tail (mem-find p xs (rw fails at e))
  ]

  module _ (before : A → A → Bool) (rank : A → ℕ)
      (follows : (x y : A) → before x y ≡ true → rank x ≤ rank y)
      (precedes : (x y : A) → before x y ≡ false → rank y ≤ rank x) where
    abbrev pub IsAscending : List A → Type ℓ
    IsAscending [] = Unit
    IsAscending (x ∷ xs) = ((y : A) → Memᴰ y xs → rank x ≤ rank y) × IsAscending xs

    mem-of-insert :
        (x : A) (xs : List A) {y : A} → Memᴰ y (insert_sorted before x xs) → (y ≡ x) ⊎ Memᴰ y xs
    unfolding insert_sorted
    mem-of-insert x [] m = Memᴰ.cases_cons m
    mem-of-insert x (z ∷ zs) {y} m = elim (Bool-cases (before x z)) [
      | inl first ↦ Memᴰ.cases_cons (rw first at m)
      | inr later ↦ elim (Memᴰ.cases_cons (rw later at m)) [
        | inl same ↦ inr (Memᴰ.head same)
        | inr rest ↦ elim (mem-of-insert x zs rest) [
          | inl same ↦ inl same
          | inr old ↦ inr (Memᴰ.tail old)
        ]
      ]
    ]

    mem-insert :
        (x : A) (xs : List A) {y : A} → (y ≡ x) ⊎ Memᴰ y xs → Memᴰ y (insert_sorted before x xs)
    unfolding insert_sorted
    mem-insert x [] (inl same) = Memᴰ.head same
    mem-insert x [] (inr m) = absurd (Memᴰ.not-nil m)
    mem-insert x (z ∷ zs) {y} (inl same) = elim (Bool-cases (before x z)) [
      | inl first ↦ rw first (Memᴰ.head same)
      | inr later ↦ rw later (Memᴰ.tail (mem-insert x zs (inl same)))
    ]
    mem-insert x (z ∷ zs) {y} (inr (Memᴰ.head same)) = elim (Bool-cases (before x z)) [
      | inl first ↦ rw first (Memᴰ.tail (Memᴰ.head same))
      | inr later ↦ rw later (Memᴰ.head same)
    ]
    mem-insert x (z ∷ zs) {y} (inr (Memᴰ.tail m)) = elim (Bool-cases (before x z)) [
      | inl first ↦ rw first (Memᴰ.tail (Memᴰ.tail m))
      | inr later ↦ rw later (Memᴰ.tail (mem-insert x zs (inr m)))
    ]

    pub mem-sort : (xs : List A) {y : A} → Memᴰ y xs → Memᴰ y (sort before xs)
    unfolding sort
    mem-sort [] m = absurd (Memᴰ.not-nil m)
    mem-sort (x ∷ xs) (Memᴰ.head e) = mem-insert x (sort before xs) (inl e)
    mem-sort (x ∷ xs) (Memᴰ.tail m) = mem-insert x (sort before xs) (inr (mem-sort xs m))

    pub mem-of-sort : (xs : List A) {y : A} → Memᴰ y (sort before xs) → Memᴰ y xs
    unfolding sort
    mem-of-sort [] m = m
    mem-of-sort (x ∷ xs) m = elim (mem-of-insert x (sort before xs) m) [
      | inl e ↦ Memᴰ.head e
      | inr m' ↦ Memᴰ.tail (mem-of-sort xs m')
    ]

    insert-IsAscending :
        (x : A) (xs : List A) → IsAscending xs → IsAscending (insert_sorted before x xs)
    unfolding insert_sorted
    insert-IsAscending x [] h = (λ y m. absurd (Memᴰ.not-nil m), tt)
    insert-IsAscending x (z ∷ zs) (least, rest) = elim (Bool-cases (before x z)) [
      | inl first ↦ rw first (
        λ y m. elim (Memᴰ.cases_cons m) [
          | inl same ↦ subst (λ v. rank x ≤ rank v) (sym same) (follows x z first)
          | inr m' ↦ let a = follows x z first in let b = least y m' in omega arith
        ],
        (least, rest),
      )
      | inr later ↦ rw later (
        λ y m. elim (mem-of-insert x zs m) [
          | inl same ↦ subst (λ v. rank z ≤ rank v) (sym same) (precedes x z later)
          | inr m' ↦ least y m'
        ],
        insert-IsAscending x zs rest,
      )
    ]

    sort-IsAscending : (xs : List A) → IsAscending (sort before xs)
    unfolding sort
    sort-IsAscending [] = tt
    sort-IsAscending (x ∷ xs) = insert-IsAscending x (sort before xs) (sort-IsAscending xs)

    find-IsAscending :
        (p : A → Bool) (xs : List A) {y : A}
        → IsAscending xs
        → Memᴰ y xs
        → p y ≡ true
        → (a : A) × (find p xs ≡ some a) × (rank a ≤ rank y)
    unfolding find
    find-IsAscending p [] h m e = absurd (Memᴰ.not-nil m)
    find-IsAscending p (x ∷ xs) {y} (least, rest) m e = elim (Bool-cases (p x)) [
      | inl holds ↦ rw holds (
        x,
        refl,
        elim (Memᴰ.cases_cons m) [
          | inl same ↦ subst (λ v. rank x ≤ rank v) (sym same) (omega arith)
          | inr m' ↦ least y m'
        ],
      )
      | inr fails ↦ rw fails (elim (Memᴰ.cases_cons m) [
        | inl same ↦ absurd (true_not_false (sym e ∙ ap p same ∙ fails))
        | inr m' ↦ find-IsAscending p xs rest m' e
      ])
    ]

    -- The first match of the sorted array has the least rank of all matches.
    pub find-sort :
        (p : A → Bool) (xs : List A) {y : A}
        → Memᴰ y xs
        → p y ≡ true
        → (a : A) × (find p (sort before xs) ≡ some a) × (rank a ≤ rank y)
    find-sort p xs m e = find-IsAscending p (sort before xs) (sort-IsAscending xs) (mem-sort xs m) e
