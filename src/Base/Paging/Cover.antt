-- ===== src/Base/Paging/Cover.antt =====
-- The pages of a listing, one after the other, are the whole listing: no entry is left out and
-- none comes twice.
use mathlib.Core.List.{Memᴰ, append-nil, append_assoc}
use cylizerapp.Base.{
  ℕ, zero, suc, ◌+◌, ◌≤◌, ◌<◌, ◌≡◌, refl, sym, ap, subst, ◌∙◌, inl, inr, Bool, true, false, not,
  Option, none, some, List, [], ◌∷◌, ◌++◌, arith, Bool-cases, keep, length, take, ltb, ltb→lt,
}
use cylizerapp.Base.Paging.{Page, page_of, behind, last, cursor_at, collect}

module _ {ℓ} {A : Type ℓ} where
  abbrev drop : ℕ → List A → List A
  drop zero xs = xs
  drop (suc n) [] = []
  drop (suc n) (x ∷ xs) = drop n xs

  take-drop : (n : ℕ) (xs : List A) → take n xs ++ drop n xs ≡ xs
  take-drop zero xs = refl
  take-drop (suc n) [] = refl
  take-drop (suc n) (x ∷ xs) = ap (λ ys. x ∷ ys) (take-drop n xs)

  take-take : (n : ℕ) (xs : List A) → take n (take (suc n) xs) ≡ take n xs
  take-take zero xs = refl
  take-take (suc n) [] = refl
  take-take (suc n) (x ∷ xs) = ap (λ ys. x ∷ ys) (take-take n xs)

  probe : (n : ℕ) (xs : List A) → ltb n (length (take (suc n) xs)) ≡ ltb n (length xs)
  probe zero [] = refl
  probe zero (x ∷ xs) = ground arith
  probe (suc n) [] = refl
  probe (suc n) (x ∷ xs) = ground (arith, probe n xs)

  take-all : (n : ℕ) (xs : List A) → length xs ≤ n → take n xs ≡ xs
  take-all zero [] h = refl
  take-all zero (x ∷ xs) h = absurd (omega arith)
  take-all (suc n) [] h = refl
  take-all (suc n) (x ∷ xs) h = ap (λ ys. x ∷ ys) (take-all n xs (omega arith))

  length-drop : (n : ℕ) (xs : List A) → n ≤ length xs → length (drop n xs) + n ≡ length xs
  length-drop zero xs h = omega arith
  length-drop (suc n) [] h = omega arith
  length-drop (suc n) (x ∷ xs) h = let e = length-drop n xs (omega arith) in omega arith

  -- The last entry of a list that is not empty.
  last-split :
      (found : Option A) (x : A) (xs : List A)
      → (c : A) × (front : List A) × (last found (x ∷ xs) ≡ some c) × (x ∷ xs ≡ front ++ (c ∷ []))
  last-split found x [] = (x, [], refl, refl)
  last-split found x (y ∷ ys) =
      let (c, front, e, split) = last-split (some x) y ys in
      (c, x ∷ front, e, ap (λ zs. x ∷ zs) split)

  -- Each entry may stand in front of all later ones, and none of those in front of it.
  abbrev pub IsStrict : (A → A → Bool) → List A → Type ℓ
  IsStrict before [] = Unit
  IsStrict before (x ∷ xs) =
      ((y : A) → Memᴰ y xs → (before x y ≡ true) × (before y x ≡ false)) × IsStrict before xs

  module _ {κ} {C : Type κ} (before : A → A → Bool) (past : C → A → Bool) (cursor_of : A → C) where
    -- What is past an entry's cursor may not stand in front of the entry.
    abbrev pub IsAgreed : A → A → Type 0
    IsAgreed c x = past (cursor_of c) x ≡ not (before x c)

    keep-later :
        (c : A) (zs : List A)
        → ((z : A) → Memᴰ z zs → IsAgreed c z)
        → ((z : A) → Memᴰ z zs → before z c ≡ false)
        → keep (past (cursor_of c)) zs ≡ zs
    unfolding keep
    keep-later c [] agrees h = refl
    keep-later c (z ∷ zs) agrees h =
        rw (agrees z (Memᴰ.head refl), h z (Memᴰ.head refl))
          (ap (λ ys. z ∷ ys)
            (keep-later c zs (λ y m. agrees y (Memᴰ.tail m)) (λ y m. h y (Memᴰ.tail m))))

    mem-middle : (ys : List A) (c : A) (zs : List A) → Memᴰ c (ys ++ (c ∷ zs))
    mem-middle [] c zs = Memᴰ.head refl
    mem-middle (y ∷ ys) c zs = Memᴰ.tail (mem-middle ys c zs)

    behind-split :
        (ys : List A) (c : A) (zs : List A)
        → ((z : A) → Memᴰ z (ys ++ (c ∷ zs)) → IsAgreed c z)
        → before c c ≡ true
        → IsStrict before (ys ++ (c ∷ zs))
        → keep (past (cursor_of c)) (ys ++ (c ∷ zs)) ≡ zs
    unfolding keep
    behind-split [] c zs agrees self (later, strict) =
        rw (agrees c (Memᴰ.head refl), self)
          (keep-later c zs (λ z m. agrees z (Memᴰ.tail m)) (λ z m. (later z m).1))
    behind-split (y ∷ ys) c zs agrees self (later, strict) =
        rw (agrees y (Memᴰ.head refl), (later c (mem-middle ys c zs)).0)
          (behind-split ys c zs (λ z m. agrees z (Memᴰ.tail m)) self strict)

    module _ (limit : ℕ) (xs : List A) (some_limit : 1 ≤ limit)
        (agrees : (c x : A) → Memᴰ c xs → Memᴰ x xs → IsAgreed c x)
        (reflexive : (c : A) → before c c ≡ true) (strict : IsStrict before xs) where
      -- The page of `rest` in full, and whether there is more.
      abbrev pub ask : Option A → Page A
      ask seen = page_of limit (behind past (cursor_at cursor_of seen) xs)

      next-behind :
          (seen : List A) (cursor : Option A) (rest : List A)
          → xs ≡ seen ++ rest
          → limit ≤ length rest
          → behind past (cursor_at cursor_of (last cursor (take limit rest))) xs ≡ drop limit rest
      next-behind seen cursor rest whole long = go limit some_limit rest whole long
        where
          go :
              (n : ℕ)
              → 1 ≤ n
              → (rest : List A) → xs ≡ seen ++ rest
              → n ≤ length rest
              → behind past (cursor_at cursor_of (last cursor (take n rest))) xs ≡ drop n rest
          go zero h rest whole long = absurd (omega arith)
          go (suc n) h [] whole long = absurd (omega arith)
          go (suc n) h (x ∷ rest) whole long =
              let (c, front, e, split) = last-split cursor x (take n rest) in
              let pieces : xs ≡ (seen ++ front) ++ (c ∷ drop n rest) =
                whole
                ∙ ap (λ ys. seen ++ (x ∷ ys)) (sym (take-drop n rest))
                ∙ ap (λ ys. seen ++ (ys ++ drop n rest)) split
                ∙ ap (λ ys. seen ++ ys) (append_assoc front (c ∷ []) (drop n rest))
                ∙ sym (append_assoc seen front (c ∷ drop n rest)) in
              let listed : Memᴰ c xs =
                subst (Memᴰ c) (sym pieces) (mem-middle (seen ++ front) c (drop n rest)) in
              rw (e, pieces)
                (behind-split (seen ++ front) c (drop n rest)
                  (λ z m. agrees c z listed (subst (Memᴰ z) (sym pieces) m)) (reflexive c)
                  (subst (IsStrict before) pieces strict))

      collect-rest :
          (fuel : ℕ) (cursor : Option A) (seen rest : List A)
          → xs ≡ seen ++ rest
          → behind past (cursor_at cursor_of cursor) xs ≡ rest
          → length rest < fuel
          → collect ask fuel cursor ≡ rest
      unfolding collect
      collect-rest zero cursor seen rest whole e enough = absurd (omega arith)
      collect-rest (suc fuel) cursor seen rest whole e enough =
          elim (Bool-cases (ltb limit (length rest))) [
            | inl more ↦
                let long : limit < length rest = ltb→lt limit (length rest) more in
                let cut = length-drop limit rest (omega arith) in
                let onward =
                  collect-rest fuel (last cursor (take limit rest)) (seen ++ take limit rest)
                    (drop limit rest)
                    (whole
                      ∙ ap (λ ys. seen ++ ys) (sym (take-drop limit rest))
                      ∙ sym (append_assoc seen (take limit rest) (drop limit rest)))
                    (next-behind seen cursor rest whole (omega arith)) (omega arith) in
                rw (collect, e, probe limit rest, more, take-take limit rest, onward)
                  (take-drop limit rest)
            | inr done ↦
                rw
                  (
                    collect,
                    e,
                    probe limit rest,
                    done,
                    take-take limit rest,
                    append-nil (take limit rest),
                  )
                  (take-all limit rest (ground (arith)))
          ]

      -- All pages of a strictly ordered listing, put together, are the listing.
      pub collect-all : (fuel : ℕ) → length xs < fuel → collect ask fuel none ≡ xs
      collect-all fuel enough = collect-rest fuel none [] xs refl refl enough
