-- ===== src/Base/Members.antt =====
-- What a test of all or of some entries of a list says of the entries.
use mathlib.Core.List.Memᴰ
use mathlib.Core.List.{Memᴰ}
use cylizerapp.Base.{
  String, ◌≡◌, refl, sym, ap, ◌∙◌, inl, inr, Bool, true, List, [], ◌∷◌, arith, Bool-cases, any,
  every, eq_iff, str_eq,
}

module _ {ℓ} {A : Type ℓ} where
  pub every-mem : (p : A → Bool) (xs : List A) {x : A} → every p xs ≡ true → Memᴰ x xs → p x ≡ true
  unfolding every
  every-mem p [] h m = absurd (Memᴰ.not-nil m)
  every-mem p (y ∷ ys) h (Memᴰ.head e) = let first : p y ≡ true = ground arith in ap p e ∙ first
  every-mem p (y ∷ ys) h (Memᴰ.tail m) = every-mem p ys (ground arith) m

  pub any-mem : (p : A → Bool) (xs : List A) {x : A} → p x ≡ true → Memᴰ x xs → any p xs ≡ true
  unfolding any
  any-mem p [] h m = absurd (Memᴰ.not-nil m)
  any-mem p (y ∷ ys) h (Memᴰ.head e) = let first : p y ≡ true = ap p (sym e) ∙ h in ground arith
  any-mem p (y ∷ ys) h (Memᴰ.tail m) = let rest = any-mem p ys h m in ground arith

  pub mem-any : (p : A → Bool) (xs : List A) → any p xs ≡ true → (x : A) × Memᴰ x xs × (p x ≡ true)
  unfolding any
  mem-any p [] h = absurd cc
  mem-any p (y ∷ ys) h = elim (Bool-cases (p y)) [
    | inl first ↦ (y, Memᴰ.head refl, first)
    | inr fails ↦ let (x, m, holds) = mem-any p ys (ground arith) in (x, Memᴰ.tail m, holds)
  ]

pub str_eq-eq : (a b : String) → str_eq a b ≡ true → a ≡ b
str_eq-eq a b h = ground (arith, eq_iff a b)
