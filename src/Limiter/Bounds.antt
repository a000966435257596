-- ===== src/Limiter/Bounds.antt =====
-- The bounds of the limiter of apps/api/src/security.ts: what pruning and a new attempt keep.
use cylizerapp.Base.{
  ℕ, suc, ◌≤◌, ◌<◌, String, ◌≡◌, refl, sym, ap, subst, ◌∙◌, Bool, true, false, Option, none, some,
  List, [], ◌∷◌, ◌++◌, arith, eq_iff, str_eq, length, keep, or_default, length-append,
  length-keep-le, Bool-cases, inl, inr, ◌⊎◌, if◌then◌else◌,
}
use cylizerapp.Base.Dict.{Dict, get, has, set, get-set}
use cylizerapp.Base.Dict.Keys.{IsMap, set-IsMap}
use cylizerapp.Limiter.Attempts.{
  Limiter, is_recent, recent, keep_entry, prune_entries, prune_expired, attempts_of,
}

-- No key stands twice, no key has more attempts than allowed, and there are no more keys than
-- allowed.
pub record IsBounded (limiter : Limiter) : Type 0 where
  pub is_map : IsMap limiter.failures
  pub few_attempts : (key : String) → length (attempts_of limiter key) ≤ limiter.maximum_attempts
  pub few_keys : length limiter.failures ≤ limiter.maximum_tracked_keys

-- What pruning leaves of one entry.
abbrev pub non_empty : List ℕ → Option (List ℕ)
non_empty [] = none
non_empty (v ∷ vs) = some (v ∷ vs)

abbrev pub pruned_of : Limiter → ℕ → Option (List ℕ) → Option (List ℕ)
pruned_of limiter now none = none
pruned_of limiter now (some values) = non_empty (recent limiter now values)

get-keep_entry :
    (k key : String) (l : List ℕ) (m : Dict (List ℕ))
    → get k m ≡ none
    → get key (keep_entry k l m) ≡ (if str_eq k key then non_empty l else get key m)
unfolding get
get-keep_entry k key [] m new = ground (arith, eq_iff k key)
get-keep_entry k key (v ∷ vs) m new = refl

pub length-keep_entry-le :
    (k : String) (l : List ℕ) (m : Dict (List ℕ)) → length (keep_entry k l m) ≤ suc (length m)
length-keep_entry-le k [] m = omega arith
length-keep_entry-le k (v ∷ vs) m = omega arith

keep_entry-IsMap :
    (k : String) (l : List ℕ) (m : Dict (List ℕ))
    → get k m ≡ none
    → IsMap m
    → IsMap (keep_entry k l m)
keep_entry-IsMap k [] m new h = h
keep_entry-IsMap k (v ∷ vs) m new h = (new, h)

pub get-prune_entries :
    (limiter : Limiter) (now : ℕ) (key : String) (m : Dict (List ℕ))
    → IsMap m
    → get key (prune_entries limiter now m) ≡ pruned_of limiter now (get key m)
unfolding get prune_entries
get-prune_entries limiter now key [] h = refl
get-prune_entries limiter now key ((k, values) ∷ m) (new, h) =
    let rest = get-prune_entries limiter now key m h in
    let gone = get-prune_entries limiter now k m h ∙ ap (pruned_of limiter now) new in
    let entry =
      get-keep_entry k key (recent limiter now values) (prune_entries limiter now m) gone in
    entry
    ∙ (elim (Bool-cases (str_eq k key)) [ inl same ↦ rw same refl | inr other ↦ rw other rest ])

pub length-prune_entries-le :
    (limiter : Limiter) (now : ℕ) (m : Dict (List ℕ))
    → length (prune_entries limiter now m) ≤ length m
unfolding prune_entries
length-prune_entries-le limiter now [] = omega arith
length-prune_entries-le limiter now ((k, values) ∷ m) =
    let rest = length-prune_entries-le limiter now m in
    let entry = length-keep_entry-le k (recent limiter now values) (prune_entries limiter now m) in
    omega arith

prune_entries-IsMap :
    (limiter : Limiter) (now : ℕ) (m : Dict (List ℕ))
    → IsMap m
    → IsMap (prune_entries limiter now m)
unfolding prune_entries
prune_entries-IsMap limiter now [] h = tt
prune_entries-IsMap limiter now ((k, values) ∷ m) (new, h) =
    keep_entry-IsMap k (recent limiter now values) (prune_entries limiter now m)
      (get-prune_entries limiter now k m h ∙ ap (pruned_of limiter now) new)
      (prune_entries-IsMap limiter now m h)

or_default-non_empty : (l : List ℕ) → or_default (non_empty l) [] ≡ l
or_default-non_empty [] = refl
or_default-non_empty (v ∷ vs) = refl

-- Pruning leaves of each key's attempts the recent ones.
pub or_default-pruned_of :
    (limiter : Limiter) (now : ℕ) (o : Option (List ℕ))
    → or_default (pruned_of limiter now o) [] ≡ recent limiter now (or_default o [])
unfolding recent keep
or_default-pruned_of limiter now none = refl
or_default-pruned_of limiter now (some values) = or_default-non_empty (recent limiter now values)

length-recent-le :
    (limiter : Limiter) (now : ℕ) (values : List ℕ)
    → length (recent limiter now values) ≤ length values
unfolding recent
length-recent-le limiter now values = length-keep-le (is_recent limiter now) values

pub attempts_of-prune :
    (limiter : Limiter) (now : ℕ) (key : String)
    → IsMap limiter.failures
    → attempts_of (prune_expired limiter now) key ≡ recent limiter now (attempts_of limiter key)
unfolding prune_expired
attempts_of-prune limiter now key h =
    ap (λ o. or_default o []) (get-prune_entries limiter now key limiter.failures h)
    ∙ or_default-pruned_of limiter now (get key limiter.failures)

pub prune-IsBounded :
    (limiter : Limiter) (now : ℕ) → IsBounded limiter → IsBounded (prune_expired limiter now)
unfolding prune_expired
prune-IsBounded limiter now bounded = record {
  is_map = prune_entries-IsMap limiter now limiter.failures bounded.is_map;
  few_attempts = λ key.
      let same = attempts_of-prune limiter now key bounded.is_map in
      let few = bounded.few_attempts key in
      let fewer = length-recent-le limiter now (attempts_of limiter key) in
      subst (λ l. length l ≤ limiter.maximum_attempts) (sym same) (omega arith);
  few_keys =
      let few = bounded.few_keys in
      let fewer = length-prune_entries-le limiter now limiter.failures in omega arith;
}

length-set :
    (key : String) (v : List ℕ) (m : Dict (List ℕ))
    → length (set key v m) ≡ (if has key m then length m else suc (length m))
unfolding get set
length-set key v [] = refl
length-set key v ((k, w) ∷ m) = ground (arith, length-set key v m)

pub if-cases :
    {A : Type 0} (test : Bool) (x y : A)
    → ((test ≡ true) × ((if test then x else y) ≡ x))
      ⊎ ((test ≡ false) × ((if test then x else y) ≡ y))
if-cases true x y = inl (refl, refl)
if-cases false x y = inr (refl, refl)

pub added-IsBounded :
    (limiter : Limiter) (now : ℕ) (key : String)
    → IsBounded limiter
    → length (recent limiter now (attempts_of limiter key)) < limiter.maximum_attempts
    → (has key limiter.failures ≡ true) ⊎ (length limiter.failures < limiter.maximum_tracked_keys)
    → IsBounded (record limiter {
      failures =
          set key (recent limiter now (attempts_of limiter key) ++ now ∷ []) limiter.failures;
    })
added-IsBounded limiter now key bounded few room =
    let added = recent limiter now (attempts_of limiter key) ++ now ∷ [] in
    let size = length-append (recent limiter now (attempts_of limiter key)) (now ∷ []) in
    let keys = bounded.few_keys in
    record {
      is_map = set-IsMap key added limiter.failures bounded.is_map;
      few_attempts = λ other.
          let old = bounded.few_attempts other in
          subst (λ o. length (or_default o []) ≤ limiter.maximum_attempts)
            (sym (get-set key other added limiter.failures))
            (elim (Bool-cases (str_eq key other)) [
              | inl same ↦ rw same (omega arith)
              | inr differs ↦ rw differs old
            ]);
      few_keys =
          subst (λ n. n ≤ limiter.maximum_tracked_keys)
            (sym (length-set key added limiter.failures))
            (elim room [
              | inl tracked ↦ rw tracked keys
              | inr space ↦ elim (Bool-cases (has key limiter.failures)) [
                | inl tracked ↦ rw tracked keys
                | inr new ↦ rw new (omega arith)
              ]
            ]);
    }
