-- ===== src/Limiter/Use.antt =====
-- The limiter of apps/api/src/security.ts in use: any sequence of its calls.
use cylizerapp.Base.{
  ℕ, ◌≤◌, ◌<◌, String, sym, subst, List, [], ◌∷◌, arith, leb, length, or_default, inl, inr, str_eq,
  eq_iff, Bool-cases,
}
use cylizerapp.Base.Dict.{Dict, get, has, remove, get-remove}
use cylizerapp.Base.Dict.Keys.{IsMap}
use cylizerapp.Limiter.Attempts.{
  Limiter, recent, attempts_of, prune_expired, consume_pruned, consume_attempt, reset,
  tracked_key_count,
}
use cylizerapp.Limiter.Bounds.{IsBounded, prune-IsBounded, added-IsBounded}

consume_pruned-IsBounded :
    (limiter : Limiter) (now : ℕ) (key : String)
    → IsBounded limiter
    → IsBounded (consume_pruned limiter now key).0
unfolding consume_pruned
consume_pruned-IsBounded limiter now key bounded =
    let attempts = recent limiter now (attempts_of limiter key) in
    elim (Bool-cases (leb limiter.maximum_attempts (length attempts))) [
      | inl full ↦ rw full bounded
      | inr free ↦
          let few : length attempts < limiter.maximum_attempts = ground arith in
          elim (Bool-cases (has key limiter.failures)) [
            | inl tracked ↦
                rw (free, tracked) (added-IsBounded limiter now key bounded few (inl tracked))
            | inr new ↦
                elim (Bool-cases (leb limiter.maximum_tracked_keys (length limiter.failures))) [
                  | inl crowded ↦ rw (free, new, crowded) bounded
                  | inr room ↦
                      let space : length limiter.failures < limiter.maximum_tracked_keys =
                        ground arith in
                      rw (free, new, room) (added-IsBounded limiter now key bounded few (inr space))
                ]
          ]
    ]

remove-IsMap : (key : String) (m : Dict (List ℕ)) → IsMap m → IsMap (remove key m)
unfolding get remove
remove-IsMap key [] h = tt
remove-IsMap key ((k, v) ∷ m) (new, h) =
    ground (arith, eq_iff k key, eq_iff key k, get-remove key k m, remove-IsMap key m h)

length-remove-le : (key : String) (m : Dict (List ℕ)) → length (remove key m) ≤ length m
unfolding remove
length-remove-le key [] = omega arith
length-remove-le key ((k, v) ∷ m) = ground (arith, length-remove-le key m)

reset-IsBounded :
    (limiter : Limiter) (key : String) → IsBounded limiter → IsBounded (reset limiter key)
unfolding reset
reset-IsBounded limiter key bounded = record {
  is_map = remove-IsMap key limiter.failures bounded.is_map;
  few_attempts = λ other.
      let old = bounded.few_attempts other in
      subst (λ o. length (or_default o []) ≤ limiter.maximum_attempts)
        (sym (get-remove key other limiter.failures))
        (elim (Bool-cases (str_eq key other)) [
          | inl same ↦ rw same (omega arith)
          | inr differs ↦ rw differs old
        ]);
  few_keys =
      let few = bounded.few_keys in
      let fewer = length-remove-le key limiter.failures in omega arith;
}

-- A call of the limiter, with the clock's reading.
pub data Call : Type 0 where
  consumes : ℕ → String → Call
  resets : String → Call
  counts : ℕ → Call

unfoldable pub after : Limiter → List Call → Limiter
after limiter [] = limiter
after limiter (consumes now key ∷ calls) = after (consume_attempt limiter now key).0 calls
after limiter (resets key ∷ calls) = after (reset limiter key) calls
after limiter (counts now ∷ calls) = after (tracked_key_count limiter now).0 calls

-- Whatever is called from a state within the limits, and even if the clock runs backwards: no key ever holds more attempts than
-- the limit, and there are never more keys than the limit.
pub after-IsBounded :
    (limiter : Limiter) (calls : List Call) → IsBounded limiter → IsBounded (after limiter calls)
unfolding after consume_attempt tracked_key_count
after-IsBounded limiter [] bounded = bounded
after-IsBounded limiter (consumes now key ∷ calls) bounded =
    after-IsBounded (consume_attempt limiter now key).0 calls (
      consume_pruned-IsBounded (prune_expired limiter now) now key
        (prune-IsBounded limiter now bounded))
after-IsBounded limiter (resets key ∷ calls) bounded =
    after-IsBounded (reset limiter key) calls (reset-IsBounded limiter key bounded)
after-IsBounded limiter (counts now ∷ calls) bounded =
    after-IsBounded (prune_expired limiter now) calls (prune-IsBounded limiter now bounded)
