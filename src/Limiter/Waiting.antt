-- ===== src/Limiter/Waiting.antt =====
-- How long a caller whom the limiter of apps/api/src/security.ts refuses has to wait.
use mathlib.Core.Option.{some-injective}
use cylizerapp.Base.{
  ℕ, ◌+◌, ◌*◌, ◌≤◌, ◌<◌, String, ◌≡◌, refl, sym, ap, subst, ◌∙◌, true, false, some, List, [], ◌∷◌,
  arith, leb, length, keep, head?, or_default, inl, inr, ◌⊎◌, Bool-cases, Option-cases,
  length-keep-le, str_eq,
}
use cylizerapp.Base.Dict.{Dict, get, has}
use cylizerapp.Base.Outcome.{done, throws}
use cylizerapp.Limiter.Attempts.{
  Limiter, is_recent, recent, attempts_of, prune_entries, prune_expired, consume_pruned,
  consume_attempt, retry_after, rate_limited,
}
use cylizerapp.Limiter.Bounds.{
  IsBounded, prune-IsBounded, attempts_of-prune, get-prune_entries, length-prune_entries-le,
  length-keep_entry-le, pruned_of,
}

-- What is recent later is recent now.
recent_later :
    (limiter : Limiter) (now later : ℕ) (values : List ℕ)
    → now ≤ later
    → recent limiter later (recent limiter now values) ≡ recent limiter later values
unfolding recent keep
recent_later limiter now later [] h = refl
recent_later limiter now later (v ∷ vs) h = ground (arith, recent_later limiter now later vs h)

retry_after_bounds :
    (limiter : Limiter) (now : ℕ) (attempts : List ℕ)
    → (1 ≤ retry_after limiter now attempts)
      × (or_default (head? attempts) now + limiter.window_seconds * 1_000
          ≤ now + retry_after limiter now attempts * 1_000)
unfolding retry_after
retry_after_bounds limiter now attempts = ground arith

-- Once the announced time has passed, the oldest attempt is no longer recent.
oldest_expires :
    (limiter : Limiter) (now later : ℕ) (attempts : List ℕ)
    → 0 < length attempts
    → now + retry_after limiter now attempts * 1_000 ≤ later
    → length (recent limiter later attempts) < length attempts
unfolding recent keep
oldest_expires limiter now later [] h w = omega arith
oldest_expires limiter now later (v ∷ vs) h w =
    let (_, past) = retry_after_bounds limiter now (v ∷ vs) in
    let fewer = length-keep-le (is_recent limiter later) vs in ground arith

-- A key all of whose attempts have expired makes room when it is pruned.
prune_entries_shrinks :
    (limiter : Limiter) (now : ℕ) (key : String) (m : Dict (List ℕ)) (values : List ℕ)
    → get key m ≡ some values
    → recent limiter now values ≡ []
    → length (prune_entries limiter now m) < length m
unfolding get prune_entries
prune_entries_shrinks limiter now key [] values e none_left = cc
prune_entries_shrinks limiter now key ((k, w) ∷ m) values e none_left =
    elim (Bool-cases (str_eq k key)) [
      | inl same ↦
          let mine : w ≡ values = some-injective w values (rw same at e) in
          let fewer = length-prune_entries-le limiter now m in
          rw (ap (recent limiter now) mine ∙ none_left) (omega arith)
      | inr other ↦
          let fewer = prune_entries_shrinks limiter now key m values (rw other at e) none_left in
          let entry = length-keep_entry-le k (recent limiter now w) (prune_entries limiter now m) in
          omega arith
    ]

consume_pruned_full :
    (limiter : Limiter) (now : ℕ) (key : String)
    → limiter.maximum_attempts ≤ length (recent limiter now (attempts_of limiter key))
    → consume_pruned limiter now key ≡ (
      limiter,
      throws
          (rate_limited (retry_after limiter now (recent limiter now (attempts_of limiter key)))),
    )
unfolding consume_pruned
consume_pruned_full limiter now key full =
    let test : leb limiter.maximum_attempts (length (recent limiter now (attempts_of limiter key)))
        ≡ true =
      ground arith in
    rw test refl

consume_pruned_free :
    (limiter : Limiter) (now : ℕ) (key : String)
    → length (recent limiter now (attempts_of limiter key)) < limiter.maximum_attempts
    → (has key limiter.failures ≡ true) ⊎ (length limiter.failures < limiter.maximum_tracked_keys)
    → (consume_pruned limiter now key).1 ≡ done tt
unfolding consume_pruned
consume_pruned_free limiter now key few room =
    let test : leb limiter.maximum_attempts (length (recent limiter now (attempts_of limiter key)))
        ≡ false =
      ground arith in
    elim room [
      | inl tracked ↦ rw (test, tracked) refl
      | inr space ↦
          let spacious : leb limiter.maximum_tracked_keys (length limiter.failures) ≡ false =
            ground arith in
          elim (Bool-cases (has key limiter.failures)) [
            | inl tracked ↦ rw (test, tracked) refl
            | inr new ↦ rw (test, new, spacious) refl
          ]
    ]

List-cases : (l : List ℕ) → (l ≡ []) ⊎ ((v : ℕ) × (vs : List ℕ) × (l ≡ v ∷ vs))
List-cases [] = inl refl
List-cases (v ∷ vs) = inr (v, vs, refl)

-- After pruning, a key that was tracked is tracked still or has left room for another.
prune-room :
    (limiter : Limiter) (later : ℕ) (key : String)
    → IsBounded limiter
    → 0 < length (attempts_of limiter key)
    → (has key (prune_expired limiter later).failures ≡ true)
      ⊎ (length (prune_expired limiter later).failures < limiter.maximum_tracked_keys)
unfolding prune_expired
prune-room limiter later key bounded some_attempt = elim (Option-cases (get key limiter.failures)) [
  | inl gone ↦ absurd (zero_lt_zero (rw gone at some_attempt))
  | inr (values, stored) ↦
      let left =
        get-prune_entries limiter later key limiter.failures bounded.is_map
        ∙ ap (pruned_of limiter later) stored in
      elim (List-cases (recent limiter later values)) [
        | inr (v, vs, kept) ↦ inl (rw (left, kept) refl)
        | inl lost ↦
            let fewer =
              prune_entries_shrinks limiter later key limiter.failures values stored lost in
            let few = bounded.few_keys in inr (omega arith)
      ]
]
  where
    zero_lt_zero : 0 < 0 → ⊥
    zero_lt_zero h = omega arith

-- After the announced time an attempt is admitted in the pruned state.
free_later :
    (limiter : Limiter) (now later : ℕ) (key : String)
    → IsBounded limiter
    → 0 < length (recent limiter now (attempts_of limiter key))
    → now + retry_after limiter now (recent limiter now (attempts_of limiter key)) * 1_000 ≤ later
    → now ≤ later
    → (consume_attempt limiter later key).1 ≡ done tt
unfolding consume_attempt prune_expired recent
free_later limiter now later key bounded some_attempt wait order =
    let pruned = prune_expired limiter later in
    let attempts = attempts_of limiter key in
    let expires =
      oldest_expires limiter now later (recent limiter now attempts) some_attempt wait in
    let fewer = ap length (recent_later limiter now later attempts order) in
    let kept = length-keep-le (is_recent limiter now) attempts in
    let few = bounded.few_attempts key in
    let left : recent limiter later (attempts_of pruned key) ≡ recent limiter later attempts =
      ap (recent limiter later) (attempts_of-prune limiter later key bounded.is_map)
      ∙ recent_later limiter later later attempts (omega arith) in
    let size = ap length left in
    consume_pruned_free pruned later key (omega arith)
      (prune-room limiter later key bounded (omega arith))

-- In a state within the limits, a caller whose attempts are used up is refused with a waiting time of at least one second, and
-- the wait is honest: an attempt after that time, no other call in between, is admitted.
pub consume_after_wait :
    (limiter : Limiter) (now later : ℕ) (key : String)
    → IsBounded limiter
    → 0 < limiter.maximum_attempts
    → limiter.maximum_attempts ≤ length (recent limiter now (attempts_of limiter key))
    → (seconds : ℕ) × ((consume_attempt limiter now key).1 ≡ throws (rate_limited seconds))
      × (1 ≤ seconds)
      × (now + seconds * 1_000 ≤ later
          → (consume_attempt (consume_attempt limiter now key).0 later key).1 ≡ done tt)
unfolding consume_attempt prune_expired recent
consume_after_wait limiter now later key bounded some_allowed full =
    let pruned = prune_expired limiter now in
    let attempts = recent pruned now (attempts_of pruned key) in
    let same : attempts ≡ recent limiter now (attempts_of limiter key) =
      ap (recent limiter now) (attempts_of-prune limiter now key bounded.is_map)
      ∙ recent_later limiter now now (attempts_of limiter key) (omega arith) in
    let size = ap length same in
    let refused = consume_pruned_full pruned now key (omega arith) in
    let (positive, _) = retry_after_bounds pruned now attempts in
    (
      retry_after pruned now attempts,
      ap (λ q. q.1) refused,
      positive,
      λ wait.
          subst (λ u. (consume_attempt u later key).1 ≡ done tt) (ap (λ q. q.0) (sym refused))
            (free_later pruned now later key (prune-IsBounded limiter now bounded) (omega arith)
              wait (omega arith)),
    )
