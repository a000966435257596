-- ===== src/Limiter/Tests.antt =====
-- Tests of the limiter of apps/api/src/security.ts.
use cylizerapp.Base.{ℕ, ◌+◌, ◌*◌, ◌≤◌, ◌≡◌, refl, [], ◌∷◌, arith, keep}
use cylizerapp.Base.Dict.{get, set}
use cylizerapp.Base.Outcome.{done, throws}
use cylizerapp.Limiter.Attempts.{
  Limiter, recent, prune_entries, prune_expired, consume_pruned, consume_attempt, retry_after,
  rate_limited,
}
use cylizerapp.Limiter.Bounds.{IsBounded}
use cylizerapp.Limiter.Use.{consumes, resets, counts, after, after-IsBounded}
use cylizerapp.Limiter.Waiting.{consume_after_wait}

-- Two attempts a minute, for ten keys.
abbrev empty : Limiter
empty = record {
  failures = [];
  maximum_attempts = 2;
  window_seconds = 60;
  maximum_tracked_keys = 10;
}

abbrev exhausted : Limiter
exhausted = record empty { failures = ("10.0.0.1", 1_000 ∷ 2_000 ∷ []) ∷ [] }

empty-IsBounded : IsBounded empty
unfolding get
empty-IsBounded = record { is_map = tt; few_attempts = λ key. omega arith; few_keys = omega arith }

exhausted-IsBounded : IsBounded exhausted
unfolding get
exhausted-IsBounded = record {
  is_map = (refl, tt);
  few_attempts = λ key. ground arith;
  few_keys = omega arith;
}

-- A third attempt within the minute is refused.
third_refused :
    (after empty (
      consumes 1_000 "10.0.0.1"
      ∷ consumes 2_000 "10.0.0.1"
      ∷ consumes 3_000 "10.0.0.1"
      ∷ [])).failures
    ≡ exhausted.failures
unfolding after consume_attempt consume_pruned prune_expired prune_entries recent keep get set
    retry_after rate_limited
third_refused = refl

after-IsBounded_example : IsBounded (
    after empty (
      consumes 1_000 "10.0.0.1"
      ∷ counts 2_000
      ∷ consumes 3_000 "10.0.0.2"
      ∷ resets "10.0.0.1"
      ∷ []))
after-IsBounded_example =
    after-IsBounded empty
      (consumes 1_000 "10.0.0.1"
        ∷ counts 2_000
        ∷ consumes 3_000 "10.0.0.2"
        ∷ resets "10.0.0.1"
        ∷ [])
      empty-IsBounded

consume_after_wait_example :
    (seconds : ℕ) × ((consume_attempt exhausted 3_000 "10.0.0.1").1 ≡ throws (rate_limited seconds))
    × (1 ≤ seconds)
    × (3_000 + seconds * 1_000 ≤ 61_000
        → (consume_attempt (consume_attempt exhausted 3_000 "10.0.0.1").0 61_000 "10.0.0.1").1
          ≡ done tt)
unfolding recent keep get
consume_after_wait_example =
    consume_after_wait exhausted 3_000 61_000 "10.0.0.1" exhausted-IsBounded (omega arith)
      (omega arith)
