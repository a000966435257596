-- ===== src/Limiter/Attempts.antt =====
-- `PairingAttemptLimiter` of apps/api/src/security.ts. Times are in milliseconds; the clock's
-- reading is an argument. A window that reaches back before the epoch starts at the epoch.
use cylizerapp.Base.{
  ℕ, ◌+◌, ◌-◌, ◌*◌, ◌/◌, String, Bool, not, ◌&&◌, Option, none, some, List, [], ◌∷◌, ◌++◌, ltb, leb,
  length, keep, head?, or_default, if◌then◌else◌,
}
use cylizerapp.Base.Dict.{Dict, get, has, set, remove}
use cylizerapp.Base.Outcome.{Outcome, done, throws, Fault, api, rate_limited_code}

pub record Limiter : Type 0 where
  pub failures : Dict (List ℕ)
  pub maximum_attempts : ℕ
  pub window_seconds : ℕ
  pub maximum_tracked_keys : ℕ

-- `value > now - windowSeconds * 1_000`.
abbrev pub is_recent : Limiter → ℕ → ℕ → Bool
is_recent limiter now value = ltb now (value + limiter.window_seconds * 1_000)

unfoldable pub recent : Limiter → ℕ → List ℕ → List ℕ
recent limiter now values = keep (is_recent limiter now) values

-- An entry of the map, deleted when no attempt is left.
abbrev pub keep_entry : String → List ℕ → Dict (List ℕ) → Dict (List ℕ)
keep_entry key [] entries = entries
keep_entry key (v ∷ vs) entries = (key, v ∷ vs) ∷ entries

-- The loop of `pruneExpired`: a key without recent attempts is deleted.
unfoldable pub prune_entries : Limiter → ℕ → Dict (List ℕ) → Dict (List ℕ)
prune_entries limiter now [] = []
prune_entries limiter now ((key, values) ∷ entries) =
    keep_entry key (recent limiter now values) (prune_entries limiter now entries)

unfoldable pub prune_expired : Limiter → ℕ → Limiter
prune_expired limiter now = record limiter { failures = prune_entries limiter now limiter.failures }

unfoldable pub rate_limited : ℕ → Fault
rate_limited retry_after_seconds = api (record {
  status_code = 429;
  code = rate_limited_code;
  message = "Too many pairing attempts. Try again later.";
  field = none;
  retry_after_seconds = some retry_after_seconds;
})

abbrev max : ℕ → ℕ → ℕ
max a b = if leb a b then b else a

-- `Math.max(1, Math.ceil((oldest + windowSeconds * 1_000 - now) / 1_000))`; a negative difference
-- is rounded up to at most 0, as the difference that stops at 0 is.
unfoldable pub retry_after : Limiter → ℕ → List ℕ → ℕ
retry_after limiter now attempts =
    max 1 (((or_default (head? attempts) now + limiter.window_seconds * 1_000 - now) + 999) / 1_000)

abbrev pub attempts_of : Limiter → String → List ℕ
attempts_of limiter key = or_default (get key limiter.failures) []

-- The checks of `consumeAttempt` on the pruned state, and its write.
unfoldable pub consume_pruned : Limiter → ℕ → String → Limiter × Outcome (Unit {0})
consume_pruned limiter now key =
    let attempts = recent limiter now (attempts_of limiter key) in
    if leb limiter.maximum_attempts (length attempts)
    then (limiter, throws (rate_limited (retry_after limiter now attempts)))
    else (if not (has key limiter.failures)
          && leb limiter.maximum_tracked_keys (length limiter.failures)
        then (limiter, throws (rate_limited limiter.window_seconds))
        else (
          record limiter { failures = set key (attempts ++ now ∷ []) limiter.failures },
          done tt,
        ))

unfoldable pub consume_attempt : Limiter → ℕ → String → Limiter × Outcome (Unit {0})
consume_attempt limiter now key = consume_pruned (prune_expired limiter now) now key

-- `getRetryAfterSeconds`, which reads the stored attempts without pruning them.
unfoldable pub get_retry_after_seconds : Limiter → ℕ → String → Option ℕ
get_retry_after_seconds limiter now key =
    let attempts = attempts_of limiter key in
    if ltb (length attempts) limiter.maximum_attempts
    then none
    else some (retry_after limiter now attempts)

unfoldable pub reset : Limiter → String → Limiter
reset limiter key = record limiter { failures = remove key limiter.failures }

unfoldable pub tracked_key_count : Limiter → ℕ → Limiter × ℕ
tracked_key_count limiter now =
    let pruned = prune_expired limiter now in (pruned, length pruned.failures)
