-- ===== src/Base/Outcome.antt =====
-- How an asynchronous repository method ends: errors.ts and the two ways to return.
use Prim.Native.Nat.{ℕ}
use Prim.Native.String.{String}
use mathlib.Core.Path.{◌≡◌, refl, ap}
use mathlib.Core.Logic.{◌⊎◌, ◌≢◌, inl, inr}
use mathlib.Core.Bool.{Bool, true, false}
use mathlib.Core.Option.{Option, none, some}

pub data ApiErrorCode : Type 0 where
  validation_failed : ApiErrorCode
  unauthenticated_code : ApiErrorCode
  forbidden_code : ApiErrorCode
  not_found_code : ApiErrorCode
  conflict_code : ApiErrorCode
  consent_required_code : ApiErrorCode
  rate_limited_code : ApiErrorCode

pub record ApiDomainError : Type 0 where
  pub status_code : ℕ
  pub code : ApiErrorCode
  pub message : String
  pub field : Option String
  pub retry_after_seconds : Option ℕ

-- What a method throws: an `ApiDomainError`, or a plain `Error` for a broken invariant.
pub data Fault : Type 0 where
  api : ApiDomainError → Fault
  plain : String → Fault

-- `done a` resolves to `a`, `missing` resolves to `undefined`.
pub data Outcome {ℓ} (A : Type ℓ) : Type ℓ where
  done : A → Outcome A
  missing : Outcome A
  throws : Fault → Outcome A

abbrev api_error : ℕ → ApiErrorCode → String → Fault
api_error status code message = api (record {
  status_code = status;
  code = code;
  message = message;
  field = none;
  retry_after_seconds = none;
})

abbrev pub conflict : String → Fault
conflict message = api_error 409 conflict_code message

abbrev pub bad_request : String → String → Fault
bad_request message field = api (record {
  status_code = 400;
  code = validation_failed;
  message = message;
  field = some field;
  retry_after_seconds = none;
})

abbrev pub consent_required : String → Fault
consent_required message = api_error 409 consent_required_code message

abbrev pub default_consent_message : String
default_consent_message = "Current collection-policy consent is required"

infixl 5 ◌>>=◌ ◌>>◌
abbrev pub ◌>>=◌ {ℓ κ} : {A : Type ℓ} {B : Type κ} → Outcome A → (A → Outcome B) → Outcome B
done a >>= k = k a
missing >>= k = missing
throws e >>= k = throws e

abbrev pub ◌>>◌ {ℓ} : {B : Type ℓ} → Outcome (Unit {0}) → Outcome B → Outcome B
m >> k = m >>= λ _. k

-- `if (!test) return undefined;`
abbrev pub require : Bool → Outcome (Unit {0})
require true = done tt
require false = missing

-- `if (test) throw fault;`
abbrev pub throw_if : Bool → Fault → Outcome (Unit {0})
throw_if true fault = throws fault
throw_if false fault = done tt

-- A lookup whose `undefined` makes the method return `undefined`.
abbrev pub lookup_or_missing {ℓ} : {A : Type ℓ} → Option A → Outcome A
lookup_or_missing (some a) = done a
lookup_or_missing none = missing

-- Checks that change nothing, and then the writes with what the checks found: on a failed check
-- the state is the old one.
abbrev pub commit_if {ℓ κ μ} :
    {S : Type ℓ} {P : Type κ} {A : Type μ} → S → Outcome P → (P → S × A) → S × Outcome A
commit_if s (done p) write = let (t, a) = write p in (t, done a)
commit_if s missing write = (s, missing)
commit_if s (throws fault) write = (s, throws fault)

-- The same for writes that may fail themselves: what they changed stays.
abbrev pub run_if {ℓ κ μ} :
    {S : Type ℓ} {P : Type κ} {A : Type μ} → S → Outcome P → (P → S × Outcome A) → S × Outcome A
run_if s (done p) write = write p
run_if s missing write = (s, missing)
run_if s (throws fault) write = (s, throws fault)

-- A step that may fail, and then the next: what the first changed stays.
abbrev pub and_then {ℓ κ μ} :
    {S : Type ℓ} {A : Type κ} {B : Type μ} → S × Outcome A → (S → A → S × Outcome B) → S × Outcome B
and_then (s, done a) next = next s a
and_then (s, missing) next = (s, missing)
and_then (s, throws fault) next = (s, throws fault)

module _ {ℓ κ μ} {S : Type ℓ} {P : Type κ} {A : Type μ} where
  pub run_if-eq-done :
      (s : S) (checks : Outcome P) (write : P → S × Outcome A) {t : S} {a : A}
      → run_if s checks write ≡ (t, done a)
      → (p : P) × (checks ≡ done p) × (write p ≡ (t, done a))
  run_if-eq-done s (done p) write e = (p, refl, e)
  run_if-eq-done s missing write e = cc
  run_if-eq-done s (throws fault) write e = cc

  -- Checks that never succeed leave the state as it is, and nothing is done.
  pub run_if_refused :
      (s : S) (checks : Outcome P) (write : P → S × Outcome A)
      → ((p : P) → checks ≢ done p)
      → ((run_if s checks write).0 ≡ s) × ((a : A) → (run_if s checks write).1 ≢ done a)
  run_if_refused s (done p) write h = absurd (h p refl)
  run_if_refused s missing write h = (refl, λ a e. cc)
  run_if_refused s (throws fault) write h = (refl, λ a e. cc)

  pub run_if_keeps {ν} :
      (Q : S → Type ν) (s : S) (checks : Outcome P) (write : P → S × Outcome A)
      → Q s
      → ((p : P) → checks ≡ done p → Q (write p).0)
      → Q (run_if s checks write).0
  run_if_keeps Q s (done p) write h k = k p refl
  run_if_keeps Q s missing write h k = h
  run_if_keeps Q s (throws fault) write h k = h

  pub commit_if-eq-done :
      (s : S) (checks : Outcome P) (write : P → S × A) {t : S} {a : A}
      → commit_if s checks write ≡ (t, done a)
      → (p : P) × (checks ≡ done p) × (write p ≡ (t, a))
  commit_if-eq-done s (done p) write e = (p, refl, cc)
  commit_if-eq-done s missing write e = cc
  commit_if-eq-done s (throws fault) write e = cc

  pub commit_if_refused :
      (s : S) (checks : Outcome P) (write : P → S × A)
      → ((p : P) → checks ≢ done p)
      → ((commit_if s checks write).0 ≡ s) × ((a : A) → (commit_if s checks write).1 ≢ done a)
  commit_if_refused s (done p) write h = absurd (h p refl)
  commit_if_refused s missing write h = (refl, λ a e. cc)
  commit_if_refused s (throws fault) write h = (refl, λ a e. cc)

  -- What holds of the old state and of every write holds after the operation.
  pub commit_if_keeps {ν} :
      (Q : S → Type ν) (s : S) (checks : Outcome P) (write : P → S × A)
      → Q s
      → ((p : P) → checks ≡ done p → Q (write p).0)
      → Q (commit_if s checks write).0
  commit_if_keeps Q s (done p) write h k = k p refl
  commit_if_keeps Q s missing write h k = h
  commit_if_keeps Q s (throws fault) write h k = h

module _ {ℓ κ μ} {S : Type ℓ} {R : Type κ} {A : Type μ} where
  -- A request that is stored under its key is answered from there and changes nothing; any other
  -- is carried out.
  abbrev pub once : S → Option R → (R → Outcome A) → S × Outcome A → S × Outcome A
  once s (some prior) replay fresh = (s, replay prior)
  once s none replay fresh = fresh

  pub once_keeps {ν} :
      (Q : S → Type ν) (s : S) (stored : Option R) (replay : R → Outcome A) (fresh : S × Outcome A)
      → Q s
      → Q fresh.0
      → Q (once s stored replay fresh).0
  once_keeps Q s (some prior) replay fresh h k = h
  once_keeps Q s none replay fresh h k = k

  pub once-eq-done :
      (s : S) (stored : Option R) (replay : R → Outcome A) (fresh : S × Outcome A) {t : S} {a : A}
      → once s stored replay fresh ≡ (t, done a)
      → ((stored ≡ none) × (fresh ≡ (t, done a)))
        ⊎ ((prior : R) × (stored ≡ some prior) × (s ≡ t) × (replay prior ≡ done a))
  once-eq-done s (some prior) replay fresh e = inr (prior, refl, ap (λ p. p.0) e, ap (λ p. p.1) e)
  once-eq-done s none replay fresh e = inl (refl, e)

module _ {ℓ κ μ} {S : Type ℓ} {A : Type κ} {B : Type μ} where
  pub and_then_keeps {ν} :
      (Q : S → Type ν) (step : S × Outcome A) (next : S → A → S × Outcome B)
      → Q step.0
      → ((t : S) (a : A) → Q t → Q (next t a).0)
      → Q (and_then step next).0
  and_then_keeps Q (s, done a) next h k = k s a h
  and_then_keeps Q (s, missing) next h k = h
  and_then_keeps Q (s, throws fault) next h k = h

  pub and_then-eq-done :
      (step : S × Outcome A) (next : S → A → S × Outcome B) {t : S} {b : B}
      → and_then step next ≡ (t, done b)
      → (s : S) × (a : A) × (step ≡ (s, done a)) × (next s a ≡ (t, done b))
  and_then-eq-done (s, done a) next e = (s, a, refl, e)
  and_then-eq-done (s, missing) next e = cc
  and_then-eq-done (s, throws fault) next e = cc

pub done-injective {ℓ} : {A : Type ℓ} {a b : A} → done a ≡ done b → a ≡ b
done-injective e = cc

pub bind-eq-done {ℓ κ} :
    {A : Type ℓ} {B : Type κ} (m : Outcome A) (k : A → Outcome B) {b : B}
    → (m >>= k) ≡ done b
    → (a : A) × (m ≡ done a) × (k a ≡ done b)
bind-eq-done (done a) k e = (a, refl, e)
bind-eq-done missing k e = cc
bind-eq-done (throws fault) k e = cc

pub Outcome-cases {ℓ} :
    {A : Type ℓ} (m : Outcome A)
    → ((a : A) × (m ≡ done a)) ⊎ ((m ≡ missing) ⊎ ((fault : Fault) × (m ≡ throws fault)))
Outcome-cases (done a) = inl (a, refl)
Outcome-cases missing = inr (inl refl)
Outcome-cases (throws fault) = inr (inr (fault, refl))
