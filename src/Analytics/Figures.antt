-- ===== src/Analytics/Figures.antt =====
-- `callKpis` and `percentage` of apps/api/src/analytics.ts. A percentage is kept in hundredths of a
-- percent, the integer that the code rounds to before its last division by 100. Its quotient and
-- its product are rounded in double precision, so that it may differ by one from the exact value:
-- the platform's operations are parameters. `Math.round` of the single quotient of an average is
-- exact in double precision below 2 ^ 52 seconds, as it is here.
use cylizerapp.Base.{
  ℕ, zero, suc, ◌+◌, ◌*◌, ◌/◌, ◌≤◌, ◌<◌, ◌≡◌, String, Bool, not, ◌&&◌, List, [], ◌∷◌, str_eq,
  length, keep, any, if◌then◌else◌,
}
use cylizerapp.Contracts.Calls.{
  CallLog, is_incoming, is_outgoing, is_answered, is_missed, is_rejected, is_unreached,
}

pub record CallKpis : Type 0 where
  pub total_calls : ℕ
  pub incoming_calls : ℕ
  pub outgoing_calls : ℕ
  pub answered_calls : ℕ
  pub missed_calls : ℕ
  pub rejected_calls : ℕ
  pub connected_calls : ℕ
  pub never_attended_calls : ℕ
  pub client_not_pickup_calls : ℕ
  pub unique_clients : ℕ
  pub total_talk_duration_seconds : ℕ
  pub average_talk_duration_seconds : ℕ
  pub answer_rate : ℕ

-- `Math.round(n / d)`, and 0 for no divisor.
unfoldable pub rounded_quotient : ℕ → ℕ → ℕ
rounded_quotient n zero = 0
rounded_quotient n (suc d) = (2 * n + suc d) / (2 * suc d)

-- The platform's numbers, in double precision: whole numbers, quotients, products and `Math.round`.
pub record Doubles : Type 1 where
  pub Number : Type 0
  pub whole : ℕ → Number
  pub divide : Number → Number → Number
  pub times : Number → Number → Number
  pub round : Number → ℕ

-- `Math.round((numerator / denominator) * 10_000)`, before its last division by 100.
unfoldable pub percentage : Doubles → ℕ → ℕ → ℕ
percentage doubles numerator zero = 0
percentage doubles numerator (suc d) =
    let quotient = doubles.divide (doubles.whole numerator) (doubles.whole (suc d)) in
    doubles.round (doubles.times quotient (doubles.whole 10_000))

-- `Number.MAX_SAFE_INTEGER`.
abbrev pub max_safe_integer : ℕ
max_safe_integer = 9_007_199_254_740_991

-- What is documented of double precision: each result is the nearest number to the exact one, so
-- that the order is kept and what is exact stays exact.
pub record IsRounding (doubles : Doubles) : Type 1 where
  pub at_most : doubles.Number → doubles.Number → Type 0
  pub whole_order :
      (n m : ℕ) → n ≤ m → m ≤ max_safe_integer → at_most (doubles.whole n) (doubles.whole m)
  pub divide_order :
      (x y : doubles.Number) (d : ℕ)
      → 0 < d
      → d ≤ max_safe_integer
      → at_most x y
      → at_most (doubles.divide x (doubles.whole d)) (doubles.divide y (doubles.whole d))
  pub times_order :
      (x y : doubles.Number) (k : ℕ)
      → k ≤ max_safe_integer
      → at_most x y
      → at_most (doubles.times x (doubles.whole k)) (doubles.times y (doubles.whole k))
  pub round_order : (x y : doubles.Number) → at_most x y → doubles.round x ≤ doubles.round y
  pub divide_self :
      (d : ℕ)
      → 0 < d
      → d ≤ max_safe_integer
      → doubles.divide (doubles.whole d) (doubles.whole d) ≡ doubles.whole 1
  pub times_one :
      (k : ℕ)
      → k ≤ max_safe_integer
      → doubles.times (doubles.whole 1) (doubles.whole k) ≡ doubles.whole k
  pub round_whole : (k : ℕ) → k ≤ max_safe_integer → doubles.round (doubles.whole k) ≡ k

unfoldable pub talk_duration : List CallLog → ℕ
talk_duration [] = 0
talk_duration (call ∷ calls) = call.duration_seconds + talk_duration calls

-- The size of a set of texts: each counts where it stands last.
unfoldable pub distinct : List String → ℕ
distinct [] = 0
distinct (x ∷ xs) = (if any (λ y. str_eq y x) xs then 0 else 1) + distinct xs

unfoldable pub phone_numbers : List CallLog → List String
phone_numbers [] = []
phone_numbers (call ∷ calls) = call.participant.phone_number ∷ phone_numbers calls

abbrev is_external : CallLog → Bool
is_external call = not call.participant.is_internal

unfoldable pub call_kpis : Doubles → List CallLog → CallKpis
call_kpis doubles calls =
    let connected = keep (λ (call : CallLog). is_answered call.disposition) calls in
    record {
      total_calls = length calls;
      incoming_calls = length (keep (λ (call : CallLog). is_incoming call.direction) calls);
      outgoing_calls = length (keep (λ (call : CallLog). is_outgoing call.direction) calls);
      answered_calls = length connected;
      missed_calls = length (keep (λ (call : CallLog). is_missed call.disposition) calls);
      rejected_calls = length (keep (λ (call : CallLog). is_rejected call.disposition) calls);
      connected_calls = length connected;
      never_attended_calls = length (
          keep (λ (call : CallLog). is_incoming call.direction && is_missed call.disposition)
            calls);
      client_not_pickup_calls = length (
          keep (λ (call : CallLog). is_outgoing call.direction && is_unreached call.disposition)
            calls);
      unique_clients = distinct (phone_numbers (keep is_external calls));
      total_talk_duration_seconds = talk_duration connected;
      average_talk_duration_seconds = rounded_quotient (talk_duration connected) (length connected);
      answer_rate = percentage doubles (length connected) (length calls);
    }
