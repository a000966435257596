-- ===== src/Analytics/Consistency.antt =====
-- How the figures of `callKpis` in apps/api/src/analytics.ts relate.
use native.Mathlib.Nat.{div-mul-le_self, lt-div-mul-add}
use cylizerapp.Base.{
  ℕ, zero, suc, ◌+◌, ◌*◌, ◌≤◌, ◌<◌, ◌≡◌, refl, ap, subst, ◌∙◌, Bool, List, [], ◌∷◌, arith, length,
  keep, length-keep-le, Bool-cases, inl, inr, not, ◌&&◌, String,
}
use cylizerapp.Contracts.Calls.{
  CallLog, CallDirection, is_incoming, is_outgoing, is_answered, is_missed, is_rejected,
}
use cylizerapp.Analytics.Figures.{
  CallKpis, Doubles, IsRounding, max_safe_integer, call_kpis, rounded_quotient, percentage,
  talk_duration, distinct, phone_numbers,
}

-- Every call goes one way, a call has one disposition, the rate is at most 100 percent, which it is
-- when all calls were answered, and the average is the nearest whole number to the exact quotient.
pub record IsConsistent (figures : CallKpis) : Type 0 where
  pub directions : figures.incoming_calls + figures.outgoing_calls ≡ figures.total_calls
  pub dispositions :
      figures.answered_calls + figures.missed_calls + figures.rejected_calls ≤ figures.total_calls
  pub connected : figures.connected_calls ≡ figures.answered_calls
  pub never_attended : figures.never_attended_calls ≤ figures.missed_calls
  pub unique : figures.unique_clients ≤ figures.total_calls
  pub rate : figures.answer_rate ≤ 10_000
  pub full_rate :
      0 < figures.total_calls
      → figures.answered_calls ≡ figures.total_calls
      → figures.answer_rate ≡ 10_000
  pub average_low :
      figures.average_talk_duration_seconds * (2 * figures.connected_calls)
      ≤ 2 * figures.total_talk_duration_seconds + figures.connected_calls
  pub average_high :
      2 * figures.total_talk_duration_seconds
      ≤ figures.average_talk_duration_seconds * (2 * figures.connected_calls)
        + figures.connected_calls

opposite : (direction : CallDirection) → is_outgoing direction ≡ not (is_incoming direction)
opposite CallDirection.incoming = refl
opposite CallDirection.outgoing = refl

direction_counts :
    (calls : List CallLog)
    → length (keep (λ (call : CallLog). is_incoming call.direction) calls)
        + length (keep (λ (call : CallLog). is_outgoing call.direction) calls)
      ≡ length calls
unfolding keep
direction_counts [] = refl
direction_counts (call ∷ calls) =
    let rest = direction_counts calls in
    let one : is_outgoing call.direction ≡ not (is_incoming call.direction) =
      opposite call.direction in
    elim (Bool-cases (is_incoming call.direction)) [
      | inl incoming ↦ rw (one, incoming) (omega arith)
      | inr outgoing ↦ rw (one, outgoing) (omega arith)
    ]

disposition_counts :
    (calls : List CallLog)
    → length (keep (λ (call : CallLog). is_answered call.disposition) calls)
        + length (keep (λ (call : CallLog). is_missed call.disposition) calls)
        + length (keep (λ (call : CallLog). is_rejected call.disposition) calls)
      ≤ length calls
unfolding keep
disposition_counts [] = omega arith
disposition_counts (call ∷ calls) = let rest = disposition_counts calls in ground arith

-- A stricter test keeps fewer elements.
length-keep_and :
    {A : Type 0} (p q : A → Bool) (xs : List A)
    → length (keep (λ x. p x && q x) xs) ≤ length (keep q xs)
unfolding keep
length-keep_and p q [] = omega arith
length-keep_and p q (x ∷ xs) = ground (arith, length-keep_and p q xs)

distinct-le : (xs : List String) → distinct xs ≤ length xs
unfolding distinct
distinct-le [] = omega arith
distinct-le (x ∷ xs) = ground (arith, distinct-le xs)

length-phone_numbers : (calls : List CallLog) → length (phone_numbers calls) ≡ length calls
unfolding phone_numbers
length-phone_numbers [] = refl
length-phone_numbers (call ∷ calls) = ap suc (length-phone_numbers calls)

no_talk : (calls : List CallLog) → length calls ≡ 0 → talk_duration calls ≡ 0
unfolding talk_duration
no_talk [] e = refl
no_talk (call ∷ calls) e = absurd (omega arith)

rounded_quotient_bounds :
    (n d : ℕ)
    → (d ≡ 0 → n ≡ 0)
    → (rounded_quotient n d * (2 * d) ≤ 2 * n + d) × (2 * n ≤ rounded_quotient n d * (2 * d) + d)
unfolding rounded_quotient
rounded_quotient_bounds n zero h = let e = h refl in (omega arith, omega arith)
rounded_quotient_bounds n (suc d) h =
    let low = div-mul-le_self (2 * n + suc d) (2 * suc d) in
    let high = lt-div-mul-add {a = 2 * n + suc d} {b = 2 * suc d} (omega arith) in
    (low, omega arith)

module _ (doubles : Doubles) (rounding : IsRounding doubles) where
  percentage_whole :
      (n d : ℕ) → d ≤ max_safe_integer → 0 < d → n ≡ d → percentage doubles n d ≡ 10_000
  unfolding percentage
  percentage_whole n zero safe h e = absurd (omega arith)
  percentage_whole n (suc d) safe h e =
      let scale = λ (q : doubles.Number). doubles.round (doubles.times q (doubles.whole 10_000)) in
      ap (λ x. scale (doubles.divide (doubles.whole x) (doubles.whole (suc d)))) e
      ∙ ap scale (rounding.divide_self (suc d) h safe)
      ∙ ap doubles.round (rounding.times_one 10_000 (omega arith))
      ∙ rounding.round_whole 10_000 (omega arith)

  percentage_order :
      (n m d : ℕ)
      → n ≤ m
      → m ≤ max_safe_integer
      → d ≤ max_safe_integer
      → percentage doubles n d ≤ percentage doubles m d
  unfolding percentage
  percentage_order n m zero h small safe = omega arith
  percentage_order n m (suc d) h small safe = rounding.round_order _ _ (
      rounding.times_order _ _ 10_000 (omega arith)
        (rounding.divide_order _ _ (suc d) (omega arith) safe (rounding.whole_order n m h small)))

  percentage_bound : (n d : ℕ) → d ≤ max_safe_integer → n ≤ d → percentage doubles n d ≤ 10_000
  unfolding percentage
  percentage_bound n zero safe h = omega arith
  percentage_bound n (suc d) safe h =
      subst (λ x. percentage doubles n (suc d) ≤ x)
        (percentage_whole (suc d) (suc d) safe (omega arith) refl)
        (percentage_order n (suc d) (suc d) h safe safe)

-- The figures of any calls agree, in numbers that round as double precision does and for at most
-- 2 ^ 53 - 1 calls: incoming and outgoing calls make up the total, answered, missed and rejected
-- ones are within it, there are no more clients than calls, the answer rate is at most 100 percent,
-- which it is when all calls were answered, and the average talk time is the nearest whole number
-- of seconds.
pub call_kpis-IsConsistent :
    (doubles : Doubles)
    → IsRounding doubles
    → (calls : List CallLog) → length calls ≤ max_safe_integer
    → IsConsistent (call_kpis doubles calls)
unfolding call_kpis
call_kpis-IsConsistent doubles rounding calls safe =
    let connected = keep (λ (call : CallLog). is_answered call.disposition) calls in
    let (low, high) =
      rounded_quotient_bounds (talk_duration connected) (length connected) (no_talk connected) in
    let external = keep (λ (call : CallLog). not call.participant.is_internal) calls in
    let numbers = length-phone_numbers external in
    let fewer = length-keep-le (λ (call : CallLog). not call.participant.is_internal) calls in
    let different = distinct-le (phone_numbers external) in
    record {
      directions = direction_counts calls;
      dispositions = disposition_counts calls;
      connected = refl;
      never_attended =
          length-keep_and (λ (call : CallLog). is_incoming call.direction)
            (λ (call : CallLog). is_missed call.disposition) calls;
      unique = omega arith;
      rate =
          percentage_bound doubles rounding (length connected) (length calls) safe
            (length-keep-le (λ (call : CallLog). is_answered call.disposition) calls);
      full_rate = percentage_whole doubles rounding (length connected) (length calls) safe;
      average_low = low;
      average_high = high;
    }
