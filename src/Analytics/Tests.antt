-- ===== src/Analytics/Tests.antt =====
-- Tests of the call figures of apps/api/src/analytics.ts.
use cylizerapp.Base.{
  ℕ, ◌+◌, ◌*◌, ◌≤◌, ◌<◌, ◌/◌, arith, String, ◌≡◌, refl, false, none, List, [], ◌∷◌, any, keep,
}
use native.Mathlib.Nat.{
  div-mul-le_self, le-div_iff_mul-le, div-eq_of_lt-le, mul-le-mul_right, div-eq_of_eq-mul_left,
}
use cylizerapp.Contracts.Calls.{
  CallLog, CallDirection, CallDisposition, CallSource, RecordingStatus,
}
use cylizerapp.Analytics.Figures.{
  Doubles, IsRounding, call_kpis, percentage, rounded_quotient, talk_duration, distinct,
  phone_numbers,
}
use cylizerapp.Analytics.Consistency.{IsConsistent, call_kpis-IsConsistent}

abbrev call_of : CallDirection → CallDisposition → String → ℕ → CallLog
call_of direction disposition phone_number seconds = record {
  id = "call";
  organization_id = "org_1";
  employee_id = "emp_1";
  device_id = none;
  sim_card_id = none;
  external_id = none;
  source = CallSource.manual;
  direction = direction;
  disposition = disposition;
  participant = record {
    phone_number = phone_number;
    display_name = none;
    contact_id = none;
    is_internal = false;
  };
  started_at = 0;
  answered_at = none;
  ended_at = none;
  duration_seconds = seconds;
  ring_duration_seconds = none;
  is_within_working_hours = false;
  recording_status = RecordingStatus.not_expected;
  recording_id = none;
  lead_id = none;
  note_count = 0;
  is_pinned = false;
  created_at = 0;
  updated_at = 0;
  created_by = none;
  updated_by = none;
}

abbrev day : List CallLog
day =
    call_of CallDirection.incoming CallDisposition.answered "+9198" 30
    ∷ call_of CallDirection.outgoing CallDisposition.answered "+9198" 61
    ∷ call_of CallDirection.incoming CallDisposition.missed "+9199" 0
    ∷ []

-- Numbers with six decimals: of each result the further ones are cut off.
abbrev unit : ℕ
unit = 1_000_000

abbrev decimals : Doubles
decimals = record {
  Number = ℕ;
  whole = λ n. n * unit;
  divide = λ x y. x * unit / y;
  times = λ x y. x * y / unit;
  round = λ x. (2 * x + unit) / (2 * unit);
}

div_order : (a b k : ℕ) → 0 < k → a ≤ b → a / k ≤ b / k
div_order a b k h le =
    let low = div-mul-le_self a k in
    (le-div_iff_mul-le {k = k} {x = a / k} {y = b} h).1 (omega arith)

decimals-IsRounding : IsRounding decimals
decimals-IsRounding = record {
  at_most = λ x y. x ≤ y;
  whole_order = λ n m h safe. omega arith;
  divide_order =
      λ x y d h safe le. div_order (x * unit) (y * unit) (d * unit) (omega arith) (omega arith);
  times_order = λ x y k safe le.
      div_order (x * (k * unit)) (y * (k * unit)) unit (omega arith)
        (mul-le-mul_right (k * unit) le);
  round_order =
      λ x y le. div_order (2 * x + unit) (2 * y + unit) (2 * unit) (omega arith) (omega arith);
  divide_self = λ d h safe.
      div-eq_of_eq-mul_left {n = d * unit} {m = d * unit * unit} {k = 1 * unit} (omega arith)
        (omega arith);
  times_one = λ k safe.
      div-eq_of_eq-mul_left {n = unit} {m = 1 * unit * (k * unit)} {k = k * unit} (omega arith)
        (omega arith);
  round_whole = λ k safe.
      div-eq_of_lt-le {k = k} (2 * unit) {m = 2 * (k * unit) + unit} (omega arith) (omega arith);
}

-- Two of three calls were answered, 66.67 percent, with 45.5 seconds on average, rounded to 46.
day_figures :
    ((call_kpis decimals day).answer_rate ≡ 6_667)
    × ((call_kpis decimals day).average_talk_duration_seconds ≡ 46)
    × ((call_kpis decimals day).unique_clients ≡ 2)
unfolding call_kpis percentage rounded_quotient talk_duration distinct phone_numbers keep any
day_figures = (refl, refl, refl)

call_kpis-IsConsistent_example : IsConsistent (call_kpis decimals day)
call_kpis-IsConsistent_example =
    call_kpis-IsConsistent decimals decimals-IsRounding day (omega arith)
