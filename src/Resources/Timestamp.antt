-- ===== src/Resources/Timestamp.antt =====
-- `validTimestamp` of ext-pi/src/manager/resources.ts.
use agent_cat.Base.{
  ℕ, zero, suc, ◌+◌, ◌-◌, ◌*◌, ◌%◌, Bool, false, not, ◌&&◌, ◌||◌, List, [], ◌∷◌, Option, none, some,
  String, Text, codes, is_digit, strip_prefix, is_empty, ltb, leb, ◌==◌, if◌then◌else◌,
}
use agent_cat.Json.Number.{span_digits}
use agent_cat.Resources.Fields.{bounded}

-- What the regular expression captures.
pub record Moment : Type 0 where
  pub year : ℕ
  pub month : ℕ
  pub day : ℕ
  pub hour : ℕ
  pub minute : ℕ
  pub second : ℕ
  pub zone_hour : ℕ
  pub zone_minute : ℕ

-- `[0-9]{n}` and what follows.
unfoldable pub digits : ℕ → ℕ → Text → Option (ℕ × Text)
digits zero value t = some (value, t)
digits (suc n) value [] = none
digits (suc n) value (c ∷ cs) =
    let rest = digits n (value * 10 + (c - b'0')) cs in if is_digit c then rest else none

abbrev and_then : {A B : Type 0} → Option A → (A → Option B) → Option B
and_then none next = none
and_then (some a) next = next a

-- Two digits after a separator.
abbrev pub two_after : String → Text → Option (ℕ × Text)
two_after separator t = and_then (strip_prefix (codes separator) t) (digits 2 0)

-- `(?:\.[0-9]+)?`.
unfoldable pub skip_fraction : Text → Option Text
skip_fraction [] = some []
skip_fraction (c ∷ cs) =
    if c == b'.'
    then (if is_empty (span_digits cs).0 then none else some (span_digits cs).1)
    else some (c ∷ cs)

abbrev at_end : ℕ × Text → Option (ℕ × Text)
at_end (value, t) = if is_empty t then some (value, t) else none

-- `(?:Z|[+-]([0-9]{2}):([0-9]{2}))$`.
unfoldable pub zone : Text → Option (ℕ × ℕ)
zone [] = none
zone (c ∷ cs) =
    if c == b'Z'
    then (if is_empty cs then some (0, 0) else none)
    else if c == b'+' || c == b'-'
    then and_then (digits 2 0 cs) (λ hour.
      and_then (and_then (two_after ":" hour.1) at_end) (λ minute. some (hour.0, minute.0)))
    else none

unfoldable pub moment_of : Text → Option Moment
moment_of t = and_then (digits 4 0 t) (λ year. and_then (two_after "-" year.1) (λ month.
    and_then (two_after "-" month.1) (λ day. and_then (two_after "T" day.1) (λ hour.
      and_then (two_after ":" hour.1) (λ minute. and_then (two_after ":" minute.1) (λ second.
        and_then (skip_fraction second.1) (λ rest. and_then (zone rest) (λ offset. some (record {
          year = year.0;
          month = month.0;
          day = day.0;
          hour = hour.0;
          minute = minute.0;
          second = second.0;
          zone_hour = offset.0;
          zone_minute = offset.1;
        })))))))))

abbrev pub is_leap : ℕ → Bool
is_leap year = year % 4 == 0 && (not (year % 100 == 0) || year % 400 == 0)

-- `MAXIMUM_DAY[month - 1]`; there is no such day out of range, and a comparison with undefined fails.
abbrev day_at : List ℕ → ℕ → ℕ
day_at [] n = 0
day_at (d ∷ ds) zero = d
day_at (d ∷ ds) (suc n) = day_at ds n

abbrev maximum_days : List ℕ
maximum_days = 31 ∷ 29 ∷ 31 ∷ 30 ∷ 31 ∷ 30 ∷ 31 ∷ 31 ∷ 30 ∷ 31 ∷ 30 ∷ 31 ∷ []

abbrev pub last_day : ℕ → ℕ → ℕ
last_day year month =
    if month == 2 && not (is_leap year) then 28 else day_at maximum_days (month - 1)

unfoldable pub valid_moment : Moment → Bool
valid_moment m =
    not (m.year == 0)
    && leb 1 m.month
    && leb m.month 12
    && leb 1 m.day
    && leb m.day (last_day m.year m.month)
    && ltb m.hour 24
    && ltb m.minute 60
    && ltb m.second 60
    && ltb m.zone_hour 24
    && ltb m.zone_minute 60

abbrev is_valid_moment : Option Moment → Bool
is_valid_moment none = false
is_valid_moment (some m) = valid_moment m

module _ (upper_case : Text → Text) where
  unfoldable pub valid_timestamp : Text → Bool
  valid_timestamp value = bounded value 20 64 && is_valid_moment (moment_of (upper_case value))
