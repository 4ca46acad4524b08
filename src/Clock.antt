-- ===== src/Clock.antt =====
-- src/time.c: the calendar time of src/rtc.c in seconds since 1970, and the time of day. The chip's
-- registers and the timer's tick count and frequency are arguments. The fields of a calendar time are
-- a 16-bit year and bytes, so only the subtraction from the day can wrap around.
pub mod Calendar
pub mod Epoch
pub mod Chip
mod Tests
use myos.Base.{
  ℕ, zero, suc, ◌+◌, ◌-◌, ◌*◌, ◌/◌, ◌%◌, Bool, true, false, not, ◌&&◌, ◌||◌, Option, none, some,
  List, [], ◌∷◌, get_elem?, ltb, ◌==◌, if◌then◌else◌,
}
use myos.Base.Bits.{pow2}

pub record RtcTime : Type 0 where
  pub year : ℕ
  pub month : ℕ
  pub day : ℕ
  pub hour : ℕ
  pub minute : ℕ
  pub second : ℕ

abbrev pub is_leap : ℕ → Bool
is_leap y = (y % 4 == 0) && not (y % 100 == 0) || (y % 400 == 0)

-- The table of month lengths; `none` is a read behind its end.
abbrev pub days_table : List ℕ
days_table = 31 ∷ 28 ∷ 31 ∷ 30 ∷ 31 ∷ 30 ∷ 31 ∷ 31 ∷ 30 ∷ 31 ∷ 30 ∷ 31 ∷ []

unfoldable pub month_days : ℕ → Option ℕ
month_days i = get_elem? days_table i

-- A round of the loop of `days_before_month`, for the month i.
unfoldable pub add_month : ℕ → ℕ → ℕ → Option ℕ
add_month y i total = elim (month_days (i - 1)) [
  | none ↦ none
  | some d ↦ some (if (i == 2) && is_leap y then total + d + 1 else total + d)
]

unfoldable pub months_from : ℕ → ℕ → ℕ → ℕ → Option ℕ
months_from y zero i total = some total
months_from y (suc n) i total = elim (add_month y i total) [
  | none ↦ none
  | some t ↦ months_from y n (i + 1) t
]

unfoldable pub days_before_month : ℕ → ℕ → Option ℕ
days_before_month y m = months_from y (m - 1) 1 0

-- The loop of `rtc_to_epoch` over n years from `year` on.
unfoldable pub years_from : ℕ → ℕ → ℕ → ℕ
years_from zero year days = days
years_from (suc n) year days = years_from n (year + 1) (days + (if is_leap year then 366 else 365))

unfoldable pub rtc_to_epoch : RtcTime → Option ℕ
rtc_to_epoch t = elim (days_before_month t.year t.month) [
  | none ↦ none
  | some before ↦
      let days = years_from (t.year - 1970) 1970 0 + before in
      let day = (t.day + (pow2 64 - 1)) % pow2 64 in
      let seconds = ((days + day) % pow2 64 * 86400) % pow2 64 in
      some ((seconds + t.hour * 3600 + t.minute * 60 + t.second) % pow2 64)
]

pub record TimeVal : Type 0 where
  pub tv_sec : ℕ
  pub tv_usec : ℕ

-- `ready` is the flag that `time_init` sets, with the base.
unfoldable pub gettimeofday : ℕ → ℕ → ℕ → Bool → TimeVal
gettimeofday ticks hz base ready =
    if (hz == 0) || not ready then record { tv_sec = 0; tv_usec = 0 } else record {
      tv_sec = (base + ticks / hz) % pow2 64;
      tv_usec = ((ticks % hz) * 1000000 % pow2 64) / hz;
    }

unfoldable pub now_ms : ℕ → ℕ → ℕ
now_ms ticks hz = if hz == 0 then 0 else (ticks * 1000 % pow2 64) / hz
