-- ===== src/Clock/Epoch.antt =====
-- The calendar from 1970 on, second by second, and what `rtc_to_epoch` of src/time.c makes of it.
use myos.Base.{
  ℕ, zero, suc, ◌+◌, ◌<◌, ◌≤◌, ◌≡◌, refl, some, ltb, ltb→lt, arith, ap, ◌∙◌, Bool-cases, inl, inr,
}
use myos.Clock.{RtcTime, rtc_to_epoch}
use myos.Clock.Calendar.{
  IsDate, month_length, next_second, seconds_since, seconds_since-next_second, rtc_to_epoch_lem,
  days_of_years, days_before,
}

month_length-positive : (y m : ℕ) → 1 ≤ month_length y m
month_length-positive y m = ground arith

next_second-year : (t : RtcTime) → t.year ≤ (next_second t).year
unfolding next_second
next_second-year t = ground arith

-- The second after a date is a date, until the years are used up.
next_second-IsDate :
    (t : RtcTime) → IsDate t → (next_second t).year < 65536 → IsDate (next_second t)
unfolding next_second
next_second-IsDate t d = elim (Bool-cases (ltb (t.second + 1) 60)) [
  | inl e ↦ rw e (λ u. record {
    year_from = d.year_from;
    year_to = d.year_to;
    month_from = d.month_from;
    month_to = d.month_to;
    day_from = d.day_from;
    day_to = d.day_to;
    hour = d.hour;
    minute = d.minute;
    second = ltb→lt _ _ e;
  })
  | inr s ↦ rw s (elim (Bool-cases (ltb (t.minute + 1) 60)) [
    | inl e ↦ rw e (λ u. record {
      year_from = d.year_from;
      year_to = d.year_to;
      month_from = d.month_from;
      month_to = d.month_to;
      day_from = d.day_from;
      day_to = d.day_to;
      hour = d.hour;
      minute = ltb→lt _ _ e;
      second = omega arith;
    })
    | inr m ↦ rw m (elim (Bool-cases (ltb (t.hour + 1) 24)) [
      | inl e ↦ rw e (λ u. record {
        year_from = d.year_from;
        year_to = d.year_to;
        month_from = d.month_from;
        month_to = d.month_to;
        day_from = d.day_from;
        day_to = d.day_to;
        hour = ltb→lt _ _ e;
        minute = omega arith;
        second = omega arith;
      })
      | inr h ↦ rw h (elim (Bool-cases (ltb t.day (month_length t.year t.month))) [
        | inl e ↦ rw e (λ u. record {
          year_from = d.year_from;
          year_to = d.year_to;
          month_from = d.month_from;
          month_to = d.month_to;
          day_from = omega arith;
          day_to = omega (arith, ltb→lt _ _ e);
          hour = omega arith;
          minute = omega arith;
          second = omega arith;
        })
        | inr l ↦ rw l (elim (Bool-cases (ltb t.month 12)) [
          | inl e ↦ rw e (λ u. record {
            year_from = d.year_from;
            year_to = d.year_to;
            month_from = omega arith;
            month_to = omega (arith, ltb→lt _ _ e);
            day_from = omega arith;
            day_to = month_length-positive t.year (t.month + 1);
            hour = omega arith;
            minute = omega arith;
            second = omega arith;
          })
          | inr y ↦ rw y (λ u. record {
            year_from = omega (arith, d.year_from);
            year_to = u;
            month_from = omega arith;
            month_to = omega arith;
            day_from = omega arith;
            day_to = month_length-positive (t.year + 1) 1;
            hour = omega arith;
            minute = omega arith;
            second = omega arith;
          })
        ])
      ])
    ])
  ])
]

-- The calendar time n seconds after the start of 1970.
unfoldable pub date : ℕ → RtcTime
date zero = record { year = 1970; month = 1; day = 1; hour = 0; minute = 0; second = 0 }
date (suc n) = next_second (date n)

date-IsDate : (n : ℕ) → (date n).year < 65536 → IsDate (date n) × (seconds_since (date n) ≡ n)
unfolding date seconds_since days_of_years days_before
date-IsDate zero h = (
  record {
    year_from = omega arith;
    year_to = h;
    month_from = omega arith;
    month_to = omega arith;
    day_from = omega arith;
    day_to = omega arith;
    hour = omega arith;
    minute = omega arith;
    second = omega arith;
  },
  refl,
)
date-IsDate (suc n) h =
    let (d, e) = date-IsDate n (omega (arith, next_second-year (date n), h)) in
    (
      next_second-IsDate (date n) d h,
      seconds_since-next_second (date n) d ∙ (ap (λ k. k + 1) e ∙ omega arith),
    )

-- Counting seconds in the calendar, months of their lengths and leap years included, from the start of
-- 1970 to the end of the last year of 16 bits, `rtc_to_epoch` gives of the n-th calendar time the
-- number n: it reads its table in bounds, and nothing wraps around.
pub rtc_to_epoch-date : (n : ℕ) → (date n).year < 65536 → rtc_to_epoch (date n) ≡ some n
rtc_to_epoch-date n h = let (d, e) = date-IsDate n h in rtc_to_epoch_lem (date n) d ∙ ap some e
