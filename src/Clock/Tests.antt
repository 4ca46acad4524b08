-- ===== src/Clock/Tests.antt =====
-- Runs of the clock, and the theorem at a concrete second.
use myos.Base.{refl, ◌≡◌, some, arith, true}
use myos.Clock.Chip.{read_time, IsTime}
use myos.Clock.{
  RtcTime, rtc_to_epoch, days_before_month, months_from, add_month, month_days, years_from,
  gettimeofday,
}
use myos.Clock.Calendar.{next_second}
use myos.Clock.Epoch.{date, rtc_to_epoch-date}

abbrev leap_day : RtcTime
leap_day = record { year = 1972; month = 2; day = 29; hour = 23; minute = 59; second = 59 }

epoch_of_leap_day : rtc_to_epoch leap_day ≡ some 68255999
unfolding rtc_to_epoch days_before_month months_from add_month month_days years_from
epoch_of_leap_day = refl

half_a_second : gettimeofday 150 100 1000 true ≡ record { tv_sec = 1001; tv_usec = 500000 }
unfolding gettimeofday
half_a_second = refl

rtc_to_epoch-date_example : rtc_to_epoch (date 100) ≡ some 100
unfolding date next_second
rtc_to_epoch-date_example = rtc_to_epoch-date 100 (omega arith)

-- New year's eve.
abbrev eve : RtcTime
eve = record { year = 1999; month = 12; day = 31; hour = 23; minute = 59; second = 58 }

eve-IsTime : IsTime eve
eve-IsTime = record {
  from_1970 = omega arith;
  to_2069 = omega arith;
  month = omega arith;
  day = omega arith;
  hour = omega arith;
  minute = omega arith;
  second = omega arith;
}

-- A chip of twelve hours in binary, at noon.
noon :
    (read_time
      (record { sec = 0; min = 0; hour = 0x8c; day = 1; month = 1; year = 26; reg_b = 4 })).hour
    ≡ 0
unfolding read_time
noon = refl
