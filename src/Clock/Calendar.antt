-- ===== src/Clock/Calendar.antt =====
-- The seconds that `rtc_to_epoch` of src/time.c gives count the seconds of the calendar.
use myos.Base.{
  ℕ, zero, suc, ◌+◌, ◌-◌, ◌*◌, ◌%◌, ◌<◌, ◌≤◌, ◌≡◌, refl, true, false, Bool, ◌||◌, some, ltb, ◌==◌,
  if◌then◌else◌, arith, ap, ap₂, sym, ◌∙◌, Bool-cases, inl, inr, subst,
}
use myos.Base.Bits.{pow2}
use myos.Clock.{
  RtcTime, is_leap, month_days, add_month, months_from, days_before_month, years_from, rtc_to_epoch,
}

-- The calendar: of the years that 4 divides, those are leap years that 100 does not divide or 400 does.
abbrev pub has_leap_day : ℕ → Bool
has_leap_day y = if y % 400 == 0 then true else if y % 100 == 0 then false else y % 4 == 0

is_leap_lem : (y : ℕ) → is_leap y ≡ has_leap_day y
is_leap_lem y = ground arith

-- The calendar: the length of a month of a year.
abbrev pub month_length : ℕ → ℕ → ℕ
month_length y m =
    if m == 2
    then (if has_leap_day y then 29 else 28)
    else if (m == 4) || (m == 6) || (m == 9) || (m == 11)
    then 30
    else 31

add_month_lem : (y i t : ℕ) → i < 12 → add_month y (i + 1) t ≡ some (t + month_length y (i + 1))
unfolding add_month month_days
add_month_lem y zero t h = refl
add_month_lem y (suc zero) t h = elim (Bool-cases (has_leap_day y)) [
  | inl e ↦ let e' : is_leap y ≡ true = is_leap_lem y ∙ e in rw (e, e') (ap some (omega arith))
  | inr e ↦ let e' : is_leap y ≡ false = is_leap_lem y ∙ e in rw (e, e') refl
]
add_month_lem y (suc (suc zero)) t h = refl
add_month_lem y (suc (suc (suc zero))) t h = refl
add_month_lem y (suc (suc (suc (suc zero)))) t h = refl
add_month_lem y (suc (suc (suc (suc (suc zero))))) t h = refl
add_month_lem y (suc (suc (suc (suc (suc (suc zero)))))) t h = refl
add_month_lem y (suc (suc (suc (suc (suc (suc (suc zero))))))) t h = refl
add_month_lem y (suc (suc (suc (suc (suc (suc (suc (suc zero)))))))) t h = refl
add_month_lem y (suc (suc (suc (suc (suc (suc (suc (suc (suc zero))))))))) t h = refl
add_month_lem y (suc (suc (suc (suc (suc (suc (suc (suc (suc (suc zero)))))))))) t h = refl
add_month_lem y (suc (suc (suc (suc (suc (suc (suc (suc (suc (suc (suc zero))))))))))) t h = refl
add_month_lem y (suc (suc (suc (suc (suc (suc (suc (suc (suc (suc (suc (suc i)))))))))))) t h =
    ground arith

-- The days before a month in the calendar.
unfoldable pub days_before : ℕ → ℕ → ℕ
days_before y zero = 0
days_before y (suc n) = days_before y n + month_length y (n + 1)

months_from_lem :
    (y n i : ℕ)
    → i + n ≤ 12
    → months_from y n (i + 1) (days_before y i) ≡ some (days_before y (i + n))
unfolding months_from days_before
months_from_lem y zero i h = ap (λ k. some (days_before y k)) (omega arith)
months_from_lem y (suc n) i h =
    let e : suc i + 1 ≡ i + 1 + 1 = omega arith in
    let e' : suc i + n ≡ i + suc n = omega arith in
    rw (add_month_lem y i (days_before y i) (omega arith), months_from)
      (subst (λ k. months_from y n k (days_before y (suc i)) ≡ some (days_before y (i + suc n))) e
        (months_from_lem y n (suc i) (omega arith) ∙ ap (λ k. some (days_before y k)) e'))

-- For a month of the year, `days_before_month` counts the days of the months before it.
pub days_before_month_lem :
    (y n : ℕ) → n < 12 → days_before_month y (n + 1) ≡ some (days_before y n)
unfolding days_before_month days_before
days_before_month_lem y n h =
    let e : n + 1 - 1 ≡ n = omega arith in
    rw e (months_from_lem y n 0 (omega arith) ∙ ap (λ k. some (days_before y k)) (omega arith))

-- The days of the n years from 1970 on in the calendar.
unfoldable pub days_of_years : ℕ → ℕ
days_of_years zero = 0
days_of_years (suc n) = days_of_years n + (if has_leap_day (1970 + n) then 366 else 365)

years_from_lem : (n k : ℕ) → years_from n (1970 + k) (days_of_years k) ≡ days_of_years (k + n)
unfolding years_from days_of_years
years_from_lem zero k = ap days_of_years (omega arith)
years_from_lem (suc n) k =
    let leap : is_leap (1970 + k) ≡ has_leap_day (1970 + k) = is_leap_lem (1970 + k) in
    let e : 1970 + suc k ≡ 1970 + k + 1 = omega arith in
    let e' : suc k + n ≡ k + suc n = omega arith in
    ap (λ b. years_from n (1970 + k + 1) (days_of_years k + (if b then 366 else 365))) leap
    ∙ subst (λ y. years_from n y (days_of_years (suc k)) ≡ days_of_years (k + suc n)) e
        (years_from_lem n (suc k) ∙ ap days_of_years e')

days_of_years-bound : (n : ℕ) → days_of_years n ≤ 366 * n
unfolding days_of_years
days_of_years-bound zero = omega arith
days_of_years-bound (suc n) = ground (arith, days_of_years-bound n)

days_before-bound : (y n : ℕ) → days_before y n ≤ 31 * n
unfolding days_before
days_before-bound y zero = omega arith
days_before-bound y (suc n) = ground (arith, days_before-bound y n)

-- A date and time of the calendar between 1970 and the last year of 16 bits.
pub record IsDate (t : RtcTime) : Type 0 where
  pub year_from : 1970 ≤ t.year
  pub year_to : t.year < 65536
  pub month_from : 1 ≤ t.month
  pub month_to : t.month ≤ 12
  pub day_from : 1 ≤ t.day
  pub day_to : t.day ≤ month_length t.year t.month
  pub hour : t.hour < 24
  pub minute : t.minute < 60
  pub second : t.second < 60

-- The seconds since the start of 1970.
unfoldable pub seconds_since : RtcTime → ℕ
seconds_since t =
    (days_of_years (t.year - 1970) + days_before t.year (t.month - 1) + (t.day - 1)) * 86400
    + t.hour * 3600
    + t.minute * 60
    + t.second

no_wrap :
    (years before day hour minute second : ℕ)
    → years ≤ 23265156
    → before ≤ 372
    → 1 ≤ day
    → day ≤ 31
    → hour < 24
    → minute < 60
    → second < 60
    → (((years + before + (day + (pow2 64 - 1)) % pow2 64) % pow2 64 * 86400) % pow2 64
          + hour * 3600
          + minute * 60
          + second)
        % pow2 64
      ≡ (years + before + (day - 1)) * 86400 + hour * 3600 + minute * 60 + second
no_wrap years before day hour minute second hy hb d1 d31 hh hm hs = omega (arith)

month_length-bound : (y m : ℕ) → month_length y m ≤ 31
month_length-bound y m = ground arith

-- For a date of the calendar `rtc_to_epoch` reads its table in bounds, does not wrap around, and
-- gives the seconds since the start of 1970.
pub rtc_to_epoch_lem : (t : RtcTime) → IsDate t → rtc_to_epoch t ≡ some (seconds_since t)
unfolding rtc_to_epoch seconds_since days_of_years
rtc_to_epoch_lem t d =
    let month : t.month - 1 + 1 ≡ t.month = omega (arith, d.month_from) in
    let before =
      ap (days_before_month t.year) (sym month)
      ∙ days_before_month_lem t.year (t.month - 1) (omega (arith, d.month_from, d.month_to)) in
    let years : years_from (t.year - 1970) 1970 0 ≡ days_of_years (t.year - 1970) =
      years_from_lem (t.year - 1970) 0 ∙ ap days_of_years (omega arith) in
    rw (before, rtc_to_epoch)
      (rw years (
        ap some (
          no_wrap (days_of_years (t.year - 1970)) (days_before t.year (t.month - 1)) t.day t.hour
            t.minute t.second (omega (arith, days_of_years-bound (t.year - 1970), d.year_to))
            (omega (arith, days_before-bound t.year (t.month - 1), d.month_to)) d.day_from
            (omega (arith, d.day_to, month_length-bound t.year t.month)) d.hour d.minute d.second)))

-- The next second of the calendar.
unfoldable pub next_second : RtcTime → RtcTime
next_second t =
    if ltb (t.second + 1) 60
    then record t { second = t.second + 1 }
    else if ltb (t.minute + 1) 60
    then record t { minute = t.minute + 1; second = 0 }
    else if ltb (t.hour + 1) 24
    then record t { hour = t.hour + 1; minute = 0; second = 0 }
    else if ltb t.day (month_length t.year t.month)
    then record t { day = t.day + 1; hour = 0; minute = 0; second = 0 }
    else if ltb t.month 12
    then record t { month = t.month + 1; day = 1; hour = 0; minute = 0; second = 0 }
    else record { year = t.year + 1; month = 1; day = 1; hour = 0; minute = 0; second = 0 }

days_before-month :
    (y m : ℕ) → 1 ≤ m → days_before y (m + 1 - 1) ≡ days_before y (m - 1) + month_length y m
unfolding days_before
days_before-month y zero h = omega arith
days_before-month y (suc m) h =
    let e : m ≡ suc m - 1 = omega arith in
    let e' : m + 1 ≡ suc m = omega arith in
    let e'' : suc m + 1 - 1 ≡ suc m = omega arith in
    ap (days_before y) e'' ∙ ap₂ (λ a b. days_before y a + month_length y b) e e'

days_before-year : (y : ℕ) → days_before y 12 ≡ (if has_leap_day y then 366 else 365)
unfolding days_before
days_before-year y = elim (Bool-cases (has_leap_day y)) [ inl e ↦ rw e refl | inr e ↦ rw e refl ]

days_of_years-next :
    (y : ℕ) → 1970 ≤ y → days_of_years (y + 1 - 1970) ≡ days_of_years (y - 1970) + days_before y 12
unfolding days_of_years
days_of_years-next y h =
    let e : y + 1 - 1970 ≡ suc (y - 1970) = omega arith in
    let e' : 1970 + (y - 1970) ≡ y = omega arith in
    ap days_of_years e
    ∙ (ap (λ k. days_of_years (y - 1970) + (if has_leap_day k then 366 else 365)) e'
        ∙ ap (λ k. days_of_years (y - 1970) + k) (sym (days_before-year y)))

days_before-december :
    (y m : ℕ) → m ≡ 12 → days_before y (m - 1) + month_length y m ≡ days_before y 12
days_before-december y m e =
    sym (days_before-month y m (omega arith)) ∙ ap (days_before y) (omega arith)

last : (a b : ℕ) → ltb a b ≡ false → a ≤ b → a ≡ b
last a b e h = ground arith

close_month :
    (a b b' day len : ℕ) → b' ≡ b + len → day ≡ len → 1 ≤ day → a + b' + 0 ≡ a + b + (day - 1) + 1
close_month a b b' day len e l h = omega arith

close_year :
    (a b a' y day len : ℕ)
    → a' ≡ a + y
    → b + len ≡ y
    → day ≡ len
    → 1 ≤ day
    → a' + 0 + 0 ≡ a + b + (day - 1) + 1
close_year a b a' y day len e e' l h = omega arith

pub seconds_since-next_second :
    (t : RtcTime) → IsDate t → seconds_since (next_second t) ≡ seconds_since t + 1
unfolding next_second seconds_since days_before
seconds_since-next_second t d = elim (Bool-cases (ltb (t.second + 1) 60)) [
  | inl e ↦ rw e (omega arith)
  | inr s ↦ rw s (elim (Bool-cases (ltb (t.minute + 1) 60)) [
    | inl e ↦ rw e (ground (arith, s, d.second))
    | inr m ↦ rw m (elim (Bool-cases (ltb (t.hour + 1) 24)) [
      | inl e ↦ rw e (ground (arith, s, m, d.second, d.minute))
      | inr h ↦ rw h (elim (Bool-cases (ltb t.day (month_length t.year t.month))) [
        | inl e ↦ rw e (midnight s m h (omega (arith, d.day_from)))
        | inr l ↦ rw l (elim (Bool-cases (ltb t.month 12)) [
          | inl e ↦ rw e (
              midnight s m h (
                close_month (days_of_years (t.year - 1970)) (days_before t.year (t.month - 1)) _
                  t.day _ (days_before-month t.year t.month d.month_from) (last t.day _ l d.day_to)
                  d.day_from))
          | inr y ↦ rw y (
              midnight s m h (
                close_year (days_of_years (t.year - 1970)) (days_before t.year (t.month - 1)) _
                  (days_before t.year 12) t.day _ (days_of_years-next t.year d.year_from)
                  (days_before-december t.year t.month (last t.month 12 y d.month_to))
                  (last t.day _ l d.day_to) d.day_from))
        ])
      ])
    ])
  ])
]
  where
    midnight :
        ltb (t.second + 1) 60 ≡ false
        → ltb (t.minute + 1) 60 ≡ false
        → ltb (t.hour + 1) 24 ≡ false
        → {days : ℕ}
        → days ≡ days_of_years (t.year - 1970) + days_before t.year (t.month - 1) + (t.day - 1) + 1
        → days * 86400 + 0 * 3600 + 0 * 60 + 0 ≡ seconds_since t + 1
    midnight s m h e = ground (arith, s, m, h, e, d.second, d.minute, d.hour)
