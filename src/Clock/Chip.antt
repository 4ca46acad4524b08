-- ===== src/Clock/Chip.antt =====
-- src/rtc.c: the calendar time that the clock chip's registers stand for. The registers are an argument; a
-- mask of low ones is a remainder, and a single bit a quotient with a remainder.
use myos.Base.{
  ℕ, ◌+◌, ◌*◌, ◌/◌, ◌%◌, ◌≤◌, ◌<◌, ◌≡◌, ap, ◌∙◌, Bool, true, false, not, ◌&&◌, ltb, ◌==◌,
  if◌then◌else◌, arith,
}
use myos.Clock.{RtcTime}

-- The registers that `rtc_read_time` reads, each a byte.
pub record Registers : Type 0 where
  pub sec : ℕ
  pub min : ℕ
  pub hour : ℕ
  pub day : ℕ
  pub month : ℕ
  pub year : ℕ
  pub reg_b : ℕ

unfoldable pub bcd_to_bin : ℕ → ℕ
bcd_to_bin v = (v % 16 + v / 16 * 10) % 256

-- A register in binary coded decimal, unless the chip counts in binary.
abbrev pub decoded : Bool → ℕ → ℕ
decoded bcd v = if bcd then bcd_to_bin v else v

abbrev pub hour_of : Bool → Bool → ℕ → ℕ
hour_of bcd twelve v =
    let hour = if bcd then bcd_to_bin (v % 128) else v in
    if twelve && not (hour / 128 % 2 == 0) then (hour % 128 + 12) % 24 else hour

abbrev pub full_year : ℕ → ℕ
full_year year = if ltb year 70 then 2000 + year else 1900 + year

unfoldable pub read_time : Registers → RtcTime
read_time r =
    let bcd = r.reg_b / 4 % 2 == 0 in
    record {
      year = full_year (decoded bcd r.year);
      month = decoded bcd r.month;
      day = decoded bcd r.day;
      hour = hour_of bcd (r.reg_b / 2 % 2 == 0) r.hour;
      minute = decoded bcd r.min;
      second = decoded bcd r.sec;
    }

-- A number below 100 as the chip has it.
abbrev pub encoded : Bool → ℕ → ℕ
encoded bcd n = if bcd then n / 10 * 16 + n % 10 else n

-- The registers of a chip that counts 24 hours and shows a time.
abbrev pub registers : Bool → RtcTime → Registers
registers bcd t = record {
  sec = encoded bcd t.second;
  min = encoded bcd t.minute;
  hour = encoded bcd t.hour;
  day = encoded bcd t.day;
  month = encoded bcd t.month;
  year = encoded bcd (t.year % 100);
  reg_b = if bcd then 2 else 6;
}

-- A time between the years 1970 and 2069.
pub record IsTime (t : RtcTime) : Type 0 where
  pub from_1970 : 1970 ≤ t.year
  pub to_2069 : t.year ≤ 2069
  pub month : t.month ≤ 12
  pub day : t.day ≤ 31
  pub hour : t.hour < 24
  pub minute : t.minute < 60
  pub second : t.second < 60

bcd_to_bin_lem : (n : ℕ) → n < 100 → bcd_to_bin (n / 10 * 16 + n % 10) ≡ n
unfolding bcd_to_bin
bcd_to_bin_lem n h = omega (arith, h)

bcd_hour : (n : ℕ) → n < 24 → bcd_to_bin ((n / 10 * 16 + n % 10) % 128) ≡ n
unfolding bcd_to_bin
bcd_hour n h = omega (arith, h)

year_lem : (y : ℕ) → 1970 ≤ y → y ≤ 2069 → full_year (y % 100) ≡ y
year_lem y a b = ground (arith, a, b)

-- The round trip: of a chip that counts 24 hours, in binary coded decimal or in binary, `rtc_read_time`
-- reads the time that the chip shows, for the years 1970 to 2069.
pub read_time-registers : (bcd : Bool) (t : RtcTime) → IsTime t → read_time (registers bcd t) ≡ t
unfolding read_time
read_time-registers true t w =
    let y : full_year (bcd_to_bin (t.year % 100 / 10 * 16 + t.year % 100 % 10)) ≡ t.year =
      ap full_year (bcd_to_bin_lem (t.year % 100) (omega arith))
      ∙ year_lem t.year w.from_1970 w.to_2069 in
    λ i. record {
      year = y i;
      month = bcd_to_bin_lem t.month (omega (arith, w.month)) i;
      day = bcd_to_bin_lem t.day (omega (arith, w.day)) i;
      hour = bcd_hour t.hour w.hour i;
      minute = bcd_to_bin_lem t.minute (omega (arith, w.minute)) i;
      second = bcd_to_bin_lem t.second (omega (arith, w.second)) i;
    }
read_time-registers false t w = λ i. record t { year = year_lem t.year w.from_1970 w.to_2069 i }
