-- ===== src/Cd/Dates.antt =====
-- Times of impl/cd9660.h and impl/cd9660.cpp, and SetTime of impl/datetm.cpp. What localtime_r answers
-- is the parameter `local_time`.
use fsview.Base.{
  ℕ, zero, suc, ◌+◌, ◌/◌, ◌%◌, ◌^◌, Option, none, some, List, [], ◌∷◌, ◌++◌, if◌then◌else◌, ltb,
  replicate, ◌>>=◌,
}
use fsview.Extent.{sdiv64}
use fsview.Fat.Entry.{Tm, Timespec}
use fsview.Cd.{DirEntryDtTime}

-- A struct tm with its offset from GMT in seconds, an off64_t.
pub record ZonedTm : Type 0 where
  pub tm : Tm
  pub tm_gmtoff : ℕ

pub record DateTime : Type 0 where
  pub decimal : List ℕ
  pub tzoff : ℕ

-- Quarters of an hour, from 48 of them west of GMT.
unfoldable pub quarter_off : ZonedTm → ℕ
quarter_off t = (sdiv64 (sdiv64 t.tm_gmtoff 15) 60 + 48) % 2 ^ 8

-- "%0wd" of a number that is not negative.
abbrev pub digits : ℕ → ℕ → List ℕ
digits zero x = []
digits (suc w) x = digits w (x / 10) ++ ((48 + x % 10) ∷ [])

-- A number of more digits would be printed past the end of `buf`, or in front of the other ones.
abbrev pub print : ℕ → ℕ → Option (List ℕ)
print w x = if ltb x (10 ^ w) then some (digits w x) else none

unfoldable pub set_tm : ZonedTm → ℕ → Option DateTime
unfolding quarter_off
set_tm t centiseconds = do
  year ← print 4 (t.tm.tm_year + 1900)
  month ← print 2 (t.tm.tm_mon + 1)
  day ← print 2 t.tm.tm_mday
  hour ← print 2 t.tm.tm_hour
  min ← print 2 t.tm.tm_min
  sec ← print 2 t.tm.tm_sec
  centis ← print 2 centiseconds
  some (record {
    decimal = year ++ (month ++ (day ++ (hour ++ (min ++ (sec ++ centis)))));
    tzoff = quarter_off t;
  })

-- SetTime, as the operator= of both kinds of time calls it.
unfoldable pub set_time : {A : Type 0} → (ℕ → ZonedTm) → Timespec → (ZonedTm → ℕ → A) → A
set_time local_time ts set = set (local_time ts.tv_sec) (ts.tv_nsec / 10 / 1000 / 1000)

unfoldable pub set_dt_time : ZonedTm → ℕ → DirEntryDtTime
unfolding quarter_off
set_dt_time t centis = record {
  year = t.tm.tm_year % 2 ^ 8;
  month = (t.tm.tm_mon + 1) % 2 ^ 8;
  day = t.tm.tm_mday % 2 ^ 8;
  hour = t.tm.tm_hour % 2 ^ 8;
  minute = t.tm.tm_min % 2 ^ 8;
  second = t.tm.tm_sec % 2 ^ 8;
  tzone = quarter_off t;
}

-- operator= of both kinds.
abbrev pub set_date_time : (ℕ → ZonedTm) → Timespec → Option DateTime
set_date_time local_time ts = set_time local_time ts set_tm

abbrev pub set_entry_time : (ℕ → ZonedTm) → Timespec → DirEntryDtTime
set_entry_time local_time ts = set_time local_time ts set_dt_time

-- DateTime::clear.
abbrev pub cleared : DateTime
cleared = record { decimal = replicate 16 48; tzoff = 0 }

abbrev pub date_time_bytes : DateTime → List ℕ
date_time_bytes d = d.decimal ++ (d.tzoff % 256 ∷ [])
