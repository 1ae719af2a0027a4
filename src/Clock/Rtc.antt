-- ===== src/Clock/Rtc.antt =====
-- src/kernel/time/rtc.c and src/kernel/syscall/time.c: the time since 1970 in milliseconds, from the
-- registers of the clock.
use almeida_os.Base.{
  ℕ, zero, suc, ◌+◌, ◌-◌, ◌*◌, ◌/◌, ◌%◌, ◌^◌, Bool, true, false, ◌&&◌, List, [], ◌∷◌, map, ltb,
  ◌==◌, if◌then◌else◌, get_or, Run, ok, ◌>>=◌,
}
use almeida_os.Word.{add64}
use almeida_os.Clock.Cmos.{CmosClock, cmos_read_rtc}

abbrev pub rtc_millisec_in_day : ℕ
rtc_millisec_in_day = 86400000

-- CMOS_ELAPSED_MSECS_UNTIL_20_CENTURY
abbrev pub cmos_elapsed_msecs : ℕ
cmos_elapsed_msecs = 946684800000

-- the table `month`
abbrev pub month_table : List ℕ
month_table =
    map (λ days. rtc_millisec_in_day * days)
      (0 ∷ 31 ∷ 59 ∷ 90 ∷ 120 ∷ 151 ∷ 181 ∷ 212 ∷ 243 ∷ 273 ∷ 304 ∷ 334 ∷ [])

unfoldable pub is_leap_year : ℕ → Bool
is_leap_year year =
    if year % 400 == 0
    then true
    else if year % 100 == 0
    then false
    else if year % 4 == 0
    then true
    else false

-- the loop over the years from 2000 on
unfoldable pub years_loop : ℕ → ℕ → ℕ → ℕ
years_loop zero i ret = ret
years_loop (suc rounds) i ret =
    years_loop rounds (suc i)
      (add64 ret (if is_leap_year (2000 + i) then 31622400000 else 31536000000))

-- A product of `int`s wraps to 32 bits, and its sign is extended when it is added to 64 bits.
unfoldable pub int_to_u64 : ℕ → ℕ
int_to_u64 x = let w : ℕ = x % 2 ^ 32 in if ltb w (2 ^ 31) then w else w + (2 ^ 64 - 2 ^ 32)

unfoldable pub rtc_covert_to_unixtime : CmosClock → ℕ
rtc_covert_to_unixtime now =
    let years : ℕ = years_loop now.year 0 cmos_elapsed_msecs in
    let months : ℕ = add64 years (get_or month_table (now.month - 1) 0) in
    let leap : ℕ =
      if ltb 2 now.month && is_leap_year (2000 + now.year)
      then add64 months (int_to_u64 rtc_millisec_in_day)
      else months in
    let days : ℕ = add64 leap (int_to_u64 (rtc_millisec_in_day * (now.day - 1))) in
    let hours : ℕ = add64 days (int_to_u64 (3600000 * now.hour)) in
    let minutes : ℕ = add64 hours (int_to_u64 (60000 * now.minute)) in
    add64 minutes (int_to_u64 (1000 * now.second))

unfoldable pub rtc_init : List ℕ → Run ℕ
rtc_init bytes = do now ← cmos_read_rtc bytes; ok (rtc_covert_to_unixtime now)

unfoldable pub rtc_init_curr_time : List ℕ → Run ℕ
rtc_init_curr_time bytes = do now ← cmos_read_rtc bytes; ok (rtc_covert_to_unixtime now)

unfoldable pub sys_time : ℕ → ℕ
sys_time rtc_curr_unixtime = rtc_curr_unixtime / 1000
