-- ===== src/Clock/Calendar.antt =====
-- The conversion of src/kernel/time/rtc.c against the lengths of the months and years.
use native.Mathlib.Decide.{dec_lt}
use almeida_os.Base.{
  ℕ, zero, suc, ◌+◌, ◌-◌, ◌*◌, ◌%◌, ◌^◌, ◌≤◌, ◌<◌, ◌≡◌, refl, sym, ap, ◌∙◌, subst, ◌⊎◌, inl, inr,
  Bool, true, false, ◌&&◌, List, [], ◌∷◌, arith, ltb, if◌then◌else◌, lt→ltb, le→ltb, Bool-cases,
  length, get_or,
}
use almeida_os.Word.{add64}
use almeida_os.Clock.Cmos.{CmosClock}
use almeida_os.Clock.Rtc.{is_leap_year, years_loop, int_to_u64, rtc_covert_to_unixtime, month_table}

-- the days of the first `n` years from 2000 on
abbrev pub days_of_years : ℕ → ℕ
days_of_years zero = 0
days_of_years (suc n) = days_of_years n + (if is_leap_year (2000 + n) then 366 else 365)

-- the lengths of the months
abbrev pub month_lengths : Bool → List ℕ
month_lengths leap =
    31 ∷ (if leap then 29 else 28) ∷ 31 ∷ 30 ∷ 31 ∷ 30 ∷ 31 ∷ 31 ∷ 30 ∷ 31 ∷ 30 ∷ 31 ∷ []

abbrev pub sum_first : ℕ → List ℕ → ℕ
sum_first zero xs = 0
sum_first (suc n) [] = 0
sum_first (suc n) (x ∷ xs) = x + sum_first n xs

-- the milliseconds since 1970 by the calendar
abbrev pub unixtime : CmosClock → ℕ
unixtime now =
    946684800000
    + 86400000
      * (days_of_years now.year
          + sum_first (now.month - 1) (month_lengths (is_leap_year (2000 + now.year)))
          + (now.day - 1))
    + 3600000 * now.hour
    + 60000 * now.minute
    + 1000 * now.second

days_of_years-le : (n : ℕ) → days_of_years n ≤ 366 * n
days_of_years-le zero = omega arith
days_of_years-le (suc n) = elim (Bool-cases (is_leap_year (2000 + n))) [
  | inl e ↦ rw e (omega (arith, days_of_years-le n))
  | inr e ↦ rw e (omega (arith, days_of_years-le n))
]

next_year :
    (i : ℕ)
    → i < 255
    → add64
        (946684800000 + 86400000 * days_of_years i)
        (if is_leap_year (2000 + i) then 31622400000 else 31536000000)
      ≡ 946684800000 + 86400000 * days_of_years (suc i)
next_year i h = elim (Bool-cases (is_leap_year (2000 + i))) [
  | inl e ↦ rw e (omega (arith, days_of_years-le i))
  | inr e ↦ rw e (omega (arith, days_of_years-le i))
]

years_loop_lem :
    (rounds i : ℕ)
    → i + rounds ≤ 255
    → years_loop rounds i (946684800000 + 86400000 * days_of_years i)
      ≡ 946684800000 + 86400000 * days_of_years (i + rounds)
unfolding years_loop
years_loop_lem zero i h = let e : i + zero ≡ i = omega arith in rw e refl
years_loop_lem (suc rounds) i h =
    let more : i + suc rounds ≡ suc i + rounds = omega arith in
    ap (λ t. years_loop rounds (suc i) t) (next_year i (omega arith))
    ∙ years_loop_lem rounds (suc i) (omega arith)
    ∙ ap (λ t. 946684800000 + 86400000 * days_of_years t) (sym more)

-- The table and the correction for 29 February give the days before a month.
table_entry :
    (m : ℕ)
    → m < 12
    → (leap : Bool)
    → get_or month_table m 0 + (if ltb 2 (suc m) && leap then 86400000 else 0)
      ≡ 86400000 * sum_first m (month_lengths leap)
table_entry zero h true = refl
table_entry zero h false = refl
table_entry (suc zero) h true = refl
table_entry (suc zero) h false = refl
table_entry (suc (suc zero)) h true = refl
table_entry (suc (suc zero)) h false = refl
table_entry (suc (suc (suc zero))) h true = refl
table_entry (suc (suc (suc zero))) h false = refl
table_entry (suc (suc (suc (suc zero)))) h true = refl
table_entry (suc (suc (suc (suc zero)))) h false = refl
table_entry (suc (suc (suc (suc (suc zero))))) h true = refl
table_entry (suc (suc (suc (suc (suc zero))))) h false = refl
table_entry (suc (suc (suc (suc (suc (suc zero)))))) h true = refl
table_entry (suc (suc (suc (suc (suc (suc zero)))))) h false = refl
table_entry (suc (suc (suc (suc (suc (suc (suc zero))))))) h true = refl
table_entry (suc (suc (suc (suc (suc (suc (suc zero))))))) h false = refl
table_entry (suc (suc (suc (suc (suc (suc (suc (suc zero)))))))) h true = refl
table_entry (suc (suc (suc (suc (suc (suc (suc (suc zero)))))))) h false = refl
table_entry (suc (suc (suc (suc (suc (suc (suc (suc (suc zero))))))))) h true = refl
table_entry (suc (suc (suc (suc (suc (suc (suc (suc (suc zero))))))))) h false = refl
table_entry (suc (suc (suc (suc (suc (suc (suc (suc (suc (suc zero)))))))))) h true = refl
table_entry (suc (suc (suc (suc (suc (suc (suc (suc (suc (suc zero)))))))))) h false = refl
table_entry (suc (suc (suc (suc (suc (suc (suc (suc (suc (suc (suc zero))))))))))) h true = refl
table_entry (suc (suc (suc (suc (suc (suc (suc (suc (suc (suc (suc zero))))))))))) h false = refl
table_entry (suc (suc (suc (suc (suc (suc (suc (suc (suc (suc (suc (suc m)))))))))))) h leap =
    absurd (omega arith)

small_int : (x : ℕ) → x < 2 ^ 31 → int_to_u64 x ≡ x
unfolding int_to_u64
small_int x h = let e : x % 2 ^ 32 ≡ x = omega arith in rw (e, lt→ltb x (2 ^ 31) h) refl

large_int : (x : ℕ) → 2 ^ 31 ≤ x → x < 2 ^ 32 → int_to_u64 x ≡ x + (2 ^ 64 - 2 ^ 32)
unfolding int_to_u64
large_int x h b = let e : x % 2 ^ 32 ≡ x = omega arith in rw (e, le→ltb x (2 ^ 31) h) refl

sum_first-le : (m : ℕ) (xs : List ℕ) → sum_first m xs ≤ sum_first (length xs) xs
sum_first-le zero xs = omega arith
sum_first-le (suc m) [] = omega arith
sum_first-le (suc m) (x ∷ xs) = omega (arith, sum_first-le m xs)

year_length : (leap : Bool) → sum_first 12 (month_lengths leap) ≤ 366
year_length true = omega arith
year_length false = omega arith

-- For a year below 100, a month from 1 to 12 and a day from 1 to 31 with the time of a day: up to the
-- 25th the conversion gives the milliseconds that the lengths of the years and months come to; from
-- the 26th on it gives 2 ^ 32 less, since the milliseconds of the days overflow an `int`.
pub rtc_covert_to_unixtime_lem :
    (now : CmosClock)
    → now.year < 100
    → 1 ≤ now.month
    → now.month ≤ 12
    → 1 ≤ now.day
    → now.day ≤ 31
    → now.hour < 24
    → now.minute < 60
    → now.second < 60
    → ((now.day ≤ 25) × (rtc_covert_to_unixtime now ≡ unixtime now))
      ⊎ ((26 ≤ now.day) × (rtc_covert_to_unixtime now + 2 ^ 32 ≡ unixtime now))
unfolding rtc_covert_to_unixtime
rtc_covert_to_unixtime_lem now y m m' d d' h mi s =
    let leap : Bool = is_leap_year (2000 + now.year) in
    let before : List ℕ = month_lengths leap in
    let start : 0 + now.year ≡ now.year = omega arith in
    let years : years_loop now.year 0 946684800000
        ≡ 946684800000 + 86400000 * days_of_years now.year =
      years_loop_lem now.year 0 (omega arith)
      ∙ ap (λ t. 946684800000 + 86400000 * days_of_years t) start in
    let order : suc (now.month - 1) ≡ now.month = omega arith in
    let entry = table_entry (now.month - 1) (omega arith) leap in
    let entry' : get_or month_table (now.month - 1) 0
          + (if ltb 2 now.month && leap then 86400000 else 0)
        ≡ 86400000 * sum_first (now.month - 1) before =
      subst
        (λ t.
          get_or month_table (now.month - 1) 0 + (if ltb 2 t && leap then 86400000 else 0)
          ≡ 86400000 * sum_first (now.month - 1) before)
        order entry in
    let short : sum_first (now.month - 1) before ≤ 366 =
      omega (arith, sum_first-le (now.month - 1) before, year_length leap) in
    let long = days_of_years-le now.year in
    let hours = small_int (3600000 * now.hour) (omega arith) in
    let minutes = small_int (60000 * now.minute) (omega arith) in
    let seconds = small_int (1000 * now.second) (omega arith) in
    let extra = small_int 86400000 (omega arith) in
    elim (dec_lt now.day 26) [
      | yes early ↦
          let days = small_int (86400000 * (now.day - 1)) (omega arith) in
          elim (Bool-cases (ltb 2 now.month && leap)) [
            | inl b ↦ inl (
              omega arith,
              rw (years, b, extra, days, hours, minutes, seconds)
                  (omega (arith, rw b at entry', short, long)),
            )
            | inr b ↦ inl (
              omega arith,
              rw (years, b, days, hours, minutes, seconds)
                  (omega (arith, rw b at entry', short, long)),
            )
          ]
      | no late ↦
          let days = large_int (86400000 * (now.day - 1)) (omega arith) (omega arith) in
          elim (Bool-cases (ltb 2 now.month && leap)) [
            | inl b ↦ inr (
              omega arith,
              rw (years, b, extra, days, hours, minutes, seconds)
                  (omega (arith, rw b at entry', short, long)),
            )
            | inr b ↦ inr (
              omega arith,
              rw (years, b, days, hours, minutes, seconds)
                  (omega (arith, rw b at entry', short, long)),
            )
          ]
    ]
