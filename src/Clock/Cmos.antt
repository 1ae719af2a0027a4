-- ===== src/Clock/Cmos.antt =====
-- src/kernel/arch/cmos.c: reading the clock chip. The bytes that the data port returns are a list, in
-- the order of the reads; a read past its end is still to come.
use Prim.Native.Nat.{bit_and, bit_or}
use almeida_os.Base.{
  ℕ, zero, suc, ◌+◌, ◌-◌, ◌*◌, ◌/◌, ◌%◌, ◌^◌, ◌≤◌, ◌<◌, ◌≡◌, refl, ◌≢◌, Bool, true, false, ◌&&◌,
  not, List, [], ◌∷◌, arith, ◌==◌, if◌then◌else◌, length, Run, ok, running, ◌>>=◌,
}
use almeida_os.Word.{u8}
use almeida_os.Word.Bits.{bit_and-ones}
use almeida_os.BitOps.{test_bit}

-- `cmos_clock_t`
pub record CmosClock : Type 0 where
  pub second : ℕ
  pub minute : ℕ
  pub hour : ℕ
  pub day : ℕ
  pub month : ℕ
  pub year : ℕ

unfoldable pub cmos_read_reg : List ℕ → Run (ℕ × List ℕ)
cmos_read_reg [] = running
cmos_read_reg (byte ∷ rest) = ok (byte, rest)

-- the wait for the end of an update of the chip
unfoldable pub wait_update : List ℕ → Run (List ℕ)
wait_update [] = running
wait_update (status ∷ rest) = if test_bit 7 status then wait_update rest else ok rest

-- one round of the reading, and whether the seconds stayed the same
unfoldable pub read_round : List ℕ → Run (CmosClock × Bool × List ℕ)
read_round bytes = do
  start ← wait_update bytes
  (second, a) ← cmos_read_reg start
  (minute, b) ← cmos_read_reg a
  (hour, c) ← cmos_read_reg b
  (day, d) ← cmos_read_reg c
  (month, e) ← cmos_read_reg d
  (year, f) ← cmos_read_reg e
  (again, g) ← cmos_read_reg f
  let now : CmosClock = record {
    second = second;
    minute = minute;
    hour = hour;
    day = day;
    month = month;
    year = year;
  }
  ok (now, second == again, g)

unfoldable pub read_rounds : ℕ → List ℕ → Run (CmosClock × List ℕ)
read_rounds zero bytes = running
read_rounds (suc fuel) bytes = do
  (now, same, rest) ← read_round bytes
  elim same [ true ↦ ok (now, rest) | false ↦ read_rounds fuel rest ]

-- BCD_TO_BIN
unfoldable pub bcd_to_bin : ℕ → ℕ
bcd_to_bin bcd = bcd / 16 * 10 + bit_and bcd 15

-- the registers in binary
unfoldable pub to_binary : ℕ → CmosClock → CmosClock
to_binary reg_b c =
    if not (test_bit 2 reg_b)
    then record {
      second = u8 (bcd_to_bin c.second);
      minute = u8 (bcd_to_bin c.minute);
      hour = u8 (bit_or (bcd_to_bin c.hour) (bit_and c.hour 128));
      day = u8 (bcd_to_bin c.day);
      month = u8 (bcd_to_bin c.month);
      year = u8 (bcd_to_bin c.year);
    }
    else c

-- the hour of a 12-hour clock in the 24-hour format; `~(1 << 7)` keeps the low seven bits of a byte
unfoldable pub to_24_hours : ℕ → CmosClock → CmosClock
to_24_hours reg_b c =
    if not (test_bit 1 reg_b) && not (bit_and c.hour 128 == 0)
    then record c { hour = (bit_and c.hour 127 + 12) % 24 }
    else c

-- Each round takes at least eight bytes.
unfoldable pub cmos_read_rtc : List ℕ → Run CmosClock
cmos_read_rtc bytes = do
  (ret, rest) ← read_rounds (length bytes) bytes
  (reg_b, _) ← cmos_read_reg rest
  ok (to_24_hours reg_b (to_binary reg_b ret))

-- a number below 100 in two decimal digits of four bits
abbrev pub to_bcd : ℕ → ℕ
to_bcd n = n / 10 * 16 + n % 10

-- Decoding a number below 100 that is written in two decimal digits gives the number.
pub bcd_to_bin-to_bcd : (n : ℕ) → n < 100 → bcd_to_bin (to_bcd n) ≡ n
unfolding bcd_to_bin
bcd_to_bin-to_bcd n h =
    let low : bit_and (to_bcd n) (2 ^ 4 - 1) ≡ to_bcd n % 2 ^ 4 = bit_and-ones 4 (to_bcd n) in
    omega (arith, low)

-- the hour register of a 12-hour clock in the afternoon, in BCD
abbrev pub pm_register : ℕ → ℕ
pm_register h = 128 + to_bcd h

pm_byte :
    (h : ℕ)
    → 1 ≤ h
    → h ≤ 12
    → ((bit_and (u8 (bit_or (bcd_to_bin (pm_register h)) (bit_and (pm_register h) 128))) 128 == 0)
        ≡ false)
      × ((bit_and (u8 (bit_or (bcd_to_bin (pm_register h)) (bit_and (pm_register h) 128))) 127 + 12)
            % 24
          ≡ (h + 20) % 24)
unfolding bcd_to_bin
pm_byte zero a b = absurd (omega arith)
pm_byte (suc zero) a b = (refl, refl)
pm_byte (suc (suc zero)) a b = (refl, refl)
pm_byte (suc (suc (suc zero))) a b = (refl, refl)
pm_byte (suc (suc (suc (suc zero)))) a b = (refl, refl)
pm_byte (suc (suc (suc (suc (suc zero))))) a b = (refl, refl)
pm_byte (suc (suc (suc (suc (suc (suc zero)))))) a b = (refl, refl)
pm_byte (suc (suc (suc (suc (suc (suc (suc zero))))))) a b = (refl, refl)
pm_byte (suc (suc (suc (suc (suc (suc (suc (suc zero)))))))) a b = (refl, refl)
pm_byte (suc (suc (suc (suc (suc (suc (suc (suc (suc zero))))))))) a b = (refl, refl)
pm_byte (suc (suc (suc (suc (suc (suc (suc (suc (suc (suc zero)))))))))) a b = (refl, refl)
pm_byte (suc (suc (suc (suc (suc (suc (suc (suc (suc (suc (suc zero))))))))))) a b = (refl, refl)
pm_byte (suc (suc (suc (suc (suc (suc (suc (suc (suc (suc (suc (suc zero)))))))))))) a b =
    (refl, refl)
pm_byte (suc (suc (suc (suc (suc (suc (suc (suc (suc (suc (suc (suc (suc h))))))))))))) a b =
    absurd (omega arith)

pub to_24_hours-to_binary :
    (h reg_b : ℕ) (c : CmosClock)
    → 1 ≤ h
    → h ≤ 12
    → c.hour ≡ pm_register h
    → test_bit 1 reg_b ≡ false
    → test_bit 2 reg_b ≡ false
    → ((to_24_hours reg_b (to_binary reg_b c)).hour ≡ (h + 20) % 24)
      × ((to_24_hours reg_b (to_binary reg_b c)).hour ≢ h % 12 + 12)
unfolding to_24_hours to_binary
to_24_hours-to_binary h reg_b c a b e twelve bcd =
    let (flag, hour) = pm_byte h a b in
    let value : (to_24_hours reg_b (to_binary reg_b c)).hour ≡ (h + 20) % 24 =
      rw (to_24_hours, to_binary, twelve, bcd, e, flag) hour in
    (value, λ w. omega arith)
