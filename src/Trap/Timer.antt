-- ===== src/Trap/Timer.antt =====
-- src/kernel/arch/pit.c: the timer chip and its interrupt.
use native.Mathlib.Nat.{div-add-mod, mod-lt, mul-le-mul_right}
use native.Mathlib.Decide.{dec_lt}
use almeida_os.Base.{
  ℕ, ◌+◌, ◌*◌, ◌/◌, ◌%◌, ◌^◌, ◌≤◌, ◌<◌, ◌≡◌, ap, List, [], ◌∷◌, arith, ltb, if◌then◌else◌,
}
use almeida_os.Word.{u16, add64}
use almeida_os.Pic.{Pic, pic_send_eoi, pic_unmask_irq}
use almeida_os.Task.Scheduler.{Scheduler, scheduler_tick}

abbrev pub pit_chip_freq : ℕ
pit_chip_freq = 1193182

-- the frequency that is used for one that is asked for
unfoldable pub clamp : ℕ → ℕ
clamp freq_hz =
    if ltb freq_hz 19 then 19 else if ltb pit_chip_freq freq_hz then pit_chip_freq else freq_hz

unfoldable pub divider_of : ℕ → ℕ
divider_of freq_hz = u16 (pit_chip_freq / clamp freq_hz)

-- the bytes that the ports get: the mode at 0x43, then the divider at 0x40, its low byte first
unfoldable pub pit_init : ℕ → List (ℕ × ℕ)
pit_init freq_hz =
    (67, 52) ∷ (64, divider_of freq_hz % 256) ∷ (64, divider_of freq_hz / 256 % 256) ∷ []

-- the counters that the timer drives, with the controllers and the scheduler
pub record Kernel : Type 0 where
  pub jiffies : ℕ
  pub rtc_curr_unixtime : ℕ
  pub scheduler : Scheduler
  pub pic : Pic

unfoldable pub pit_enable : Kernel → Kernel
pit_enable k = record k { pic = pic_unmask_irq 0 k.pic }

unfoldable pub pit_timer_handle_irq : Kernel → Kernel
pit_timer_handle_irq k =
    let jiffies : ℕ = add64 k.jiffies 1 in
    record {
      jiffies = jiffies;
      rtc_curr_unixtime = add64 k.rtc_curr_unixtime 1;
      scheduler = scheduler_tick jiffies k.scheduler;
      pic = pic_send_eoi 0 k.pic;
    }

clamp-range : (f : ℕ) → (19 ≤ clamp f) × (clamp f ≤ 1193182)
unfolding clamp
clamp-range f = (ground arith, ground arith)

-- For any frequency asked for, the divider is the greatest number of 16 bits whose product with the
-- frequency that is used is no more than that of the chip: it is not 0, and 16 bits are enough.
pub divider_of_lem :
    (f : ℕ)
    → (1 ≤ divider_of f)
      × (divider_of f < 2 ^ 16)
      × (clamp f * divider_of f ≤ 1193182)
      × (1193182 < clamp f * divider_of f + clamp f)
unfolding divider_of
divider_of_lem f =
    let (low, high) = clamp-range f in
    let c : ℕ = clamp f in
    let d : ℕ = 1193182 / c in
    let whole : c * d + 1193182 % c ≡ 1193182 = div-add-mod 1193182 c in
    let rest : 1193182 % c < c = mod-lt 1193182 {m = c} (omega arith) in
    let small = mul-le-mul_right {m = 19} {n = c} d low in
    let word : d % 2 ^ 16 ≡ d = omega arith in
    let positive : 1 ≤ d = elim (dec_lt 0 d) [
      | yes p ↦ omega arith
      | no p ↦
          let none_left : d ≡ 0 = omega arith in absurd (omega (arith, ap (λ t. c * t) none_left))
    ] in
    rw word (positive, omega arith, omega arith, omega arith)
