-- ===== src/Clock/Delay.antt =====
-- src/kernel/time/delay.c: the calibration of delays. How many ticks of the timer a loop of a number of
-- rounds takes is an argument; the wait for the start of a tick is left out.
use native.Mathlib.Decide.{dec_lt}
use almeida_os.Base.{
  ℕ, zero, suc, ◌+◌, ◌/◌, ◌^◌, ◌≤◌, ◌<◌, ◌≡◌, refl, sym, ap, ◌∙◌, subst, ◌≢◌, ◌⊎◌, inl, inr, true,
  false, arith, ◌==◌, ==→eq, eq→==, Bool-cases, Run, ok, running,
}
use almeida_os.Word.{shl64, mul64}
use almeida_os.Word.Bits.{two-pow_suc, two-pow_pos, two-pow-lt}

abbrev pub hz : ℕ
hz = 1000

-- `loops_per_jiffy` before the calibration
abbrev pub loops_per_jiffy : ℕ
loops_per_jiffy = 65536

unfoldable pub calibrate_loop : ℕ → (ℕ → ℕ) → ℕ → Run ℕ
calibrate_loop zero ticks loops = running
calibrate_loop (suc fuel) ticks loops =
    let doubled : ℕ = shl64 loops 1 in
    elim (doubled == 0) [
      | true ↦ ok 0
      | false ↦ elim (ticks doubled == 0) [
        | false ↦ ok doubled
        | true ↦ calibrate_loop fuel ticks doubled
      ]
    ]

-- A bit is lost after 64 doublings at most.
unfoldable pub calibrate_delay : (ℕ → ℕ) → Run ℕ
calibrate_delay ticks = calibrate_loop 64 ticks loops_per_jiffy

-- the loops of a delay
unfoldable pub ndelay : ℕ → ℕ → ℕ
ndelay loops nsecs = mul64 (mul64 nsecs hz) loops / 1000000000

unfoldable pub udelay : ℕ → ℕ → ℕ
udelay loops usecs = mul64 (mul64 usecs hz) loops / 1000000

-- What the loop comes to from 2 ^ k on: the least larger power whose loop takes a tick, or 0.
abbrev pub Calibrated : (ℕ → ℕ) → ℕ → Run ℕ → Type 0
Calibrated ticks k res =
    ((j : ℕ) × (k < j)
      × (j < 64)
      × (res ≡ ok (2 ^ j))
      × (ticks (2 ^ j) ≢ 0)
      × ((i : ℕ) → k < i → i < j → ticks (2 ^ i) ≡ 0))
    ⊎ ((res ≡ ok 0) × ((i : ℕ) → k < i → i < 64 → ticks (2 ^ i) ≡ 0))

doubled_low : (k : ℕ) → k < 63 → shl64 (2 ^ k) 1 ≡ 2 ^ suc k
doubled_low k h = omega (arith, two-pow_suc k, two-pow-lt (suc k) 64 (omega arith))

doubled_zero : (k : ℕ) → k < 63 → (2 ^ suc k == 0) ≡ false
doubled_zero k h = ground (arith, two-pow_pos (suc k))

next_round :
    (fuel loops next : ℕ) (ticks : ℕ → ℕ)
    → shl64 loops 1 ≡ next
    → (next == 0) ≡ false
    → (ticks next == 0) ≡ true
    → calibrate_loop (suc fuel) ticks loops ≡ calibrate_loop fuel ticks next
unfolding calibrate_loop
next_round fuel loops next ticks e f g =
    rw (calibrate_loop, e, f, e, g) (ap (calibrate_loop fuel ticks) e)

calibrate_loop_lem :
    (fuel k : ℕ) (ticks : ℕ → ℕ)
    → k < 64
    → 64 ≤ fuel + k
    → Calibrated ticks k (calibrate_loop fuel ticks (2 ^ k))
unfolding calibrate_loop
calibrate_loop_lem zero k ticks h room = absurd (omega arith)
calibrate_loop_lem (suc fuel) k ticks h room = elim (dec_lt k 63) [
  | no top ↦
      let e : k ≡ 63 = omega arith in
      inr (rw (calibrate_loop, e) refl, λ i a b. absurd (omega arith))
  | yes low ↦
      let e = doubled_low k low in
      let f = doubled_zero k low in
      elim (Bool-cases (ticks (2 ^ suc k) == 0)) [
        | inr g ↦ inl (
          suc k,
          omega arith,
          omega arith,
          rw (calibrate_loop, e, f, e, g) (ap ok e),
          λ z.
              let t : (ticks (2 ^ suc k) == 0) ≡ true = eq→== _ _ z in
              let bad : false ≡ true = sym g ∙ t in cc,
          λ i a b. absurd (omega arith),
        )
        | inl g ↦
            subst (λ x. Calibrated ticks k x)
              (sym (next_round fuel (2 ^ k) (2 ^ suc k) ticks e f g))
              (later fuel k ticks (==→eq _ _ g)
                (calibrate_loop_lem fuel (suc k) ticks (omega arith) (omega arith)))
      ]
]
  where
    here_or_later :
        (k i : ℕ) (ticks : ℕ → ℕ)
        → ticks (2 ^ suc k) ≡ 0
        → k < i
        → (suc k < i → ticks (2 ^ i) ≡ 0)
        → ticks (2 ^ i) ≡ 0
    here_or_later k i ticks z a rest = elim (dec_lt (suc k) i) [
      | yes b ↦ rest b
      | no b ↦ let e : i ≡ suc k = omega arith in rw e z
    ]

    later :
        (fuel k : ℕ) (ticks : ℕ → ℕ)
        → ticks (2 ^ suc k) ≡ 0
        → Calibrated ticks (suc k) (calibrate_loop fuel ticks (2 ^ suc k))
        → Calibrated ticks k (calibrate_loop fuel ticks (2 ^ suc k))
    later fuel k ticks z (inl (j, a, b, run, some_, rest)) =
        inl (j, omega arith, b, run, some_, λ i c d. here_or_later k i ticks z c (λ e. rest i e d))
    later fuel k ticks z (inr (run, rest)) =
        inr (run, λ i c d. here_or_later k i ticks z c (λ e. rest i e d))

pub calibrate_delay_lem : (ticks : ℕ → ℕ) → Calibrated ticks 16 (calibrate_delay ticks)
unfolding calibrate_delay
calibrate_delay_lem ticks = calibrate_loop_lem 64 16 ticks (omega arith) (omega arith)
