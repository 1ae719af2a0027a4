-- ===== src/Cpu/Msr.antt =====
-- The halves of a model-specific register (include/kernel/arch/msr.h).
use almeida_os.Base.{
  ℕ, zero, suc, ◌+◌, ◌*◌, ◌/◌, ◌%◌, ◌^◌, ◌≤◌, ◌<◌, ◌≡◌, refl, sym, ap, ◌∙◌, inl, inr, arith, ◌==◌,
  if◌then◌else◌, Bool-cases,
}
use Prim.Native.Nat.{bit_or}
use almeida_os.Word.Bits.{two-pow_suc, bit_or_next}
use almeida_os.Cpu.{Msrs, rdmsr, wrmsr}

bit_or-zero_below : (n b : ℕ) → b ≤ n → bit_or 0 b ≡ b
bit_or-zero_below n zero h = refl
bit_or-zero_below zero (suc b) h = absurd (omega arith)
bit_or-zero_below (suc n) (suc b) h =
    omega (arith, bit_or_next 0 (suc b), bit_or-zero_below n (suc b / 2) (omega arith))

-- The low digits stand apart from those that are set above them.
pub bit_or-above :
    (k a b c : ℕ) → a < 2 ^ k → bit_or (a + c * 2 ^ k) (b * 2 ^ k) ≡ a + bit_or c b * 2 ^ k
bit_or-above zero a b c h =
    let e : a + c * 2 ^ 0 ≡ c = omega arith in
    let f : b * 2 ^ 0 ≡ b = omega arith in rw (e, f) (omega arith)
bit_or-above (suc k) a b c h =
    let p = two-pow_suc k in
    let whole : b * 2 ^ suc k ≡ b * 2 ^ k * 2 = omega (arith, ap (λ t. b * t) p) in
    let left : a + c * 2 ^ suc k ≡ a + c * 2 ^ k * 2 = omega (arith, ap (λ t. c * t) p) in
    let half : b * 2 ^ k * 2 / 2 ≡ b * 2 ^ k = omega arith in
    let half' : (a + c * 2 ^ k * 2) / 2 ≡ a / 2 + c * 2 ^ k = omega arith in
    rw
      (
        whole,
        left,
        bit_or_next (a + c * 2 ^ k * 2) (b * 2 ^ k * 2),
        half,
        half',
        bit_or-above k (a / 2) b c (omega (arith, p)),
      )
      (omega (arith, ap (λ t. bit_or c b * t) p))

pub bit_or-disjoint : (k a b : ℕ) → a < 2 ^ k → bit_or a (b * 2 ^ k) ≡ a + b * 2 ^ k
bit_or-disjoint k a b h =
    let e : a + 0 * 2 ^ k ≡ a = omega arith in
    ap (λ t. bit_or t (b * 2 ^ k)) (sym e)
    ∙ bit_or-above k a b 0 h
    ∙ ap (λ t. a + t * 2 ^ k) (bit_or-zero_below b b (omega arith))

-- A register has the value that was written to it, of 64 bits, and the others keep theirs.
pub rdmsr-wrmsr :
    (a addr value : ℕ) (m : Msrs)
    → value < 2 ^ 64
    → rdmsr a (wrmsr addr value m) ≡ (if a == addr then value else rdmsr a m)
unfolding rdmsr wrmsr
rdmsr-wrmsr a addr value m h = elim (Bool-cases (a == addr)) [
  | inl e ↦
      let high : value / 2 ^ 32 % 2 ^ 32 * 2 ^ 32 % 2 ^ 64 ≡ value / 2 ^ 32 * 2 ^ 32 =
        omega arith in
      rw (rdmsr, wrmsr, e, high)
        (bit_or-disjoint 32 (value % 2 ^ 32) (value / 2 ^ 32) (omega arith) ∙ omega arith)
  | inr e ↦ rw (rdmsr, wrmsr, e) refl
]

-- A register has 64 bits.
pub rdmsr-lt : (a : ℕ) (m : Msrs) → (m a).0 < 2 ^ 32 → (m a).1 < 2 ^ 32 → rdmsr a m < 2 ^ 64
unfolding rdmsr
rdmsr-lt a m h l =
    let high : (m a).0 * 2 ^ 32 % 2 ^ 64 ≡ (m a).0 * 2 ^ 32 = omega arith in
    rw high (rw (bit_or-disjoint 32 (m a).1 (m a).0 l) (omega arith))
