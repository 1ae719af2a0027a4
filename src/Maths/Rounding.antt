-- ===== src/Maths/Rounding.antt =====
-- `round_up_po2`: the next multiple of a power of two.
use Prim.Native.Nat.{bit_and}
use native.Mathlib.Nat.{div-mul-le_self, lt-div-mul-add, mod-eq_of_lt, div-lt_iff_lt-mul}
use almeida_os.Base.{
  ℕ, zero, suc, ◌+◌, ◌-◌, ◌*◌, ◌/◌, ◌^◌, ◌≤◌, ◌<◌, ◌≡◌, refl, sym, ap, ◌∙◌, arith,
}
use almeida_os.Word.{add64, sub64}
use almeida_os.Word.Bits.{bit_and-shl, bit_and-ones, two-pow_add, two-pow-lt, two-pow_pos}
use almeida_os.Maths.{round_up_po2}

mul-pred : (m p : ℕ) → 0 < m → (m - 1) * p + p ≡ m * p
mul-pred zero p h = absurd (omega arith)
mul-pred (suc m) p h = let e : suc m - 1 ≡ m = omega arith in rw e (omega arith)

-- Masking with `-(2 ^ k)` drops the low `k` digits.
mask-low : (k x : ℕ) → k < 64 → x < 2 ^ 64 → bit_and x (sub64 0 (2 ^ k)) ≡ x / 2 ^ k * 2 ^ k
mask-low k x h b =
    let total : 64 - k + k ≡ 64 = omega arith in
    let split : 2 ^ 64 ≡ 2 ^ (64 - k) * 2 ^ k =
      ap (λ t. 2 ^ t) (sym total) ∙ two-pow_add (64 - k) k in
    let mask : sub64 0 (2 ^ k) ≡ (2 ^ (64 - k) - 1) * 2 ^ k =
      omega (
        arith,
        split,
        two-pow_pos k,
        two-pow-lt k 64 h,
        mul-pred _ (2 ^ k) (two-pow_pos (64 - k)),
      ) in
    let high : x / 2 ^ k < 2 ^ (64 - k) = (div-lt_iff_lt-mul (two-pow_pos k)).1 (rw (← split) b) in
    ap (bit_and x) mask
    ∙ bit_and-shl k x (2 ^ (64 - k) - 1)
    ∙ ap (λ t. t * 2 ^ k) (bit_and-ones (64 - k) (x / 2 ^ k) ∙ mod-eq_of_lt high)

-- The result is the least multiple of the power of two that is at least the value.
pub round_up_po2_lem :
    (k v : ℕ)
    → k < 64
    → v + 2 ^ k ≤ 2 ^ 64
    → (q : ℕ) × (round_up_po2 v (2 ^ k) ≡ q * 2 ^ k)
      × (v ≤ round_up_po2 v (2 ^ k))
      × (round_up_po2 v (2 ^ k) < v + 2 ^ k)
unfolding round_up_po2
round_up_po2_lem k v h b =
    let x : ℕ = v + 2 ^ k - 1 in
    let top : sub64 (add64 v (2 ^ k)) 1 ≡ x = omega (arith, two-pow_pos k) in
    let e : bit_and (sub64 (add64 v (2 ^ k)) 1) (sub64 0 (2 ^ k)) ≡ x / 2 ^ k * 2 ^ k =
      ap (λ t. bit_and t (sub64 0 (2 ^ k))) top ∙ mask-low k x h (omega (arith, two-pow_pos k)) in
    rw e (
      x / 2 ^ k,
      refl,
      omega (arith, lt-div-mul-add {a = x} (two-pow_pos k)),
      omega (arith, div-mul-le_self x (2 ^ k), two-pow_pos k),
    )
