-- ===== src/Maths/Smear.antt =====
-- `flp2` and `clp2`: copying the top digit down to every lower place.
use native.Mathlib.Nat.{div-le_self}
use almeida_os.Base.{
  ℕ, suc, ◌+◌, ◌-◌, ◌/◌, ◌%◌, ◌^◌, ◌≤◌, ◌<◌, max, ◌≡◌, ◌∙◌, ltb, Bool-cases, true, false, ◌⊎◌, inl,
  inr, ltb→lt, ltb→le, arith,
}
use almeida_os.Word.Bits.{
  digit, digit-lt, digit-shr, digit-bit_or, digit_top, bit_or-lt, digits_all_one, two-pow_suc,
  two-pow_pos, two-pow-lt,
}
use almeida_os.Maths.{smear, smear_all, flp2, clp2}

-- `x` has `k + 1` digits, and the top `j` of them are 1.
record IsFilled (k j x : ℕ) : Type 0 where
  narrow : x < 2 ^ suc k
  ones : (i : ℕ) → i ≤ k → k < i + j → digit i x ≡ 1

smear-IsFilled : (k j x : ℕ) → IsFilled k j x → IsFilled k (j + j) (smear j x)
unfolding smear
smear-IsFilled k j x h = record {
  narrow =
      bit_or-lt (suc k) x (x / 2 ^ j) h.narrow (omega (arith, div-le_self x (2 ^ j), h.narrow));
  ones = λ i p q. digit-bit_or i x (x / 2 ^ j) ∙ covered i p q (Bool-cases (ltb k (i + j)));
}
  where
    covered :
        (i : ℕ)
        → i ≤ k
        → k < i + (j + j)
        → (ltb k (i + j) ≡ true) ⊎ (ltb k (i + j) ≡ false)
        → max (digit i x) (digit i (x / 2 ^ j)) ≡ 1
    covered i p q (inl e) = omega (arith, h.ones i p (ltb→lt _ _ e), digit-lt i (x / 2 ^ j))
    covered i p q (inr e) =
        omega (arith, digit-lt i x, digit-shr j i x, h.ones (i + j) (ltb→le _ _ e) (omega arith))

top-IsFilled : (k x : ℕ) → 2 ^ k ≤ x → x < 2 ^ suc k → IsFilled k 1 x
top-IsFilled k x p q = record {
  narrow = q;
  ones = λ i a b. let e : i ≡ k = omega arith in rw e (digit_top k x p q);
}

-- All digits of the result are 1.
smear_all_lem : (k x : ℕ) → k < 64 → 2 ^ k ≤ x → x < 2 ^ suc k → smear_all x + 1 ≡ 2 ^ suc k
unfolding smear_all
smear_all_lem k x b p q =
    let full = smear-IsFilled k 32 _ (
      smear-IsFilled k 16 _ (
        smear-IsFilled k 8 _ (
          smear-IsFilled k 4 _
            (smear-IsFilled k 2 _ (smear-IsFilled k 1 _ (top-IsFilled k x p q)))))) in
    digits_all_one (suc k) _ full.narrow (λ i a. full.ones i (omega arith) (omega arith))

-- `flp2` rounds down to a power of two.
pub flp2_lem : (k x : ℕ) → k < 64 → 2 ^ k ≤ x → x < 2 ^ suc k → flp2 x ≡ 2 ^ k
unfolding flp2
flp2_lem k x b p q =
    omega (arith, smear_all_lem k x b p q, two-pow_suc k, two-pow_pos k, two-pow-lt k 64 b)

-- `clp2` rounds up to a power of two.
pub clp2_lem : (k x : ℕ) → k < 63 → 2 ^ k < x → x ≤ 2 ^ suc k → clp2 x ≡ 2 ^ suc k
unfolding clp2
clp2_lem k x b p q =
    let e : (x + 2 ^ 64 - 1) % 2 ^ 64 ≡ x - 1 =
      omega (arith, two-pow-lt (suc k) 64 (omega arith)) in
    rw e (
      omega (
        arith,
        smear_all_lem k (x - 1) (omega arith) (omega arith) (omega arith),
        two-pow-lt (suc k) 64 (omega arith),
      ))
