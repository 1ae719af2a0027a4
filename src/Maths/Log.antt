-- ===== src/Maths/Log.antt =====
-- `ilog2` is the position of the highest digit that is 1.
use Prim.Native.Nat.{bit_and}
use native.Mathlib.Nat.{
  div-div-eq-div-mul, mod-eq_of_lt, div-lt_iff_lt-mul, div-mul-le_self, lt-div-mul-add,
}
use almeida_os.Base.{
  ℕ, zero, suc, ◌+◌, ◌-◌, ◌*◌, ◌/◌, ◌^◌, ◌≤◌, ◌<◌, ◌≡◌, refl, sym, ap, ◌∙◌, ◌==◌, Bool-cases, inl,
  inr, ==→eq, false, arith,
}
use almeida_os.Word.Bits.{bit_and-ones, bit_and-shl, two-pow_add, two-pow_pos}
use almeida_os.Maths.{LogState, round, ilog2_start, ilog2}

-- The state stands for `n`: what is left is `n` without its `p` low digits, and has at most `w` digits.
record IsLog (n w : ℕ) (s : LogState) : Type 0 where
  left : s.v ≡ n / 2 ^ s.p
  positive : 0 < s.v
  narrow : s.v < 2 ^ w

quotient-lt : (w v : ℕ) → v < 2 ^ (w + w) → v / 2 ^ w < 2 ^ w
quotient-lt w v h = (div-lt_iff_lt-mul (two-pow_pos w)).1 (rw (← two-pow_add w w) h)

-- What the macro tests is zero exactly when no digit from `w` on is 1.
test-round : (w v : ℕ) → v < 2 ^ (w + w) → bit_and v ((2 ^ w - 1) * 2 ^ w) ≡ v / 2 ^ w * 2 ^ w
test-round w v h =
    bit_and-shl w v (2 ^ w - 1)
    ∙ ap (λ t. t * 2 ^ w) (bit_and-ones w (v / 2 ^ w) ∙ mod-eq_of_lt (quotient-lt w v h))

zero-product : (a b : ℕ) → 0 < b → a * b ≡ 0 → a ≡ 0
zero-product zero b h e = refl
zero-product (suc a) b h e = absurd (grind arith)

round-IsLog : (n w : ℕ) (s : LogState) → IsLog n (w + w) s → IsLog n w (round w s)
unfolding round
round-IsLog n w s h = elim (Bool-cases (bit_and s.v ((2 ^ w - 1) * 2 ^ w) == 0)) [
  | inl e ↦
      let none_high : s.v / 2 ^ w ≡ 0 =
        zero-product (s.v / 2 ^ w) (2 ^ w) (two-pow_pos w)
          (sym (test-round w s.v h.narrow) ∙ ==→eq _ _ e) in
      rw e (record {
        left = h.left;
        positive = h.positive;
        narrow =
            omega (arith, lt-div-mul-add {a = s.v} (two-pow_pos w), ap (λ t. t * 2 ^ w) none_high);
      })
  | inr e ↦ rw e (record {
    left =
        ap (λ t. t / 2 ^ w) h.left
        ∙ div-div-eq-div-mul n (2 ^ s.p) (2 ^ w)
        ∙ ap (λ t. n / t) (sym (two-pow_add s.p w));
    positive = positive_high (test-round w s.v h.narrow) e;
    narrow = quotient-lt w s.v h.narrow;
  })
]
  where
    positive_high : {t : ℕ} → t ≡ s.v / 2 ^ w * 2 ^ w → (t == 0) ≡ false → 0 < s.v / 2 ^ w
    positive_high {t} d e = ground (arith, ap (λ x. x * 2 ^ w))

start-IsLog : (n : ℕ) → 0 < n → n < 2 ^ 64 → IsLog n 32 (ilog2_start n)
unfolding ilog2_start
start-IsLog n p q = ground arith

end-IsLog : (n : ℕ) (s : LogState) → IsLog n 1 s → (2 ^ s.p ≤ n) × (n < 2 ^ (s.p + 1))
end-IsLog n s h =
    let one : n / 2 ^ s.p ≡ 1 = omega (arith, h.left, h.positive, h.narrow) in
    let double : 2 ^ (s.p + 1) ≡ 2 ^ s.p * 2 ^ 1 = two-pow_add s.p 1 in
    let scaled : n / 2 ^ s.p * 2 ^ s.p ≡ 1 * 2 ^ s.p = ap (λ t. t * 2 ^ s.p) one in
    (
      omega (arith, scaled, div-mul-le_self n (2 ^ s.p)),
      omega (arith, scaled, double, lt-div-mul-add {a = n} (two-pow_pos s.p)),
    )

-- `ilog2 n` is the logarithm rounded down, for every non-zero 64-bit `n`.
pub ilog2_lem : (n : ℕ) → 0 < n → n < 2 ^ 64 → (2 ^ ilog2 n ≤ n) × (n < 2 ^ (ilog2 n + 1))
unfolding ilog2
ilog2_lem n p q = end-IsLog n _ (
    round-IsLog n 1 _ (
      round-IsLog n 2 _
        (round-IsLog n 4 _ (round-IsLog n 8 _ (round-IsLog n 16 _ (start-IsLog n p q))))))
