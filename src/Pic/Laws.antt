-- ===== src/Pic/Laws.antt =====
-- Masking and unmasking one request line leaves the other fifteen alone.
use native.Mathlib.Decide.{dec_lt}
use almeida_os.Base.{
  ℕ, ◌-◌, ◌<◌, ◌≡◌, refl, sym, ap, ◌∙◌, inl, inr, false, ◌&&◌, ◌||◌, not, arith, ◌==◌, lt→ltb,
  le→ltb, ==→eq, Bool-cases,
}
use almeida_os.Word.{u8}
use almeida_os.Word.Bits.{
  digit, digit-lt, digit-bit_and, digit-complement, digit_big, bit_and-ones, two-pow_pos,
}
use almeida_os.BitOps.{test_bit, set_bit, clear_bit}
use almeida_os.BitOps.Laws.{test_bit-digit, test_bit-set_bit, test_bit-clear_bit}
use almeida_os.Pic.{Pic, masked, unmasked, pic_mask_irq, pic_unmask_irq, is_masked}

-- A byte keeps its own digits.
low_digit : (i f : ℕ) → i < 8 → test_bit i (u8 f) ≡ test_bit i f
low_digit i f h =
    let ones : digit i 255 ≡ 1 =
      omega (arith, digit-complement 8 i 0 h (omega arith), digit_big i 0 (two-pow_pos i)) in
    let same : digit i (u8 f) ≡ digit i f =
      ap (digit i) (sym (bit_and-ones 8 f))
      ∙ digit-bit_and i f 255
      ∙ omega (arith, ones, digit-lt i f) in
    test_bit-digit i (u8 f) ∙ ap (λ t. t == 1) same ∙ sym (test_bit-digit i f)

masked_lem :
    (m n value : ℕ) → m < 8 → n < 8 → test_bit m (masked n value) ≡ (m == n) || test_bit m value
unfolding masked
masked_lem m n value a b = elim (Bool-cases (test_bit n value)) [
  | inl e ↦ elim (Bool-cases (m == n)) [
    | inl s ↦ let t = ==→eq m n s in rw (masked, e, s) (ap (λ i. test_bit i value) t ∙ e)
    | inr s ↦ rw (masked, e, s) refl
  ]
  | inr e ↦
      rw (masked, e) (low_digit m (set_bit n value) a ∙ test_bit-set_bit m n value (omega arith))
]

unmasked_lem :
    (m n value : ℕ)
    → m < 8
    → n < 8
    → test_bit m (unmasked n value) ≡ not (m == n) && test_bit m value
unfolding unmasked
unmasked_lem m n value a b = elim (Bool-cases (test_bit n value)) [
  | inr e ↦ elim (Bool-cases (m == n)) [
    | inl s ↦ let t = ==→eq m n s in rw (unmasked, e, s) (ap (λ i. test_bit i value) t ∙ e)
    | inr s ↦ rw (unmasked, e, s) refl
  ]
  | inl e ↦
      rw (unmasked, e)
        (low_digit m (clear_bit n value) a
          ∙ test_bit-clear_bit m n value (omega arith) (omega arith))
]

-- After `pic_mask_irq` of one of the sixteen request lines a line is masked exactly when it is that
-- line or was masked before.
pub is_masked-pic_mask_irq :
    (m n : ℕ) (p : Pic)
    → m < 16
    → n < 16
    → is_masked m (pic_mask_irq n p) ≡ (m == n) || is_masked m p
unfolding pic_mask_irq
is_masked-pic_mask_irq m n p a b = elim (dec_lt m 8) [
  | yes c ↦ elim (dec_lt n 8) [
    | yes d ↦ rw (pic_mask_irq, lt→ltb m 8 c, lt→ltb n 8 d) (masked_lem m n p.mask1 c d)
    | no d ↦
        let other : (m == n) ≡ false = ground arith in
        rw (pic_mask_irq, lt→ltb m 8 c, le→ltb n 8 (omega arith), other) refl
  ]
  | no c ↦ elim (dec_lt n 8) [
    | yes d ↦
        let other : (m == n) ≡ false = ground arith in
        rw (pic_mask_irq, le→ltb m 8 (omega arith), lt→ltb n 8 d, other) refl
    | no d ↦
        let shifted : (m - 8 == n - 8) ≡ (m == n) = ground arith in
        rw (pic_mask_irq, le→ltb m 8 (omega arith), le→ltb n 8 (omega arith))
          (masked_lem (m - 8) (n - 8) p.mask2 (omega arith) (omega arith)
            ∙ ap (λ t. t || test_bit (m - 8) p.mask2) shifted)
  ]
]

-- After `pic_unmask_irq` of one of the sixteen request lines a line is masked exactly when it is
-- another one and was masked before.
pub is_masked-pic_unmask_irq :
    (m n : ℕ) (p : Pic)
    → m < 16
    → n < 16
    → is_masked m (pic_unmask_irq n p) ≡ not (m == n) && is_masked m p
unfolding pic_unmask_irq
is_masked-pic_unmask_irq m n p a b = elim (dec_lt m 8) [
  | yes c ↦ elim (dec_lt n 8) [
    | yes d ↦ rw (pic_unmask_irq, lt→ltb m 8 c, lt→ltb n 8 d) (unmasked_lem m n p.mask1 c d)
    | no d ↦
        let other : (m == n) ≡ false = ground arith in
        rw (pic_unmask_irq, lt→ltb m 8 c, le→ltb n 8 (omega arith), other) refl
  ]
  | no c ↦ elim (dec_lt n 8) [
    | yes d ↦
        let other : (m == n) ≡ false = ground arith in
        rw (pic_unmask_irq, le→ltb m 8 (omega arith), lt→ltb n 8 d, other) refl
    | no d ↦
        let shifted : (m - 8 == n - 8) ≡ (m == n) = ground arith in
        rw (pic_unmask_irq, le→ltb m 8 (omega arith), le→ltb n 8 (omega arith))
          (unmasked_lem (m - 8) (n - 8) p.mask2 (omega arith) (omega arith)
            ∙ ap (λ t. not t && test_bit (m - 8) p.mask2) shifted)
  ]
]
