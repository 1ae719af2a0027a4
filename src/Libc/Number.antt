-- ===== src/Libc/Number.antt =====
-- The decimal numbers that `ltoa` of src/libc/stdlib/ltoa.c writes.
use native.Mathlib.Nat.{pow-succ'}
use mathlib.Core.List.{reverse, reverse-cons}
use almeida_os.Base.{
  ℕ, zero, suc, ◌/◌, ◌%◌, ◌^◌, ◌≤◌, ◌<◌, ◌≡◌, refl, sym, ap, ap₂, ◌∙◌, subst, ◌≢◌, inl, inr, Bool,
  true, false, ◌&&◌, not, [], ◌∷◌, ◌++◌, arith, ltb, leb, ◌==◌, ==→eq, Bool-cases, length, Run, ok,
  bug, running,
}
use almeida_os.Text.{Chars}
use almeida_os.Text.Digits.{
  value_of, value_of-digits_loop, digits_loop, digit_char, lltoa, signed_loop,
}
use almeida_os.Text.Reverse.{read_number, read_number-reverse, length-reverse, strrev_lem}
use almeida_os.Libc.{ltoa}
use almeida_os.Libc.Same.{ltoa_lem}

-- characters that printing copies: no placeholder, tab or end
abbrev pub is_printed : ℕ → Bool
is_printed c = not (c == 37) && not (c == 9) && not (c == 0)

abbrev pub all_printed : Chars → Bool
all_printed [] = true
all_printed (c ∷ cs) = is_printed c && all_printed cs

pub all_printed-append :
    (xs ys : Chars) → all_printed xs ≡ true → all_printed ys ≡ true → all_printed (xs ++ ys) ≡ true
all_printed-append [] ys a b = b
all_printed-append (x ∷ xs) ys a b = elim (Bool-cases (is_printed x)) [
  | inl e ↦
      let rest : all_printed xs ≡ true = subst (λ t. t && all_printed xs ≡ true) e a in
      ap (λ t. t && all_printed (xs ++ ys)) e ∙ all_printed-append xs ys rest b
  | inr e ↦ let bad : false ≡ true = subst (λ t. t && all_printed xs ≡ true) e a in cc
]

digit-is_printed : (n : ℕ) → n < 10 → is_printed (digit_char n) ≡ true
digit-is_printed n h = ground arith

digits_shape :
    (fuel n value : ℕ)
    → value < 10 ^ n
    → n < fuel
    → (str : Chars) × (digits_loop fuel value 10 ≡ ok str)
      × (all_printed str ≡ true)
      × (length str ≤ n)
unfolding digits_loop
digits_shape zero n value a b = absurd (omega arith)
digits_shape (suc fuel) zero value a b =
    let e : value ≡ 0 = omega arith in ([], rw (digits_loop, e) refl, refl, omega arith)
digits_shape (suc fuel) (suc n) value a b = elim (Bool-cases (value == 0)) [
  | inl e ↦ ([], rw (digits_loop, e) refl, refl, omega arith)
  | inr e ↦
      let (str, run, printed, short) =
        digits_shape fuel n (value / 10) (omega (arith, pow-succ' 10 n)) (omega arith) in
      (
        digit_char (value % 10) ∷ str,
        rw (digits_loop, e, run) refl,
        ap₂ (λ x y. x && y) (digit-is_printed (value % 10) (omega arith)) printed,
        omega arith,
      )
]

all_printed-reverse : (cs : Chars) → all_printed cs ≡ true → all_printed (reverse cs) ≡ true
all_printed-reverse [] h = refl
all_printed-reverse (c ∷ cs) h = elim (Bool-cases (is_printed c)) [
  | inl e ↦
      let rest : all_printed cs ≡ true = subst (λ t. t && all_printed cs ≡ true) e h in
      ap all_printed (reverse-cons c cs)
      ∙ all_printed-append (reverse cs) (c ∷ []) (all_printed-reverse cs rest)
          (ap (λ t. t && true) e)
  | inr e ↦ let bad : false ≡ true = subst (λ t. t && all_printed cs ≡ true) e h in cc
]

abbrev result : Run Chars → Chars
result (ok str) = str
result bug = []
result running = []

lltoa_positive :
    (value : ℕ)
    → value < 2 ^ 63
    → value ≢ 0
    → (str : Chars) → digits_loop 65 value 10 ≡ ok str
    → lltoa value 10 ≡ ok (reverse str)
unfolding lltoa signed_loop
lltoa_positive value low some_ str run =
    let e : (value == 0) ≡ false = ground arith in
    let f : leb (2 ^ 63) value ≡ false = ground arith in
    let g : ltb value (2 ^ 63) ≡ true = ground arith in
    rw (lltoa, signed_loop, e, f, g, run) (ap ok (strrev_lem str))

-- A positive `long` is written in at most 19 printed digits, whose number is the one that was written.
pub number_lem :
    (value : ℕ)
    → value < 2 ^ 63
    → (str : Chars) × (ltoa value 10 ≡ ok str)
      × (read_number 10 0 str ≡ value)
      × (all_printed str ≡ true)
      × (length str ≤ 19)
unfolding lltoa
number_lem value low = elim (Bool-cases (value == 0)) [
  | inl e ↦
      let z = ==→eq value 0 e in
      (48 ∷ [], ltoa_lem value 10 ∙ rw (lltoa, e) refl, sym z, refl, omega arith)
  | inr e ↦
      let some_ : value ≢ 0 = ground arith in
      let (str, run, printed, short) = digits_shape 65 19 value (omega arith) (omega arith) in
      let (str', run', same) =
        value_of-digits_loop 64 value 10 (omega arith) (omega arith) (omega arith) in
      let equal : str' ≡ str = ap result (sym run' ∙ run) in
      (
        reverse str,
        ltoa_lem value 10 ∙ lltoa_positive value low some_ str run,
        read_number-reverse 10 str ∙ ap (value_of 10) (sym equal) ∙ same,
        all_printed-reverse str printed,
        omega (arith, length-reverse str),
      )
]
