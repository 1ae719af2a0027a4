-- ===== src/Text/Digits.antt =====
-- `ulltoa` and `lltoa` of src/kernel/lib/string.c.
use native.Mathlib.Nat.{div-add-mod, mod-lt, mul-le-mul_right}
use almeida_os.Base.{
  ℕ, zero, suc, ◌+◌, ◌-◌, ◌*◌, ◌/◌, ◌%◌, ◌^◌, ◌≤◌, ◌<◌, ◌≡◌, refl, sym, ap, inl, inr, Bool, true,
  false, ◌&&◌, ◌||◌, [], ◌∷◌, ◌++◌, arith, ltb, leb, ◌==◌, if◌then◌else◌, ==→eq, eq→==, Bool-cases,
  length, Run, ok, running, ◌>>=◌,
}
use almeida_os.Word.Bits.{two-pow_suc}
use almeida_os.Maths.{abs}
use almeida_os.Text.{Chars, strrev}

abbrev pub digit_char : ℕ → ℕ
digit_char rem = if ltb 9 rem then rem - 10 + 97 else rem + 48

-- the digits in the order in which the loop writes them, the lowest first
unfoldable pub digits_loop : ℕ → ℕ → ℕ → Run Chars
digits_loop zero value radix = running
digits_loop (suc fuel) value radix = elim (value == 0) [
  | true ↦ ok []
  | false ↦
      digits_loop fuel (value / radix) radix >>= λ rest. ok (digit_char (value % radix) ∷ rest)
]

abbrev pub is_radix : ℕ → Bool
is_radix radix = radix == 8 || radix == 10 || radix == 16

-- A number of 64 bits has fewer than 65 digits.
unfoldable pub ulltoa : ℕ → ℕ → Run Chars
ulltoa value radix = elim (is_radix radix) [
  | false ↦ ok []
  | true ↦ elim (value == 0) [
    | true ↦ ok (48 ∷ [])
    | false ↦ do str ← digits_loop 65 value radix; ok (strrev str (length str))
  ]
]

-- The same loop from a negative number of this size: its remainders are negative, and go below '0'.
unfoldable pub negative_loop : ℕ → ℕ → ℕ → Run Chars
negative_loop zero size radix = running
negative_loop (suc fuel) size radix = elim (size == 0) [
  | true ↦ ok []
  | false ↦ negative_loop fuel (size / radix) radix >>= λ rest. ok ((48 - size % radix) ∷ rest)
]

-- the loop from the pattern of a signed number
unfoldable pub signed_loop : ℕ → ℕ → Run Chars
signed_loop value radix =
    if ltb value (2 ^ 63)
    then digits_loop 65 value radix
    else negative_loop 65 (2 ^ 64 - value) radix

-- `abs` takes and gives an `int`: it reads the low 32 bits, and the sign of its result is extended.
unfoldable pub abs_as_long : ℕ → ℕ
abs_as_long value =
    let w : ℕ = abs (value % 2 ^ 32) in if ltb w (2 ^ 31) then w else w + (2 ^ 64 - 2 ^ 32)

unfoldable pub lltoa : ℕ → ℕ → Run Chars
lltoa value radix = elim (is_radix radix) [
  | false ↦ ok []
  | true ↦ elim (value == 0) [
    | true ↦ ok (48 ∷ [])
    | false ↦ elim (leb (2 ^ 63) value && radix == 10) [
      | true ↦ do
        str ← signed_loop (abs_as_long value) radix
        ok (strrev (str ++ 45 ∷ []) (length str + 1))
      | false ↦ do str ← signed_loop value radix; ok (strrev str (length str))
    ]
  ]
]

-- the value of digits, the lowest first
abbrev pub char_digit : ℕ → ℕ
char_digit c = if ltb c 58 then c - 48 else c - 87

abbrev pub value_of : ℕ → Chars → ℕ
value_of radix [] = 0
value_of radix (c ∷ cs) = char_digit c + radix * value_of radix cs

char_digit-digit_char : (r : ℕ) → r < 16 → char_digit (digit_char r) ≡ r
char_digit-digit_char r h = ground arith

-- The loop of `ulltoa` ends on every number of 64 bits in a base from 8 to 16, and its digits have
-- the value of the number.
pub value_of-digits_loop :
    (fuel value radix : ℕ)
    → 8 ≤ radix
    → radix ≤ 16
    → value < 2 ^ fuel
    → (str : Chars) × (digits_loop (suc fuel) value radix ≡ ok str) × (value_of radix str ≡ value)
unfolding digits_loop
value_of-digits_loop zero value radix a b h =
    let e : (value == 0) ≡ true = eq→== _ _ (omega arith) in
    ([], rw (digits_loop, e) refl, omega arith)
value_of-digits_loop (suc fuel) value radix a b h = elim (Bool-cases (value == 0)) [
  | inl e ↦ ([], rw (digits_loop, e) refl, sym (==→eq _ _ e))
  | inr e ↦
      let q : ℕ = value / radix in
      let whole = div-add-mod value radix in
      let (str, run, same) =
        value_of-digits_loop fuel q radix a b
          (omega (arith, whole, mul-le-mul_right {m = 8} {n = radix} q a, two-pow_suc fuel)) in
      (
        digit_char (value % radix) ∷ str,
        rw (digits_loop, e, run) refl,
        omega (
          arith,
          whole,
          ap (λ t. radix * t) same,
          char_digit-digit_char (value % radix)
              (omega (arith, mod-lt value {m = radix} (omega arith))),
        ),
      )
]
