-- ===== src/Libc/Same.antt =====
-- The copies in src/libc of routines of src/kernel/lib.
use almeida_os.Base.{
  ℕ, zero, suc, ◌+◌, ◌-◌, ◌/◌, ◌%◌, ◌^◌, ◌≡◌, refl, ap, ap₂, fun_ext, true, false, ◌&&◌, [], ◌∷◌,
  ◌++◌, ltb, leb, ◌==◌, if◌then◌else◌, length, get_or, set, Run, ok, ◌>>=◌,
}
use almeida_os.Maths.{abs}
use almeida_os.Text.{Chars, strrev, strrev_loop}
use almeida_os.Text.Digits.{digits_loop, negative_loop, signed_loop, abs_as_long, is_radix, lltoa}
use almeida_os.Libc

strrev_loop_same :
    (rounds start end : ℕ) (str : Chars)
    → Libc.strrev_loop rounds start end str ≡ strrev_loop rounds start end str
unfolding Libc.strrev_loop strrev_loop
strrev_loop_same zero start end str = refl
strrev_loop_same (suc rounds) start end str =
    strrev_loop_same rounds (suc start) (end - 1)
      (set (set str start (get_or str end 0)) end (get_or str start 0))

strrev_same : (str : Chars) (n : ℕ) → Libc.strrev str n ≡ strrev str n
unfolding Libc.strrev strrev
strrev_same str n = ap (λ t. if ltb n 2 then str else t) (strrev_loop_same (n / 2) 0 (n - 1) str)

positive_same :
    (fuel size radix : ℕ) → Libc.ltoa_loop fuel false size radix ≡ digits_loop fuel size radix
unfolding Libc.ltoa_loop digits_loop
positive_same zero size radix = refl
positive_same (suc fuel) size radix =
    ap
      (λ rest. elim (size == 0) [
        | true ↦ ok []
        | false ↦ rest >>= λ r.
            ok ((if ltb 9 (size % radix) then size % radix - 10 + 97 else size % radix + 48) ∷ r)
      ])
      (positive_same fuel (size / radix) radix)

negative_same :
    (fuel size radix : ℕ) → Libc.ltoa_loop fuel true size radix ≡ negative_loop fuel size radix
unfolding Libc.ltoa_loop negative_loop
negative_same zero size radix = refl
negative_same (suc fuel) size radix =
    ap
      (λ rest. elim (size == 0) [
        | true ↦ ok []
        | false ↦ rest >>= λ r. ok ((48 - size % radix) ∷ r)
      ])
      (negative_same fuel (size / radix) radix)

from_long_same : (value radix : ℕ) → Libc.from_long value radix ≡ signed_loop value radix
unfolding Libc.from_long signed_loop
from_long_same value radix =
    ap₂ (λ x y. if ltb value (2 ^ 63) then x else y) (positive_same 65 value radix)
      (negative_same 65 (2 ^ 64 - value) radix)

-- `ltoa` of the library writes every number in every base as `lltoa` of the kernel does.
pub ltoa_lem : (value radix : ℕ) → Libc.ltoa value radix ≡ lltoa value radix
unfolding Libc.ltoa lltoa Libc.abs abs abs_as_long Libc.long_of_int
ltoa_lem value radix =
    let reversed : Libc.strrev ≡ strrev = fun_ext (λ str. fun_ext (λ n. strrev_same str n)) in
    let minus =
      ap₂ (λ x r. x >>= λ str. ok (r (str ++ 45 ∷ []) (length str + 1)))
        (from_long_same (abs_as_long value) radix) reversed in
    let plain =
      ap₂ (λ x r. x >>= λ str. ok (r str (length str))) (from_long_same value radix) reversed in
    ap₂
      (λ (x : Run Chars) (y : Run Chars). elim (is_radix radix) [
        | false ↦ ok []
        | true ↦ elim (value == 0) [
          | true ↦ ok (48 ∷ [])
          | false ↦ elim (leb (2 ^ 63) value && radix == 10) [ true ↦ x | false ↦ y ]
        ]
      ])
      minus plain
