-- ===== src/Text/Format.antt =====
-- `process_format` and `vsnprintf` of src/kernel/lib/vsnprintf.c. An argument is taken as the machine
-- passes it: a number by its 64-bit pattern, or a string.
use almeida_os.Base.{
  ℕ, zero, suc, ◌+◌, ◌-◌, ◌%◌, ◌^◌, ◌≡◌, refl, Bool, true, false, ◌||◌, List, [], ◌∷◌, ◌++◌, ltb,
  ◌==◌, if◌then◌else◌, length, Run, ok, bug, running, ◌>>=◌,
}
use almeida_os.Word.{sub64}
use almeida_os.Text.{Chars}
use almeida_os.Text.Digits.{ulltoa, lltoa}
use almeida_os.Text.Spec.{
  PrintfType, unknown_type, literal_type, signed_int_type, unsigned_int_dec_type,
  unsigned_int_hex_type, unsigned_int_oct_type, char_type, string_type, pointer_type, error_type,
  PrintfLength, unknown_length, long_length, long_long_length, error_length, PrintFmtSpec,
  format_decode,
}

pub data Arg : Type 0 where
  number : ℕ → Arg
  text : Chars → Arg

-- `va_arg`; reading an argument that is missing, or of the other kind, is a fatal trap
unfoldable pub next_number : List Arg → Run (ℕ × List Arg)
next_number [] = bug
next_number (number n ∷ args) = ok (n, args)
next_number (text s ∷ args) = bug

unfoldable pub next_text : List Arg → Run (Chars × List Arg)
next_text [] = bug
next_text (number n ∷ args) = bug
next_text (text s ∷ args) = ok (s, args)

-- an unsigned argument of the length that the placeholder names
unfoldable pub unsigned_of : PrintfLength → ℕ → ℕ
unsigned_of unknown_length n = n % 2 ^ 32
unsigned_of long_length n = n
unsigned_of long_long_length n = n
unsigned_of error_length n = n

unfoldable pub signed_of : PrintfLength → ℕ → ℕ
signed_of unknown_length n =
    let w : ℕ = n % 2 ^ 32 in if ltb w (2 ^ 31) then w else w + (2 ^ 64 - 2 ^ 32)
signed_of long_length n = n
signed_of long_long_length n = n
signed_of error_length n = n

abbrev pub first_n : ℕ → Chars → Chars
first_n zero cs = []
first_n (suc n) [] = []
first_n (suc n) (c ∷ cs) = c ∷ first_n n cs

-- The first part of `process_format`: the characters of `tmp_buf`, by the type. A type in a base that
-- is not zero and that no branch names is the text of the error.
unfoldable pub render : PrintFmtSpec → List Arg → Run (Chars × List Arg)
render spec args = elim spec.type [
  | char_type ↦ next_number args >>= λ r. ok (r.0 % 256 ∷ [], r.1)
  | string_type ↦ next_text args >>= λ r. ok (first_n 1024 r.0, r.1)
  | literal_type ↦ ok (37 ∷ [], args)
  | unknown_type ↦ ok (37 ∷ [], args)
  | error_type ↦ ok (37 ∷ [], args)
  | unsigned_int_dec_type ↦ unsigned_text
  | unsigned_int_hex_type ↦ unsigned_text
  | unsigned_int_oct_type ↦ unsigned_text
  | signed_int_type ↦ do
    (n, rest) ← next_number args
    str ← lltoa (signed_of spec.length n) spec.base
    ok (str, rest)
  | pointer_type ↦ do
    (n, rest) ← next_number args
    str ← ulltoa n spec.base
    ok (48 ∷ 120 ∷ str, rest)
]
  where
    unsigned_text : Run (Chars × List Arg)
    unsigned_text = do
      (n, rest) ← next_number args
      str ← ulltoa (unsigned_of spec.length n) spec.base
      ok (str, rest)

abbrev pub repeat : ℕ → ℕ → Chars
repeat zero c = []
repeat (suc n) c = c ∷ repeat n c

-- The zeros that go first, and the bytes that are copied behind them. The label `A || B || C || D` is
-- the number 1, which is LITERAL_TYPE, so that zeros are put before a percent sign and before no
-- number; as many bytes as the precision says are copied then, which are NUL behind the sign.
unfoldable pub apply_precision : PrintFmtSpec → Chars → Chars × Chars
apply_precision spec tmp_buf = if spec.precision == 0 then ([], tmp_buf) else elim spec.type [
  | literal_type ↦
      if ltb (length tmp_buf) spec.precision
      then (
        repeat (spec.precision - length tmp_buf) 48,
        tmp_buf ++ repeat (spec.precision - length tmp_buf) 0,
      )
      else ([], tmp_buf)
  | string_type ↦ ([], first_n spec.precision tmp_buf)
  | unknown_type ↦ ([], tmp_buf)
  | signed_int_type ↦ ([], tmp_buf)
  | unsigned_int_dec_type ↦ ([], tmp_buf)
  | unsigned_int_hex_type ↦ ([], tmp_buf)
  | unsigned_int_oct_type ↦ ([], tmp_buf)
  | char_type ↦ ([], tmp_buf)
  | pointer_type ↦ ([], tmp_buf)
  | error_type ↦ ([], tmp_buf)
]

-- the buffer, from place to character, and the count of the characters
abbrev pub Output : Type 0
Output = (ℕ → ℕ) × ℕ

unfoldable pub write_chars : Chars → ℕ → (ℕ → ℕ) → ℕ → ℕ
write_chars [] pos buf = buf
write_chars (c ∷ cs) pos buf = write_chars cs (suc pos) (λ i. if i == pos then c else buf i)

-- The zeros are written whatever room there is; the copy is cut to `buf_size`, the room left.
unfoldable pub process_format : PrintFmtSpec → ℕ → List Arg → Output → Run (Output × List Arg)
process_format spec buf_size args out = do
  (tmp_buf, rest) ← render spec args
  let (zeros, copied) = apply_precision spec tmp_buf
  let padded : ℕ → ℕ = write_chars zeros out.1 out.0
  ok (
    (write_chars (first_n buf_size copied) (out.1 + length zeros) padded, out.1 + length copied),
    rest,
  )

-- PRINTK_DECD_ERROR_MSG
abbrev pub decode_error : Chars
decode_error =
    60 ∷ 70 ∷ 79 ∷ 82 ∷ 77 ∷ 65 ∷ 84 ∷ 95 ∷ 68 ∷ 69 ∷ 67 ∷ 79 ∷ 68 ∷ 69 ∷ 95 ∷ 69 ∷ 82 ∷ 82 ∷ 79
    ∷ 82 ∷ 62 ∷ []

abbrev pub is_error : PrintFmtSpec → Bool
is_error spec = is_error_type spec.type || is_error_length spec.length
  where
    is_error_type : PrintfType → Bool
    is_error_type error_type = true
    is_error_type unknown_type = false
    is_error_type literal_type = false
    is_error_type signed_int_type = false
    is_error_type unsigned_int_dec_type = false
    is_error_type unsigned_int_hex_type = false
    is_error_type unsigned_int_oct_type = false
    is_error_type char_type = false
    is_error_type string_type = false
    is_error_type pointer_type = false

    is_error_length : PrintfLength → Bool
    is_error_length error_length = true
    is_error_length unknown_length = false
    is_error_length long_length = false
    is_error_length long_long_length = false

unfoldable pub print_loop : ℕ → ℕ → Chars → List Arg → Output → Run Output
print_loop zero buf_size fmt args out = running
print_loop (suc fuel) buf_size [] args out = ok out
print_loop (suc fuel) buf_size (c ∷ cs) args out = elim (c == 37) [
  | false ↦ elim (c == 9) [
    | true ↦ print_loop fuel buf_size cs args (write_chars (repeat 4 32) out.1 out.0, out.1 + 4)
    | false ↦ print_loop fuel buf_size cs args (write_chars (c ∷ []) out.1 out.0, out.1 + 1)
  ]
  | true ↦ do
    (spec, rest) ← format_decode (c ∷ cs)
    elim (is_error spec) [
      | true ↦ ok (
        write_chars (first_n (sub64 buf_size out.1) (decode_error ++ 0 ∷ [])) out.1 out.0,
        out.1 + length decode_error,
      )
      | false ↦ do
        (out', args') ← process_format spec (sub64 buf_size out.1) args out
        elim (out'.1 == buf_size) [
          | true ↦ ok out'
          | false ↦ print_loop fuel buf_size rest args' out'
        ]
    ]
]

-- Each round reads a character at least, and the last one none.
unfoldable pub vsnprintf : (ℕ → ℕ) → ℕ → Chars → List Arg → Run Output
vsnprintf buf buf_size fmt args = print_loop (length fmt + 1) buf_size fmt args (buf, 0)

abbrev pub is_number : PrintfType → Bool
is_number unknown_type = false
is_number literal_type = false
is_number signed_int_type = true
is_number unsigned_int_dec_type = true
is_number unsigned_int_hex_type = true
is_number unsigned_int_oct_type = true
is_number char_type = false
is_number string_type = false
is_number pointer_type = false
is_number error_type = false

false_ne_true : (false ≡ true) → ⊥
false_ne_true e = cc

same_branches : (b : Bool) (x : Chars × Chars) → (if b then x else x) ≡ x
same_branches true x = refl
same_branches false x = refl

pub apply_precision_number :
    (type : PrintfType) (len : PrintfLength) (base precision : ℕ) (tmp_buf : Chars)
    → is_number type ≡ true
    → apply_precision
        (record { type = type; length = len; base = base; precision = precision })
        tmp_buf
      ≡ ([], tmp_buf)
unfolding apply_precision
apply_precision_number signed_int_type len base precision tmp_buf h = same_branches _ _
apply_precision_number unsigned_int_dec_type len base precision tmp_buf h = same_branches _ _
apply_precision_number unsigned_int_hex_type len base precision tmp_buf h = same_branches _ _
apply_precision_number unsigned_int_oct_type len base precision tmp_buf h = same_branches _ _
apply_precision_number unknown_type len base precision tmp_buf h = absurd (false_ne_true h)
apply_precision_number literal_type len base precision tmp_buf h = absurd (false_ne_true h)
apply_precision_number char_type len base precision tmp_buf h = absurd (false_ne_true h)
apply_precision_number string_type len base precision tmp_buf h = absurd (false_ne_true h)
apply_precision_number pointer_type len base precision tmp_buf h = absurd (false_ne_true h)
apply_precision_number error_type len base precision tmp_buf h = absurd (false_ne_true h)
