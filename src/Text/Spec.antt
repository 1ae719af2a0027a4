-- ===== src/Text/Spec.antt =====
-- `format_decode` of src/kernel/lib/vsnprintf.c: one placeholder of a format string.
use almeida_os.Base.{
  ℕ, zero, suc, ◌+◌, ◌-◌, ◌*◌, Bool, true, false, ◌&&◌, ◌||◌, not, [], ◌∷◌, ◌==◌, if◌then◌else◌,
  length, Run, ok, running,
}
use almeida_os.Word.{u8}
use almeida_os.Text.{Chars, isdigit}

-- `enum printf_type`; the numbers that the compiler gives them are `type_number`
pub data PrintfType : Type 0 where
  unknown_type literal_type signed_int_type unsigned_int_dec_type unsigned_int_hex_type
        unsigned_int_oct_type char_type string_type pointer_type error_type :
      PrintfType

-- `enum printf_length`
pub data PrintfLength : Type 0 where
  unknown_length long_length long_long_length error_length : PrintfLength

-- `print_fmt_spec`
pub record PrintFmtSpec : Type 0 where
  pub type : PrintfType
  pub length : PrintfLength
  pub base : ℕ
  pub precision : ℕ

abbrev pub empty_spec : PrintFmtSpec
empty_spec = record { type = unknown_type; length = unknown_length; base = 0; precision = 0 }

abbrev pub is_length : ℕ → Bool
is_length c = c == 108

abbrev pub is_type : ℕ → Bool
is_type c =
    c == 100 || c == 105 || c == 117 || c == 120 || c == 111 || c == 99 || c == 115 || c == 112

-- `read_precision`: the precision is a byte, and so is each sum. What is left of the string follows.
unfoldable pub read_precision : Chars → PrintFmtSpec → PrintFmtSpec × Chars
read_precision [] spec = (spec, [])
read_precision (c ∷ cs) spec =
    let spec' : PrintFmtSpec = record spec { precision = u8 (spec.precision * 10 + (c - 48)) } in
    let next : PrintFmtSpec × Chars = read_precision cs spec' in
    elim cs [ [] ↦ (spec', []) | d ∷ ds ↦ if isdigit d then next else (spec', d ∷ ds) ]

abbrev pub longer : PrintfLength → PrintfLength
longer unknown_length = long_length
longer long_length = long_long_length
longer long_long_length = error_length
longer error_length = error_length

unfoldable pub read_length : Chars → PrintFmtSpec → PrintFmtSpec × Chars
read_length [] spec = (spec, [])
read_length (c ∷ cs) spec =
    let spec' : PrintFmtSpec =
      if c == 108 then record spec { length = longer spec.length } else spec in
    let next : PrintFmtSpec × Chars = read_length cs spec' in
    elim cs [ [] ↦ (spec', []) | d ∷ ds ↦ if is_length d then next else (spec', d ∷ ds) ]

-- the type of one character, if none was read before
unfoldable pub with_type : ℕ → PrintFmtSpec → PrintFmtSpec
with_type c spec =
    if c == 100 || c == 105
    then record spec { type = signed_int_type; base = 10 }
    else if c == 117
    then record spec { type = unsigned_int_dec_type; base = 10 }
    else if c == 120
    then record spec { type = unsigned_int_hex_type; base = 16 }
    else if c == 111
    then record spec { type = unsigned_int_oct_type; base = 8 }
    else if c == 99
    then record spec { type = char_type; base = 0 }
    else if c == 115
    then record spec { type = string_type; base = 0 }
    else if c == 112
    then record spec { type = pointer_type; base = 16 }
    else spec

abbrev pub is_unknown : PrintfType → Bool
is_unknown unknown_type = true
is_unknown literal_type = false
is_unknown signed_int_type = false
is_unknown unsigned_int_dec_type = false
is_unknown unsigned_int_hex_type = false
is_unknown unsigned_int_oct_type = false
is_unknown char_type = false
is_unknown string_type = false
is_unknown pointer_type = false
is_unknown error_type = false

unfoldable pub read_type : Chars → PrintFmtSpec → PrintFmtSpec × Chars
read_type [] spec = (spec, [])
read_type (c ∷ cs) spec =
    let spec' : PrintFmtSpec =
      if not (is_unknown spec.type) then record spec { type = error_type } else with_type c spec in
    let next : PrintFmtSpec × Chars = read_type cs spec' in
    elim cs [ [] ↦ (spec', []) | d ∷ ds ↦ if is_type d then next else (spec', d ∷ ds) ]

abbrev pub error_spec : PrintFmtSpec → PrintFmtSpec
error_spec spec = record spec { type = error_type; length = error_length }

-- The loop of `format_decode`, with what is left of the string behind the placeholder. Past the end
-- of the string the NUL is an error.
unfoldable pub decode_loop : ℕ → Bool → Bool → Chars → PrintFmtSpec → Run (PrintFmtSpec × Chars)
decode_loop zero found_dot first_perc fmt spec = running
decode_loop (suc fuel) found_dot first_perc [] spec = ok (error_spec spec, [])
decode_loop (suc fuel) found_dot first_perc (c ∷ cs) spec =
    let (with_precision, after_precision) = read_precision (c ∷ cs) spec in
    let (with_length, after_length) = read_length (c ∷ cs) spec in
    elim (c == 37) [
      | true ↦ elim first_perc [
        | false ↦ decode_loop fuel found_dot true cs spec
        | true ↦ ok (record spec { type = literal_type }, cs)
      ]
      | false ↦ elim (not found_dot && c == 46) [
        | true ↦ decode_loop fuel true first_perc cs spec
        | false ↦ elim (found_dot && isdigit c) [
          | true ↦ decode_loop fuel false first_perc after_precision with_precision
          | false ↦ elim found_dot [
            | true ↦ ok (error_spec spec, c ∷ cs)
            | false ↦ elim (is_length c) [
              | true ↦ decode_loop fuel false first_perc after_length with_length
              | false ↦ elim (is_type c) [
                | true ↦ ok (read_type (c ∷ cs) spec)
                | false ↦ ok (error_spec spec, c ∷ cs)
              ]
            ]
          ]
        ]
      ]
    ]

-- Each round reads a character, or ends.
unfoldable pub format_decode : Chars → Run (PrintFmtSpec × Chars)
format_decode fmt = decode_loop (length fmt + 1) false false fmt empty_spec
