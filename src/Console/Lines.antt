-- ===== src/Console/Lines.antt =====
-- How write_console of src/kernel/video/vga_console.c breaks a text into lines.
use mathlib.Core.List.{append_assoc}
use almeida_os.Base.{
  ℕ, ◌+◌, ◌≤◌, ◌<◌, ◌≡◌, refl, ap, ◌∙◌, ◌≢◌, inl, inr, true, false, List, [], ◌∷◌, ◌++◌, arith,
  ◌==◌, if◌then◌else◌, Bool-cases, length, length-append,
}
use almeida_os.RingBuffer.{RingBuffer, ringbuffer_put}
use almeida_os.Text.{Chars}
use almeida_os.Console.{text_loop, put_rest}

-- the lines of a text, after the beginning of one
pub lines_from : Chars → Chars → List Chars
lines_from [] [] = []
lines_from [] (l ∷ line) = (l ∷ line) ∷ []
lines_from (c ∷ cs) line = elim (c == 10) [
  | true ↦ line ∷ lines_from cs []
  | false ↦ elim (length line + 1 == 79) [
    | true ↦ (line ++ c ∷ []) ∷ lines_from cs []
    | false ↦ lines_from cs (line ++ c ∷ [])
  ]
]

abbrev pub put_all {ℓ} : {A : Type ℓ} → List A → RingBuffer A → RingBuffer A
put_all [] buf = buf
put_all (x ∷ xs) buf = put_all xs (ringbuffer_put x buf)

pub put_all-append {ℓ} :
    {A : Type ℓ} (xs ys : List A) (buf : RingBuffer A)
    → put_all (xs ++ ys) buf ≡ put_all ys (put_all xs buf)
put_all-append [] ys buf = refl
put_all-append (x ∷ xs) ys buf = put_all-append xs ys (ringbuffer_put x buf)

-- The lines go to the ring buffer one after the other.
pub text_loop_lem :
    (text line : Chars) (buf : RingBuffer Chars)
    → put_rest (text_loop text line buf).0 (text_loop text line buf).1
      ≡ put_all (lines_from text line) buf
unfolding text_loop put_rest lines_from
text_loop_lem [] [] buf = refl
text_loop_lem [] (l ∷ line) buf = refl
text_loop_lem (c ∷ cs) line buf = elim (Bool-cases (c == 10)) [
  | inl e ↦ rw (text_loop, lines_from, e, e) (text_loop_lem cs [] (ringbuffer_put line buf))
  | inr e ↦
      let size = length-append line (c ∷ []) in
      elim (Bool-cases (length line + 1 == 79)) [
        | inl f ↦
            rw (text_loop, lines_from, e, size, f, e)
              (text_loop_lem cs [] (ringbuffer_put (line ++ c ∷ []) buf))
        | inr f ↦ rw (text_loop, lines_from, e, size, f, e) (text_loop_lem cs (line ++ c ∷ []) buf)
      ]
]

-- what a line can be: at most 79 characters, and no end of a line among them
abbrev pub NoBreak : Chars → Type 0
NoBreak [] = Unit {0}
NoBreak (c ∷ cs) = (c ≢ 10) × NoBreak cs

abbrev pub AllLines : List Chars → Type 0
AllLines [] = Unit {0}
AllLines (l ∷ ls) = (length l ≤ 79) × NoBreak l × AllLines ls

NoBreak-append : (cs : Chars) (c : ℕ) → NoBreak cs → c ≢ 10 → NoBreak (cs ++ c ∷ [])
NoBreak-append [] c h n = (n, tt)
NoBreak-append (d ∷ cs) c (a, h) n = (a, NoBreak-append cs c h n)

pub lines_from-AllLines :
    (text line : Chars) → length line < 79 → NoBreak line → AllLines (lines_from text line)
unfolding lines_from
lines_from-AllLines [] [] h b = tt
lines_from-AllLines [] (l ∷ line) h b = (omega arith, b, tt)
lines_from-AllLines (c ∷ cs) line h b = elim (Bool-cases (c == 10)) [
  | inl e ↦ rw (lines_from, e) (omega arith, b, lines_from-AllLines cs [] (omega arith) tt)
  | inr e ↦
      let size = length-append line (c ∷ []) in
      let kept = NoBreak-append line c b (λ w. ground arith) in
      elim (Bool-cases (length line + 1 == 79)) [
        | inl f ↦
            rw (lines_from, e, f)
              (omega (arith, size), kept, lines_from-AllLines cs [] (omega arith) tt)
        | inr f ↦
            rw (lines_from, e, f)
              (lines_from-AllLines cs (line ++ c ∷ []) (ground (arith, size)) kept)
      ]
]

-- the characters of lines, and those of a text other than the ends of lines
abbrev pub joined : List Chars → Chars
joined [] = []
joined (l ∷ ls) = l ++ joined ls

abbrev pub printed : Chars → Chars
printed [] = []
printed (c ∷ cs) = if c == 10 then printed cs else c ∷ printed cs

-- No character is lost or moved.
pub joined-lines_from : (text line : Chars) → joined (lines_from text line) ≡ line ++ printed text
unfolding lines_from
joined-lines_from [] [] = refl
joined-lines_from [] (l ∷ line) = refl
joined-lines_from (c ∷ cs) line = elim (Bool-cases (c == 10)) [
  | inl e ↦ rw (lines_from, e) (ap (λ t. line ++ t) (joined-lines_from cs []))
  | inr e ↦ elim (Bool-cases (length line + 1 == 79)) [
    | inl f ↦
        rw (lines_from, e, f)
          (ap (λ t. (line ++ c ∷ []) ++ t) (joined-lines_from cs [])
            ∙ append_assoc line (c ∷ []) (printed cs))
    | inr f ↦
        rw (lines_from, e, f)
          (joined-lines_from cs (line ++ c ∷ []) ∙ append_assoc line (c ∷ []) (printed cs))
  ]
]
