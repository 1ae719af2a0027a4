-- ===== src/Console/Printk.antt =====
-- src/kernel/lib/printk.c: messages to the screen and to the serial port.
use almeida_os.Base.{
  ℕ, zero, suc, ◌+◌, ◌-◌, ◌≤◌, ◌<◌, ◌≡◌, refl, ap, ap₂, ◌∙◌, ◌≢◌, ◌⊎◌, inl, inr, true, false, ◌&&◌,
  List, [], ◌∷◌, ◌++◌, arith, ltb, leb, ◌==◌, if◌then◌else◌, ltb→lt, ltb→le, Bool-cases, length,
  get_or, set, Run, ok, ◌>>=◌,
}
use almeida_os.Text.{Chars}
use almeida_os.Text.Format.{Arg, write_chars, print_loop, vsnprintf}
use almeida_os.Console.{Console, write_console}
use almeida_os.Console.Serial.{Serial, write_string_serial, chances, write_string_serial_lem}
use almeida_os.Console.Lines.{lines_from}
use almeida_os.Console.Shown.{write_chars_lem}
use almeida_os.Console.Log.{HoldsLog, ShowsLog, write_console_lem}

-- PRINTK_DEBUG_LEVEL, PRINTK_INFO_LEVEL and PRINTK_ERR_LEVEL
abbrev pub printk_debug_level : ℕ
printk_debug_level = 3

abbrev pub printk_info_level : ℕ
printk_info_level = 1

abbrev pub printk_err_level : ℕ
printk_err_level = 0

-- `logging_level`, the two devices, and what the status port of the serial one will answer
pub record Printer : Type 0 where
  pub logging_level : ℕ
  pub console : Console
  pub serial : Serial
  pub status : List ℕ

-- the characters of a buffer
abbrev pub chars_of : ℕ → (ℕ → ℕ) → ℕ → Chars
chars_of zero buf i = []
chars_of (suc n) buf i = buf i ∷ chars_of n buf (suc i)

-- The buffer of 1024 bytes is cleared, and the last one is kept.
unfoldable pub printk : ℕ → Chars → List Arg → Printer → Run Printer
printk level fmt args p = elim (ltb p.logging_level level) [
  | true ↦ ok p
  | false ↦ do
    (buffer, buf_pointer) ← vsnprintf (λ i. 0) 1023 fmt args
    let text : Chars = chars_of buf_pointer buffer 0
    console ← write_console text p.console
    (status, serial) ← write_string_serial text p.status p.serial
    ok (record p { console = console; serial = serial; status = status })
]

-- the message of `printk_init`
abbrev pub level_error : Chars
level_error =
    68 ∷ 101 ∷ 98 ∷ 117 ∷ 103 ∷ 32 ∷ 108 ∷ 101 ∷ 118 ∷ 101 ∷ 108 ∷ 32 ∷ 100 ∷ 111 ∷ 101 ∷ 115 ∷ 110
    ∷ 39 ∷ 116 ∷ 32 ∷ 101 ∷ 120 ∷ 105 ∷ 115 ∷ 116 ∷ 44 ∷ 32 ∷ 115 ∷ 101 ∷ 116 ∷ 116 ∷ 105 ∷ 110
    ∷ 103 ∷ 32 ∷ 80 ∷ 82 ∷ 73 ∷ 78 ∷ 84 ∷ 75 ∷ 95 ∷ 73 ∷ 78 ∷ 70 ∷ 79 ∷ 95 ∷ 76 ∷ 69 ∷ 86 ∷ 69 ∷ 76
    ∷ []

unfoldable pub printk_init : ℕ → Printer → Run Printer
printk_init level p = elim (ltb printk_debug_level level) [
  | true ↦ do
    p' ← printk printk_err_level level_error [] p
    ok (record p' { logging_level = printk_info_level })
  | false ↦ ok (record p { logging_level = level })
]

-- a text in which vsnprintf sees nothing to replace
abbrev pub IsPlain : Chars → Type 0
IsPlain [] = Unit {0}
IsPlain (c ∷ cs) = (c ≢ 37) × (c ≢ 9) × IsPlain cs

print_plain :
    (fmt : Chars) (fuel size : ℕ) (args : List Arg) (buf : ℕ → ℕ) (pos : ℕ)
    → IsPlain fmt
    → length fmt < fuel
    → print_loop fuel size fmt args (buf, pos) ≡ ok (write_chars fmt pos buf, pos + length fmt)
unfolding print_loop write_chars
print_plain [] zero size args buf pos plain h = absurd (omega arith)
print_plain [] (suc fuel) size args buf pos plain h =
    let e : pos + 0 ≡ pos = omega arith in rw e refl
print_plain (c ∷ cs) zero size args buf pos plain h = absurd (omega arith)
print_plain (c ∷ cs) (suc fuel) size args buf pos (a, b, plain) h =
    let e : (c == 37) ≡ false = ground arith in
    let f : (c == 9) ≡ false = ground arith in
    let n : pos + 1 + length cs ≡ pos + suc (length cs) = omega arith in
    rw (print_loop, e, f)
      (print_plain cs fuel size args (λ i. if i == pos then c else buf i) (pos + 1) plain
          (omega arith)
        ∙ ap₂ (λ x y. ok (write_chars cs x (λ i. if i == pos then c else buf i), y)) (omega arith)
            n)

chars_of_lem :
    (cs : Chars) (buf : ℕ → ℕ) (i : ℕ)
    → ((j : ℕ) → j < length cs → buf (i + j) ≡ get_or cs j 0)
    → chars_of (length cs) buf i ≡ cs
chars_of_lem [] buf i h = refl
chars_of_lem (c ∷ cs) buf i h =
    ap₂ (λ x xs. x ∷ xs) (ap buf (omega arith) ∙ h 0 (omega arith))
      (chars_of_lem cs buf (suc i) (λ j l. ap buf (omega arith) ∙ h (suc j) (omega arith)))

read_back : (cs : Chars) (buf : ℕ → ℕ) → chars_of (0 + length cs) (write_chars cs 0 buf) 0 ≡ cs
read_back cs buf =
    let n : 0 + length cs ≡ length cs = omega arith in
    ap (λ k. chars_of k (write_chars cs 0 buf) 0) n
    ∙ chars_of_lem cs (write_chars cs 0 buf) 0 (λ j h.
      let inside : (leb 0 (0 + j) && ltb (0 + j) (0 + length cs)) ≡ true = ground arith in
      let place : 0 + j - 0 ≡ j = omega arith in
      write_chars_lem cs 0 buf (0 + j) ∙ rw (inside, place) refl)

-- What printing a text comes to: its lines are added to the log that the screen shows, and its
-- characters are sent to the serial port with an end of line.
pub record Printed (log : List Chars) (text : Chars) (p p' : Printer) : Type 0 where
  pub holds : HoldsLog (log ++ lines_from text []) p'.console
  pub shows : ShowsLog (log ++ lines_from text []) p'.console
  pub sent : p'.serial.sent ≡ p.serial.sent ++ (text ++ 10 ∷ [])
  pub initialised : p'.serial.initialised ≡ true
  pub status : chances p'.status + length text + 1 ≡ chances p.status
  pub level : p'.logging_level ≡ p.logging_level

serial_set : (s : Serial) → s.initialised ≡ true → s ≡ record { initialised = true; sent = s.sent }
serial_set s e = ap (λ b. record { initialised = b; sent = s.sent }) e

pub printk_lem :
    (log : List Chars) (level : ℕ) (fmt : Chars) (p : Printer)
    → HoldsLog log p.console
    → IsPlain fmt
    → p.serial.initialised ≡ true
    → length fmt < 1024
    → length fmt < chances p.status
    → ((p.logging_level < level) × (printk level fmt [] p ≡ ok p))
      ⊎ ((level ≤ p.logging_level)
          × (p' : Printer) × (printk level fmt [] p ≡ ok p')
          × Printed log fmt p p')
unfolding printk vsnprintf
printk_lem log level fmt p holds plain set room h = elim (Bool-cases (ltb p.logging_level level)) [
  | inl e ↦ inl (ltb→lt _ _ e, rw (printk, e) refl)
  | inr e ↦
      let print = print_plain fmt (length fmt + 1) 1023 [] (λ i. 0) 0 plain (omega arith) in
      let back = read_back fmt (λ i. 0) in
      let (console, run, held, shown) = write_console_lem log fmt p.console holds in
      let (status, run', left) = write_string_serial_lem fmt p.status p.serial.sent h in
      let send = ap (write_string_serial fmt p.status) (serial_set p.serial set) ∙ run' in
      inr (
        ltb→le _ _ e,
        record p {
          console = console;
          serial = record { initialised = true; sent = p.serial.sent ++ (fmt ++ 10 ∷ []) };
          status = status;
        },
        rw (printk, e, print, ◌>>=◌, back, run, ◌>>=◌, send) refl,
        record {
          holds = held;
          shows = shown;
          sent = refl;
          initialised = refl;
          status = left;
          level = refl;
        },
      )
]
