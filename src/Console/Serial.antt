-- ===== src/Console/Serial.antt =====
-- src/kernel/device/serial.c: the serial port. The bytes that its status port will answer are a list.
use Prim.Native.Nat.{bit_and}
use mathlib.Core.List.{append_assoc, append-nil}
use almeida_os.Base.{
  ℕ, ◌+◌, ◌≤◌, ◌<◌, ◌≡◌, refl, sym, ap, ◌∙◌, inl, inr, Bool, true, false, not, List, [], ◌∷◌, ◌++◌,
  arith, ◌==◌, if◌then◌else◌, Bool-cases, length, Run, ok, running, ◌>>=◌,
}
use almeida_os.Text.{Chars}

-- `initialised`, and what has been sent
pub record Serial : Type 0 where
  pub initialised : Bool
  pub sent : Chars

-- The bytes written to the ports from COM1 on, as offset and value, and the state of the driver. The
-- answer of the chip to the test byte is an argument.
abbrev pub set_up : List (ℕ × ℕ)
set_up =
    (1, 0)
    ∷ (3, 128)
    ∷ (0, 12)
    ∷ (1, 0)
    ∷ (3, 3)
    ∷ (2, 199)
    ∷ (4, 11)
    ∷ (4, 30)
    ∷ (0, 174)
    ∷ (4, 15)
    ∷ []

-- A faulty chip clears the flag, which is then set.
unfoldable pub init_serial : ℕ → Serial → List (ℕ × ℕ) × Serial
init_serial answer s =
    let tested : Serial = if not (answer == 174) then record s { initialised = false } else s in
    (set_up, record tested { initialised = true })

unfoldable pub is_transmit_empty : ℕ → Bool
is_transmit_empty status = not (bit_and status 32 == 0)

-- the wait for the right conditions
unfoldable pub wait_transmit : List ℕ → Run (List ℕ)
wait_transmit [] = running
wait_transmit (status ∷ rest) = if is_transmit_empty status then ok rest else wait_transmit rest

unfoldable pub write_char_serial : ℕ → List ℕ → Serial → Run (List ℕ × Serial)
write_char_serial a status s = elim s.initialised [
  | false ↦ ok (status, s)
  | true ↦ do rest ← wait_transmit status; ok (rest, record s { sent = s.sent ++ a ∷ [] })
]

unfoldable pub write_chars_serial : Chars → List ℕ → Serial → Run (List ℕ × Serial)
write_chars_serial [] status s = ok (status, s)
write_chars_serial (c ∷ cs) status s = do
  (rest, s') ← write_char_serial c status s
  write_chars_serial cs rest s'

unfoldable pub write_string_serial : Chars → List ℕ → Serial → Run (List ℕ × Serial)
write_string_serial arr status s = elim s.initialised [
  | false ↦ ok (status, s)
  | true ↦ do (rest, s') ← write_chars_serial arr status s; write_char_serial 10 rest s'
]

-- how often the status says that a byte may be sent
abbrev pub chances : List ℕ → ℕ
chances [] = 0
chances (status ∷ rest) = if is_transmit_empty status then 1 + chances rest else chances rest

wait_transmit_lem :
    (status : List ℕ)
    → 0 < chances status
    → (rest : List ℕ) × (wait_transmit status ≡ ok rest) × (chances rest + 1 ≡ chances status)
unfolding wait_transmit
wait_transmit_lem [] h = absurd (omega arith)
wait_transmit_lem (st ∷ rest) h = elim (Bool-cases (is_transmit_empty st)) [
  | inl e ↦ (rest, rw (wait_transmit, e) refl, rw e (omega arith))
  | inr e ↦
      let same : chances (st ∷ rest) ≡ chances rest = rw e refl in
      let (left, run, count) = wait_transmit_lem rest (omega (arith, same)) in
      (left, rw (wait_transmit, e) run, omega (arith, same, count))
]

write_chars_serial_lem :
    (cs : Chars) (status : List ℕ) (sent : Chars)
    → length cs ≤ chances status
    → (rest : List ℕ) × (write_chars_serial cs status (record { initialised = true; sent = sent })
        ≡ ok (rest, record { initialised = true; sent = sent ++ cs }))
      × (chances rest + length cs ≡ chances status)
unfolding write_chars_serial write_char_serial
write_chars_serial_lem [] status sent h = (
  status,
  ap (λ x. ok (status, record { initialised = true; sent = x })) (sym (append-nil sent)),
  omega arith,
)
write_chars_serial_lem (c ∷ cs) status sent h =
    let (rest, run, count) = wait_transmit_lem status (omega arith) in
    let (rest', run', count') = write_chars_serial_lem cs rest (sent ++ c ∷ []) (omega arith) in
    (
      rest',
      rw (write_chars_serial, write_char_serial, run)
          (run'
            ∙ ap (λ x. ok (rest', record { initialised = true; sent = x }))
                (append_assoc sent (c ∷ []) cs)),
      omega arith,
    )

init_serial_state :
    (answer : ℕ) (s : Serial)
    → (init_serial answer s).1 ≡ record { initialised = true; sent = s.sent }
unfolding init_serial
init_serial_state answer s = elim (Bool-cases (answer == 174)) [
  | inl e ↦ rw (init_serial, e) refl
  | inr e ↦ rw (init_serial, e) refl
]

pub write_string_serial_lem :
    (arr : Chars) (status : List ℕ) (sent : Chars)
    → length arr < chances status
    → (rest : List ℕ) × (write_string_serial arr status (record { initialised = true; sent = sent })
        ≡ ok (rest, record { initialised = true; sent = sent ++ (arr ++ 10 ∷ []) }))
      × (chances rest + length arr + 1 ≡ chances status)
unfolding write_string_serial write_char_serial
write_string_serial_lem arr status sent h =
    let (rest, run, count) = write_chars_serial_lem arr status sent (omega arith) in
    let (rest', run', count') = wait_transmit_lem rest (omega arith) in
    (
      rest',
      rw (run, ◌>>=◌, run')
          (ap (λ x. ok (rest', record { initialised = true; sent = x }))
            (append_assoc sent arr (10 ∷ []))),
      omega arith,
    )

-- Over a port that is set up, whatever its answer to the test was, a string and an end of line are
-- sent in order, if the status allows that many bytes.
pub write_string_serial-init_serial :
    (answer : ℕ) (arr : Chars) (status : List ℕ) (s : Serial)
    → length arr < chances status
    → (rest : List ℕ) × (write_string_serial arr status (init_serial answer s).1
        ≡ ok (rest, record { initialised = true; sent = s.sent ++ (arr ++ 10 ∷ []) }))
write_string_serial-init_serial answer arr status s h =
    let (rest, run, count) = write_string_serial_lem arr status s.sent h in
    (rest, ap (write_string_serial arr status) (init_serial_state answer s) ∙ run)
