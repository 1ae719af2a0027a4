-- ===== src/Examples/Devices.antt =====
-- The console of src/kernel/video/vga_console.c and the messages of src/kernel/lib/printk.c.
use almeida_os.Base.{ℕ, ◌≤◌, ◌<◌, ◌≡◌, refl, ◌⊎◌, true, false, none, List, [], ◌∷◌, ◌++◌, arith, ok}
use almeida_os.RingBuffer.{ringbuffer_init}
use almeida_os.Text.{Chars}
use almeida_os.Console.{Console, write_console}
use almeida_os.Console.Lines.{lines_from}
use almeida_os.Console.Log.{HoldsLog, ShowsLog, write_console_lem}
use almeida_os.Console.Serial.{
  is_transmit_empty, init_serial, write_string_serial, write_string_serial-init_serial,
}
use almeida_os.Console.Printk.{Printer, printk, Printed, IsPlain, printk_lem, printk_info_level}

-- "hi", an end of line, and "you"
abbrev pub greeting : Chars
greeting = 104 ∷ 105 ∷ 10 ∷ 121 ∷ 111 ∷ 117 ∷ []

abbrev pub screen : Console
screen = record {
  row = 0;
  msg_buffer = ringbuffer_init (record { head = none; tail = none; size = 24; items = λ _. [] });
  screen = λ _. 32;
  cursor = 0;
}

pub screen-HoldsLog : HoldsLog [] screen
unfolding ringbuffer_init
screen-HoldsLog =
    ((record { head = none; tail = none; size = 24; items = λ _. [] }, refl, refl), tt)

write_console_example :
    (c' : Console) × (write_console greeting screen ≡ ok c')
    × HoldsLog ([] ++ lines_from greeting []) c'
    × ShowsLog ([] ++ lines_from greeting []) c'
write_console_example = write_console_lem [] greeting screen screen-HoldsLog

-- a port that is ready every second time
abbrev status : List ℕ
status = 0 ∷ 32 ∷ 0 ∷ 32 ∷ 0 ∷ 32 ∷ 0 ∷ 32 ∷ 0 ∷ 32 ∷ 0 ∷ 32 ∷ 0 ∷ 32 ∷ 0 ∷ 32 ∷ []

serial_example :
    (rest : List ℕ) × (write_string_serial greeting status
        (init_serial 0 (record { initialised = false; sent = [] })).1
      ≡ ok (rest, record { initialised = true; sent = [] ++ (greeting ++ 10 ∷ []) }))
unfolding is_transmit_empty
serial_example =
    write_string_serial-init_serial 0 greeting status (record { initialised = false; sent = [] })
      (omega arith)

abbrev pub printer : Printer
printer = record {
  logging_level = 1;
  console = screen;
  serial = record { initialised = true; sent = [] };
  status = status;
}

pub greeting-IsPlain : IsPlain greeting
greeting-IsPlain =
    ((
      λ e. absurd (omega (arith, e)),
      λ e. absurd (omega (arith, e)),
      (
        λ e. absurd (omega (arith, e)),
        λ e. absurd (omega (arith, e)),
        (
          λ e. absurd (omega (arith, e)),
          λ e. absurd (omega (arith, e)),
          (
            λ e. absurd (omega (arith, e)),
            λ e. absurd (omega (arith, e)),
            (
              λ e. absurd (omega (arith, e)),
              λ e. absurd (omega (arith, e)),
              (λ e. absurd (omega (arith, e)), λ e. absurd (omega (arith, e)), tt),
            ),
          ),
        ),
      ),
    ))

printk_example :
    ((1 < printk_info_level) × (printk printk_info_level greeting [] printer ≡ ok printer))
    ⊎ ((printk_info_level ≤ 1)
        × (p' : Printer) × (printk printk_info_level greeting [] printer ≡ ok p')
        × Printed [] greeting printer p')
unfolding is_transmit_empty
printk_example =
    printk_lem [] printk_info_level greeting printer screen-HoldsLog greeting-IsPlain refl
      (omega arith) (omega arith)
