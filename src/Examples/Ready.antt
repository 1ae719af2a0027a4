-- ===== src/Examples/Ready.antt =====
-- The line of the keyboard after the start.
use almeida_os.Base.{◌+◌, ◌≡◌, ◌⊎◌, true, false, none, [], arith}
use almeida_os.Pic.{is_masked}
use almeida_os.Trap.Timer.{Kernel}
use almeida_os.Trap.Vectors.{idt_init, handler_of}
use almeida_os.Boot.{open_lines, close_lines}
use almeida_os.Boot.Ready.{is_open, open_lines_lem}
use almeida_os.Examples.Calls.{vector, no_entries}

abbrev cold : Kernel
cold = record {
  jiffies = 0;
  rtc_curr_unixtime = 0;
  scheduler = record {
    initialised = false;
    run_queue = record { curr = none; tasks = []; need_resched = false };
  };
  pic = record { mask1 = 184; mask2 = 142; isr1 = 0; isr2 = 0; eoi1 = 0; eoi2 = 0 };
}

open_lines_example :
    ((is_open 1 ≡ false) × (is_masked 1 (open_lines (close_lines cold)).pic ≡ true))
    ⊎ ((is_open 1 ≡ true)
        × (is_masked 1 (open_lines (close_lines cold)).pic ≡ false)
        × (handler_of ((idt_init vector no_entries).1 (32 + 1)) ≡ vector (32 + 1)))
open_lines_example = open_lines_lem cold vector no_entries 1 (omega arith) (omega arith)
