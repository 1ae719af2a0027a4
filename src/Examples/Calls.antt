-- ===== src/Examples/Calls.antt =====
-- System calls, the descriptors of interrupts and the registers of the processor.
use almeida_os.Base.{
  ℕ, ◌+◌, ◌-◌, ◌*◌, ◌/◌, ◌≡◌, refl, ◌⊎◌, true, false, none, [], arith, get_or, ok, bug,
}
use almeida_os.Buddy.{make_ref}
use almeida_os.Maths.{ilog2, round, ilog2_start}
use almeida_os.Clock.Delay.{calibrate_delay, Calibrated, calibrate_delay_lem}
use almeida_os.Cpu.{Cpuid, Msrs}
use almeida_os.Console.Serial.{is_transmit_empty}
use almeida_os.Kmem.Init.{Memory}
use almeida_os.Syscall.{System, sys_write, syscall_init, is_syscall_inst_supported}
use almeida_os.Syscall.Setup.{SetUp, syscall_init_lem}
use almeida_os.Syscall.Write.{IsKernelMemory, HasText, Written, sys_write_lem}
use almeida_os.Trap.Vectors.{IdtEntry, idt_init, handler_of, is_vector, idt_init_lem}
use almeida_os.Text.Digits.{lltoa}
use almeida_os.Libc.{ltoa}
use almeida_os.Libc.Same.{ltoa_lem}
use almeida_os.Examples.Blocks.{two_pages, start, two_pages-IsRef, start-IsValid}
use almeida_os.Examples.Tables.{table, kernel_table}
use almeida_os.Examples.Kernel.{task_of}
use almeida_os.Examples.Devices.{greeting, printer, screen-HoldsLog, greeting-IsPlain}

abbrev registers : Msrs
registers = λ _. (0, 1)

abbrev cpuid : Cpuid
cpuid = λ _. (0, 2048)

syscall_init_example :
    ((is_syscall_inst_supported cpuid ≡ false)
      × (syscall_init cpuid 18446603336221200384 registers ≡ bug))
    ⊎ ((is_syscall_inst_supported cpuid ≡ true)
        × (m' : Msrs) × (syscall_init cpuid 18446603336221200384 registers ≡ ok m')
        × SetUp 18446603336221200384 registers m')
syscall_init_example =
    syscall_init_lem cpuid 18446603336221200384 registers (omega arith) (omega arith) (omega arith)

abbrev pub no_entries : ℕ → IdtEntry
no_entries = λ _. record {
  low_offset = 0;
  target_selector = 0;
  ist_ign_res = 0;
  attr = 0;
  mid_offset = 0;
  high_offset = 0;
  reserved = 0;
}

abbrev pub vector : ℕ → ℕ
vector i = 18446603336221200384 + 16 * i

idt_init_example :
    ((is_vector 33 ≡ true)
      × (handler_of ((idt_init vector no_entries).1 33) ≡ vector 33)
      × (((idt_init vector no_entries).1 33).target_selector ≡ 8)
      × (((idt_init vector no_entries).1 33).attr ≡ 142))
    ⊎ ((is_vector 33 ≡ false) × ((idt_init vector no_entries).1 33 ≡ no_entries 33))
idt_init_example = idt_init_lem vector no_entries 33 (omega arith)

calibrate_delay_example :
    Calibrated (λ loops. loops / 1000000) 16 (calibrate_delay (λ loops. loops / 1000000))
calibrate_delay_example = calibrate_delay_lem (λ loops. loops / 1000000)

ltoa_example : ltoa 1234 10 ≡ lltoa 1234 10
ltoa_example = ltoa_lem 1234 10

abbrev pub memory : Memory
memory = record {
  blocks = record {
    num_entries = 0;
    mem_region = λ _. record { base_addr = 0; length = 0; type = 0 };
    phys_avail_mem = 0;
    phys_free_mem = 0;
    rand_seed = 1;
  };
  ref = two_pages;
  slots = start;
  table = table;
}

abbrev pub system : System
system = record {
  world = record { memory = memory; pid_map = λ _. false; tasks = task_of };
  scheduler = record {
    initialised = true;
    run_queue = record { curr = none; tasks = []; need_resched = false };
  };
  printer = printer;
  rtc_curr_unixtime = 0;
}

pub memory-IsKernelMemory : IsKernelMemory memory
unfolding make_ref ilog2 round ilog2_start
memory-IsKernelMemory = record {
  ref = two_pages-IsRef;
  valid = start-IsValid;
  pages = omega arith;
  aligned = refl;
  low = omega arith;
  table = kernel_table;
}

-- the program's bytes
abbrev user : ℕ → ℕ
user a = get_or greeting (a - 266240) 0

user-HasText : HasText user 266240 greeting
user-HasText = (
  refl,
  λ e. absurd (omega (arith, e)),
  (
    refl,
    λ e. absurd (omega (arith, e)),
    (
      refl,
      λ e. absurd (omega (arith, e)),
      (
        refl,
        λ e. absurd (omega (arith, e)),
        (refl, λ e. absurd (omega (arith, e)), (refl, λ e. absurd (omega (arith, e)), refl)),
      ),
    ),
  ),
)

sys_write_example : Written [] greeting 7 system (sys_write user (λ _. 0) 8 [] 266240 7 system)
unfolding make_ref ilog2 round ilog2_start is_transmit_empty
sys_write_example =
    sys_write_lem [] greeting user (λ _. 0) 8 266240 7 system (omega arith) user-HasText
      (omega arith) (omega arith) memory-IsKernelMemory (omega arith) screen-HoldsLog
      greeting-IsPlain refl (omega arith) (omega arith) (omega arith)
