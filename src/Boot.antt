-- ===== src/Boot.antt =====
-- src/kernel/main.c: the order in which the kernel starts its parts. What they print is left out, as
-- are the interrupts that may come in between.
pub mod Ready
use almeida_os.Base.{
  ℕ, zero, suc, ◌+◌, ◌-◌, ◌*◌, ◌/◌, ◌%◌, ◌^◌, ◌≤◌, ◌<◌, min, max, ◌≡◌, refl, sym, ap, ap₂, ◌∙◌,
  subst, fun_ext, ◌≢◌, ◌↔◌, ◌⊎◌, inl, inr, Bool, true, false, ◌&&◌, ◌||◌, not, Option, none, some,
  List, [], ◌∷◌, ◌++◌, map, arith, ltb, leb, ◌==◌, if◌then◌else◌, ltb→lt, lt→ltb, ltb→le, le→ltb,
  ==→eq, eq→==, tests, Bool-cases, Option-cases, length, get_or, set, length-set, get_or-set_self,
  get_or-set_ne, length-append, Run, ok, bug, running, ◌>>=◌, ◌>>◌, bug_on,
}
use almeida_os.Buddy.{Slots}
use almeida_os.MemMap.{Blocks}
use almeida_os.Paging.{PageTable}
use almeida_os.Cpu.{Cpuid, Msrs, CpuVersionInfo, cpu_init}
use almeida_os.Pic.{Pic, pic_disable_all_irq, pic_init}
use almeida_os.Clock.Rtc.{rtc_init, rtc_init_curr_time}
use almeida_os.Clock.Delay.{calibrate_delay, hz}
use almeida_os.Console.{Console, vga_console_init}
use almeida_os.Console.Serial.{init_serial}
use almeida_os.Console.Printk.{Printer, printk_init, printk_info_level}
use almeida_os.Kmem.Init.{Image, Memory, mm_init}
use almeida_os.Syscall.{System, syscall_init}
use almeida_os.Task.Process.{Task}
use almeida_os.Task.Scheduler.{Scheduler, scheduler_init, scheduler_add}
use almeida_os.Task.Create.{World, create_process}
use almeida_os.Trap.Timer.{Kernel, pit_enable, pit_init}
use almeida_os.Trap.Handler.{spurious_irq_enable, keyboard_enable}
use almeida_os.Trap.Vectors.{IdtEntry, idt_init}

-- What the machine answers: the clock at its two readings, the serial port to its test, and how many
-- ticks a loop takes; and the addresses that the linker and the assembly give.
pub record Answers : Type 0 where
  pub cpuid : Cpuid
  pub startup_clock : List ℕ
  pub clock : List ℕ
  pub serial_test : ℕ
  pub ticks : ℕ → ℕ
  pub image : Image
  pub vector : ℕ → ℕ
  pub syscall_entry : ℕ

-- the variables of the parts
pub record Parts : Type 0 where
  pub kernel : Kernel
  pub printer : Printer
  pub cpu_ver_info : CpuVersionInfo
  pub msrs : Msrs
  pub idt64_table : ℕ → IdtEntry
  pub blocks : Blocks
  pub slots : Slots
  pub table : PageTable
  pub tasks : ℕ → Task

-- where the program lies that every process runs
abbrev pub text_addr : ℕ
text_addr = 114688

-- the controllers once all lines are masked and the set-up is done, and the three lines that are
-- opened later
unfoldable pub close_lines : Kernel → Kernel
close_lines k = record k { pic = (pic_init (pic_disable_all_irq k.pic)).1 }

unfoldable pub open_lines : Kernel → Kernel
open_lines k = pit_enable (keyboard_enable (spurious_irq_enable k))

unfoldable pub devices : Answers → Printer → Run Printer
devices a p = do
  p' ← printk_init printk_info_level p
  ok (record p' {
    console = vga_console_init p'.console;
    serial = (init_serial a.serial_test p'.serial).1;
  })

-- more processes, for the scheduler to switch between
unfoldable pub add_tasks : ℕ → World → Scheduler → Run (World × Scheduler)
add_tasks zero w s = ok (w, s)
add_tasks (suc rounds) w s = do
  (task, table, w') ← create_process text_addr w
  s' ← scheduler_add task s
  add_tasks rounds w' s'

-- What the start leaves: the time at which it began, the loops of a delay, the ports of the timer, the
-- limit of the table of descriptors, and the parts.
pub record Started : Type 0 where
  pub rtc_startup_unixtime : ℕ
  pub loops : ℕ
  pub pit_ports : List (ℕ × ℕ)
  pub idt_limit : ℕ
  pub idt64_table : ℕ → IdtEntry
  pub cpu_ver_info : CpuVersionInfo
  pub msrs : Msrs
  pub kernel : Kernel
  pub system : System

-- `fuel` is that of `mm_init`.
unfoldable pub kmain : ℕ → Answers → Parts → Run Started
kmain fuel a s = do
  startup ← rtc_init a.startup_clock
  printer ← devices a s.printer
  let (info, msrs) = cpu_init a.cpuid s.cpu_ver_info s.msrs
  let (limit, idt) = idt_init a.vector s.idt64_table
  now ← rtc_init_curr_time a.clock
  memory ← mm_init fuel a.image s.blocks s.slots s.table
  let k : Kernel = open_lines (record (close_lines s.kernel) { rtc_curr_unixtime = now })
  loops ← calibrate_delay a.ticks
  msrs' ← syscall_init a.cpuid a.syscall_entry msrs
  (init_proc, table, w) ←
      create_process text_addr (record { memory = memory; pid_map = λ _. false; tasks = s.tasks })
  first ← scheduler_init init_proc k.scheduler
  (w', scheduler) ← add_tasks 98 w first
  ok (record {
    rtc_startup_unixtime = startup;
    loops = loops;
    pit_ports = pit_init hz;
    idt_limit = limit;
    idt64_table = idt;
    cpu_ver_info = info;
    msrs = msrs';
    kernel = record k { scheduler = scheduler };
    system = record {
      world = w';
      scheduler = scheduler;
      printer = printer;
      rtc_curr_unixtime = now;
    };
  })
