-- ===== src/Examples/Kernel.antt =====
-- Page frames, tasks, interrupts and the clock at concrete states.
use almeida_os.Base.{
  ℕ, ◌+◌, ◌-◌, ◌*◌, ◌/◌, ◌^◌, ◌≤◌, ◌<◌, ◌≡◌, refl, ◌≢◌, ◌⊎◌, true, false, ◌&&◌, ◌||◌, not, some, [],
  ◌∷◌, arith, ltb, ◌==◌, ok, bug, ◌>>=◌,
}
use almeida_os.BitOps.{test_bit}
use almeida_os.Word.{add64}
use almeida_os.MemMap.{Region}
use almeida_os.Address.{va, pa, virt_addr_kernel_start}
use almeida_os.Address.Laws.{va-cases}
use almeida_os.PageFrame.{
  PageFrame, PageFrameDatabase, pageframe_init, pageframe_free, pageframe_calc_space_needed,
}
use almeida_os.PageFrame.Laws.{Given, pageframe_free_lem}
use almeida_os.PageFrame.Layout.{frames, pageframe_init_lem}
use almeida_os.Task.Pid.{PidMap, LeastTaken, find_free_pid, find_free_pid_lem}
use almeida_os.Task.Process.{
  Registers, InterruptStackFrame, Task, Machine, context, process_context_swtich, stack_size,
  process_context_swtich-process_context_swtich,
}
use almeida_os.Task.RoundRobin.{ready, turns, TurnsTo, turns_lem}
use almeida_os.Pic.{Pic, is_masked, pic_mask_irq}
use almeida_os.Pic.Laws.{is_masked-pic_mask_irq}
use almeida_os.Trap.Timer.{Kernel}
use almeida_os.Trap.Handler.{interrupt_handler}
use almeida_os.Trap.Keeps.{interrupt_handler_timer}
use almeida_os.Clock.Cmos.{CmosClock, to_binary, to_24_hours, to_24_hours-to_binary}
use almeida_os.Clock.Rtc.{rtc_covert_to_unixtime}
use almeida_os.Clock.Calendar.{unixtime, rtc_covert_to_unixtime_lem}

va_example :
    ((5000 < 2 ^ 47)
      × (va 5000 ≡ ok (virt_addr_kernel_start + 5000))
      × ((va 5000 >>= pa) ≡ ok 5000))
    ⊎ ((2 ^ 47 ≤ 5000)
        × (5000 < 2 ^ 48)
        × (va 5000 ≡ ok (5000 - 2 ^ 47))
        × ((va 5000 >>= pa) ≡ bug))
    ⊎ ((2 ^ 48 ≤ 5000) × (va 5000 ≡ bug))
va_example = va-cases 5000

abbrev frame_1 : PageFrame
frame_1 = record { node = 64; phy_addr = 4096 }

abbrev frame_2 : PageFrame
frame_2 = record { node = 80; phy_addr = 8192 }

abbrev frame_3 : PageFrame
frame_3 = record { node = 96; phy_addr = 12288 }

abbrev database : PageFrameDatabase
database = record { free = frame_3 ∷ []; used = frame_1 ∷ frame_2 ∷ [] }

pageframe_free_example : Given database 8192 (pageframe_free database 8192)
pageframe_free_example = pageframe_free_lem database 8192

abbrev page_region : Region
page_region = record { base_addr = 1048576; length = 8192; type = 0 }

abbrev node_region : Region
node_region = record { base_addr = 2097152; length = 32; type = 0 }

pageframe_init_example :
    pageframe_init page_region node_region
    ≡ ok (record { free = frames 1048576 2097152 (8192 / 4096); used = [] })
unfolding pageframe_calc_space_needed
pageframe_init_example = pageframe_init_lem page_region node_region refl (omega arith) (omega arith)

abbrev two_taken : PidMap
two_taken i = ltb i 3

find_free_pid_example : LeastTaken two_taken (find_free_pid two_taken)
find_free_pid_example = find_free_pid_lem two_taken

abbrev registers : ℕ → Registers
registers n = record {
  r15 = n;
  r14 = n;
  r13 = n;
  r12 = n;
  r11 = n;
  r10 = n;
  r9 = n;
  r8 = n;
  rsi = n;
  rdi = n;
  rbp = n;
  rdx = n;
  rcx = n;
  rbx = n;
  rax = n;
}

abbrev pub task_of : ℕ → Task
task_of n = record {
  pid = n;
  state = 0;
  vm_area = record { ini_addr = 0; fini_addr = 10485760; phys_root = 4096 * n };
  task_stack_area = record { phys_addr = 8192 * n; virt_addr = 8192 * n; length = 8192 };
  kernel_stack_area = record { phys_addr = 16384 * n; virt_addr = 16384 * n; length = 8192 };
  regs = registers n;
  rip = 266240;
  cs = 27;
  rflags = 514;
  rsp = 262144;
  ss = 35;
}

abbrev frame_of : ℕ → InterruptStackFrame
frame_of n = record {
  regs = registers n;
  trap_number = 32;
  error_code = 0;
  rip = n;
  cs = 27;
  rflags = 514;
  rsp = n;
  ss = 35;
}

abbrev machine : Machine
machine = record { tasks = task_of; int_frame = frame_of 7; rsp0 = 0; cr3 = 4096 }

switch_example :
    (context
        (process_context_swtich
          (some 2)
          1
          (record (process_context_swtich (some 1) 2 machine) { int_frame = frame_of 9 })).int_frame
      ≡ context (frame_of 7))
    × ((process_context_swtich
          (some 2)
          1
          (record (process_context_swtich (some 1) 2 machine) { int_frame = frame_of 9 })).cr3
        ≡ 4096 * 1)
    × ((process_context_swtich
          (some 2)
          1
          (record (process_context_swtich (some 1) 2 machine) { int_frame = frame_of 9 })).rsp0
        ≡ add64 (16384 * 1) stack_size)
switch_example =
    process_context_swtich-process_context_swtich 1 2 machine (frame_of 9) (λ e. omega arith)

turns_example :
    TurnsTo
      (turns 3 (ready (some 3) (1 ∷ 2 ∷ 3 ∷ []) true) machine)
      (1 ∷ 2 ∷ 3 ∷ [])
      (1 ∷ 2 ∷ 3 ∷ [])
turns_example = turns_lem (1 ∷ 2 ∷ 3 ∷ []) (some 3) true machine (omega arith)

abbrev controllers : Pic
controllers = record { mask1 = 248; mask2 = 255; isr1 = 0; isr2 = 0; eoi1 = 0; eoi2 = 0 }

pic_mask_irq_example :
    is_masked 9 (pic_mask_irq 1 controllers) ≡ (9 == 1) || is_masked 9 controllers
pic_mask_irq_example = is_masked-pic_mask_irq 9 1 controllers (omega arith) (omega arith)

abbrev kernel : Kernel
kernel = record {
  jiffies = 19;
  rtc_curr_unixtime = 946684800000;
  scheduler = ready (some 1) (1 ∷ 2 ∷ []) false;
  pic = controllers;
}

interrupt_handler_example :
    (k' : Kernel) × (mc' : Machine) × (interrupt_handler kernel machine ≡ ok (k', mc'))
    × (k'.jiffies ≡ add64 19 1)
    × (k'.rtc_curr_unixtime ≡ add64 946684800000 1)
    × (is_masked 9 k'.pic ≡ not (9 == 0) && is_masked 9 controllers)
interrupt_handler_example = interrupt_handler_timer kernel machine 9 refl refl (omega arith)

abbrev one_pm : CmosClock
one_pm = record { second = 48; minute = 21; hour = 129; day = 41; month = 2; year = 36 }

bits_clear : (test_bit 1 0 ≡ false) × (test_bit 2 0 ≡ false)
unfolding test_bit
bits_clear = (refl, refl)

afternoon_example :
    ((to_24_hours 0 (to_binary 0 one_pm)).hour ≡ 21)
    × ((to_24_hours 0 (to_binary 0 one_pm)).hour ≢ 13)
afternoon_example =
    to_24_hours-to_binary 1 0 one_pm (omega arith) (omega arith) refl bits_clear.0 bits_clear.1

abbrev late_february : CmosClock
late_february = record { second = 30; minute = 15; hour = 12; day = 29; month = 2; year = 24 }

rtc_example :
    ((29 ≤ 25) × (rtc_covert_to_unixtime late_february ≡ unixtime late_february))
    ⊎ ((26 ≤ 29) × (rtc_covert_to_unixtime late_february + 2 ^ 32 ≡ unixtime late_february))
rtc_example =
    rtc_covert_to_unixtime_lem late_february (omega arith) (omega arith) (omega arith) (omega arith)
      (omega arith) (omega arith) (omega arith) (omega arith)
