-- ===== src/Syscall.antt =====
-- src/kernel/syscall: the set-up of system calls, and their handler. What a program sees at an address
-- is an argument, since its page table gives it.
pub mod Setup
pub mod Write
use almeida_os.Base.{
  ℕ, zero, suc, ◌+◌, ◌-◌, ◌*◌, ◌/◌, ◌%◌, ◌^◌, ◌≤◌, ◌<◌, min, max, ◌≡◌, refl, sym, ap, ap₂, ◌∙◌,
  subst, fun_ext, ◌≢◌, ◌↔◌, ◌⊎◌, inl, inr, Bool, true, false, ◌&&◌, ◌||◌, not, Option, none, some,
  List, [], ◌∷◌, ◌++◌, map, arith, ltb, leb, ◌==◌, if◌then◌else◌, ltb→lt, lt→ltb, ltb→le, le→ltb,
  ==→eq, eq→==, tests, Bool-cases, Option-cases, length, get_or, set, length-set, get_or-set_self,
  get_or-set_ne, length-append, Run, ok, bug, running, ◌>>=◌, ◌>>◌, bug_on,
}
use Prim.Native.Nat.{bit_and, bit_or}
use almeida_os.Word.{shl64}
use almeida_os.BitOps.{test_bit, set_bit}
use almeida_os.Cpu.{Cpuid, Msrs, rdmsr, wrmsr}
use almeida_os.Task.Process.{Registers, Task}
use almeida_os.Task.Scheduler.{Scheduler}
use almeida_os.Task.Create.{World, alloc}
use almeida_os.Text.{Chars}
use almeida_os.Text.Format.{Arg}
use almeida_os.Clock.Rtc.{sys_time}
use almeida_os.Kmem.{kmem_default, kfree}
use almeida_os.Kmem.Init.{Memory}
use almeida_os.Console.Printk.{Printer, printk, printk_info_level}

abbrev pub msr_ia32_efer : ℕ
msr_ia32_efer = 3221225600

abbrev pub msr_ia32_star : ℕ
msr_ia32_star = 3221225601

abbrev pub msr_ia32_lstar : ℕ
msr_ia32_lstar = 3221225602

abbrev pub msr_ia32_fmask : ℕ
msr_ia32_fmask = 3221225604

-- RFLAGS_IF | RFLAGS_DF
abbrev pub syscall_mask : ℕ
syscall_mask = 1536

-- GDT64_SEGMENT_SELECTOR_KERNEL_CODE and GDT64_SEGMENT_SELECTOR_USER_CODE
abbrev pub kernel_selector : ℕ
kernel_selector = 8

abbrev pub user_selector : ℕ
user_selector = 32

unfoldable pub is_syscall_inst_supported : Cpuid → Bool
is_syscall_inst_supported cpuid = let (eax, edx) = cpuid 2147483649 in test_bit 11 edx

-- the value of IA32_STAR
unfoldable pub star_of : ℕ → ℕ
star_of star_reg =
    bit_or (bit_or (bit_and star_reg 4294967295) (shl64 (user_selector - 16) 48))
      (shl64 kernel_selector 32)

-- `entry` is the address of `syscall_entry`.
unfoldable pub syscall_init : Cpuid → ℕ → Msrs → Run Msrs
syscall_init cpuid entry m = do
  bug_on (not (is_syscall_inst_supported cpuid))
  let m1 : Msrs = wrmsr msr_ia32_star (star_of (rdmsr msr_ia32_star m)) m
  let m2 : Msrs = wrmsr msr_ia32_lstar entry m1
  let m3 : Msrs = wrmsr msr_ia32_efer (set_bit 0 (rdmsr msr_ia32_efer m2)) m2
  ok (wrmsr msr_ia32_fmask syscall_mask m3)

-- what the system calls read and write
pub record System : Type 0 where
  pub world : World
  pub scheduler : Scheduler
  pub printer : Printer
  pub rtc_curr_unixtime : ℕ

-- the characters from a place on, up to a NUL that is less than `fuel` away
unfoldable pub string_at : ℕ → (ℕ → ℕ) → ℕ → Run Chars
string_at zero bytes i = running
string_at (suc fuel) bytes i = elim (bytes i == 0) [
  | true ↦ ok []
  | false ↦ string_at fuel bytes (suc i) >>= λ rest. ok (bytes i ∷ rest)
]

-- the block of `length` bytes once it holds those of the program; `block` is what it held
unfoldable pub content_of : (ℕ → ℕ) → ℕ → ℕ → (ℕ → ℕ) → ℕ → ℕ
content_of user string length block i = if ltb i length then user (string + i) else block i

-- The content is the format of the message: `args` are the values that its placeholders find, and
-- `block` and `reach` say what the block held and how far it is read.
unfoldable pub sys_write : (ℕ → ℕ) → (ℕ → ℕ) → ℕ → List Arg → ℕ → ℕ → System → Run (ℕ × System)
sys_write user block reach args string length s = do
  bug_on (length == 0 || string == 0)
  (content, memory) ← alloc length kmem_default s.world.memory
  text ← string_at reach (content_of user string length block) 0
  printer ← printk printk_info_level text args s.printer
  slots ← kfree memory.ref content memory.slots
  ok (
    length,
    record s {
      world = record s.world { memory = record memory { slots = slots } };
      printer = printer;
    },
  )

-- Without a current task, reading its identifier is a fatal trap.
unfoldable pub sys_getpid : System → Run ℕ
sys_getpid s = elim s.scheduler.run_queue.curr [
  | none ↦ bug
  | some task ↦ ok (s.world.tasks task).pid
]

-- __NR_write, __NR_getpid and __NR_time
abbrev pub nr_write : ℕ
nr_write = 1

abbrev pub nr_getpid : ℕ
nr_getpid = 39

abbrev pub nr_time : ℕ
nr_time = 201

unfoldable pub syscall_handler :
    (ℕ → ℕ) → (ℕ → ℕ) → ℕ → List Arg → Registers → System → Run (ℕ × System)
syscall_handler user block reach args regs s = elim (regs.rax == nr_write) [
  | true ↦ sys_write user block reach args regs.rdi regs.rsi s
  | false ↦ elim (regs.rax == nr_getpid) [
    | true ↦ sys_getpid s >>= λ pid. ok (pid, s)
    | false ↦ elim (regs.rax == nr_time) [
      | true ↦ ok (sys_time s.rtc_curr_unixtime, s)
      | false ↦ bug
    ]
  ]
]
