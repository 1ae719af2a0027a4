-- ===== src/Task/Process.antt =====
-- src/kernel/task/process.c and its header: what a process keeps, and the switch between two.
use almeida_os.Base.{
  ℕ, ◌≡◌, refl, ◌≢◌, true, false, Option, none, some, arith, ◌==◌, if◌then◌else◌, eq→==,
}
use almeida_os.Word.{add64}

-- `registers_64_t`
pub record Registers : Type 0 where
  pub r15 : ℕ
  pub r14 : ℕ
  pub r13 : ℕ
  pub r12 : ℕ
  pub r11 : ℕ
  pub r10 : ℕ
  pub r9 : ℕ
  pub r8 : ℕ
  pub rsi : ℕ
  pub rdi : ℕ
  pub rbp : ℕ
  pub rdx : ℕ
  pub rcx : ℕ
  pub rbx : ℕ
  pub rax : ℕ

-- `interrupt_stack_frame_t`, less the control registers that are saved beside it
pub record InterruptStackFrame : Type 0 where
  pub regs : Registers
  pub trap_number : ℕ
  pub error_code : ℕ
  pub rip : ℕ
  pub cs : ℕ
  pub rflags : ℕ
  pub rsp : ℕ
  pub ss : ℕ

-- `stack_area_t`
pub record StackArea : Type 0 where
  pub phys_addr : ℕ
  pub virt_addr : ℕ
  pub length : ℕ

-- `mm_vm_area_t`, with the physical address of the root of the page table
pub record VmArea : Type 0 where
  pub ini_addr : ℕ
  pub fini_addr : ℕ
  pub phys_root : ℕ

-- `task_struct_t`
pub record Task : Type 0 where
  pub pid : ℕ
  pub state : ℕ
  pub vm_area : VmArea
  pub task_stack_area : StackArea
  pub kernel_stack_area : StackArea
  pub regs : Registers
  pub rip : ℕ
  pub cs : ℕ
  pub rflags : ℕ
  pub rsp : ℕ
  pub ss : ℕ

-- The tasks by their address, and the part of the processor that a switch writes: the frame that the
-- interrupt returns through, `TSS64_Segment.rsp0` and CR3.
pub record Machine : Type 0 where
  pub tasks : ℕ → Task
  pub int_frame : InterruptStackFrame
  pub rsp0 : ℕ
  pub cr3 : ℕ

abbrev pub stack_size : ℕ
stack_size = 8192

unfoldable pub launch_process : Task → Machine → Machine
launch_process task mc = record mc {
  rsp0 = add64 task.kernel_stack_area.virt_addr stack_size;
  cr3 = task.vm_area.phys_root;
}

-- the context of the frame, kept in the task
unfoldable pub save_context : InterruptStackFrame → Task → Task
save_context frame curr = record curr {
  rsp = frame.rsp;
  rip = frame.rip;
  ss = frame.ss;
  cs = frame.cs;
  regs = frame.regs;
  rflags = frame.rflags;
}

-- the context of the task, put in the frame
unfoldable pub load_context : Task → InterruptStackFrame → InterruptStackFrame
load_context next frame = record frame {
  rsp = next.rsp;
  rip = next.rip;
  regs = next.regs;
  ss = next.ss;
  cs = next.cs;
  rflags = next.rflags;
}

unfoldable pub write_task : (ℕ → Task) → ℕ → Task → ℕ → Task
write_task tasks p t q = if q == p then t else tasks q

-- `next` is read after `curr` is written, as they may be the same task.
unfoldable pub process_context_swtich : Option ℕ → ℕ → Machine → Machine
process_context_swtich none next mc =
    launch_process (mc.tasks next)
      (record mc { int_frame = load_context (mc.tasks next) mc.int_frame })
process_context_swtich (some curr) next mc =
    let tasks : ℕ → Task = write_task mc.tasks curr (save_context mc.int_frame (mc.tasks curr)) in
    launch_process (tasks next)
      (record mc { tasks = tasks; int_frame = load_context (tasks next) mc.int_frame })

-- the registers that a task resumes with
abbrev pub Context : Type 0
Context = Registers × ℕ × ℕ × ℕ × ℕ × ℕ

abbrev pub context : InterruptStackFrame → Context
context f = (f.regs, f.rip, f.cs, f.rflags, f.rsp, f.ss)

-- Switching from one task to another and, whatever has become of the frame meanwhile, back, resumes
-- the first with the registers that it was left with, and with its page table and kernel stack.
pub process_context_swtich-process_context_swtich :
    (a b : ℕ) (mc : Machine) (later : InterruptStackFrame)
    → a ≢ b
    → (context
          (process_context_swtich
            (some b)
            a
            (record (process_context_swtich (some a) b mc) { int_frame = later })).int_frame
        ≡ context mc.int_frame)
      × ((process_context_swtich
            (some b)
            a
            (record (process_context_swtich (some a) b mc) { int_frame = later })).cr3
          ≡ (mc.tasks a).vm_area.phys_root)
      × ((process_context_swtich
            (some b)
            a
            (record (process_context_swtich (some a) b mc) { int_frame = later })).rsp0
          ≡ add64 (mc.tasks a).kernel_stack_area.virt_addr stack_size)
unfolding process_context_swtich launch_process save_context load_context write_task
process_context_swtich-process_context_swtich a b mc later n =
    let e : (a == b) ≡ false = ground arith in
    let s : (a == a) ≡ true = eq→== a a refl in (rw (e, s) refl, rw (e, s) refl, rw (e, s) refl)
