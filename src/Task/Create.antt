-- ===== src/Task/Create.antt =====
-- `create_process` of src/kernel/task/process.c. The tables of the process lie in the same physical
-- memory as those of the kernel, so each step hands the memory on.
use almeida_os.Base.{ℕ, ◌+◌, ◌-◌, ◌&&◌, ltb, leb, if◌then◌else◌, Run, ok, ◌>>=◌}
use almeida_os.Word.{add64, sub64}
use almeida_os.Address.{pa}
use almeida_os.PageFrame.{pageframe_calc_space_needed}
use almeida_os.Paging.{PageTable, paging_calc_space_needed, paging_init, paging_contiguous_map}
use almeida_os.Kmem.{kmalloc, kmem_default, kmem_zero}
use almeida_os.Kmem.Init.{Memory}
use almeida_os.Task.Pid.{PidMap, find_free_pid}
use almeida_os.Task.Process.{Registers, StackArea, Task, stack_size, write_task}

-- what is written: the memory, the identifiers and the tasks by their address
pub record World : Type 0 where
  pub memory : Memory
  pub pid_map : PidMap
  pub tasks : ℕ → Task

-- sizeof(task_struct_t), and the constants of the function
abbrev pub sizeof_task : ℕ
sizeof_task = 272

abbrev pub fini_addr : ℕ
fini_addr = 10485760

abbrev pub elf_prog_size : ℕ
elf_prog_size = 32768

-- PAGE_STD_BITS | PAGE_USER_SUPERVISOR_BIT
abbrev pub user_bits : ℕ
user_bits = 7

-- GDT64_SEGMENT_SELECTOR_USER_CODE and GDT64_SEGMENT_SELECTOR_USER_DATA, with DPL_RING_3
abbrev pub user_code : ℕ
user_code = 35

abbrev pub user_data : ℕ
user_data = 27

abbrev pub zero_registers : Registers
zero_registers = record {
  r15 = 0;
  r14 = 0;
  r13 = 0;
  r12 = 0;
  r11 = 0;
  r10 = 0;
  r9 = 0;
  r8 = 0;
  rsi = 0;
  rdi = 0;
  rbp = 0;
  rdx = 0;
  rcx = 0;
  rbx = 0;
  rax = 0;
}

-- `kmalloc` on the kernel's memory
unfoldable pub alloc : ℕ → ℕ → Memory → Run (ℕ × Memory)
alloc bytes flags k = do
  (addr, slots, table) ← kmalloc k.ref bytes flags k.slots k.table
  ok (addr, record k { slots = slots; table = table })

-- the physical memory as another table leaves it
unfoldable pub with_memory : (ℕ → ℕ) → PageTable → PageTable
with_memory m t = record t { memory = m }

-- a stack of the process: its memory, zeroed, and where it lies
unfoldable pub stack_area : Memory → Run (StackArea × Memory)
stack_area k = do
  (virt_addr, k') ← alloc stack_size (kmem_default + kmem_zero) k
  phys_addr ← pa virt_addr
  ok (record { phys_addr = phys_addr; virt_addr = virt_addr; length = stack_size }, k')

-- The entries of the kernel's half of a root table are copied to another one.
unfoldable pub copy_kernel_half : ℕ → ℕ → (ℕ → ℕ) → ℕ → ℕ
copy_kernel_half dst src memory a =
    if leb (dst + 2048) a && ltb a (dst + 4096) then memory (src + (a - dst)) else memory a

-- the page table of the process, before it maps anything
unfoldable pub process_table : Memory → Run (PageTable × Memory)
process_table k = do
  let pgt_spc_req : ℕ = paging_calc_space_needed (sub64 fini_addr 0)
  let pfdb_spc_req : ℕ = pageframe_calc_space_needed pgt_spc_req
  (pages_addr, k1) ← alloc pgt_spc_req kmem_default k
  pages ← pa pages_addr
  (pfdb_addr, k2) ← alloc pfdb_spc_req kmem_default k1
  nodes ← pa pfdb_addr
  table ←
      paging_init (record { base_addr = pages; length = pgt_spc_req; type = 0 })
        (record { base_addr = nodes; length = pfdb_spc_req; type = 0 }) k2.table
  ok (table, record k2 { table = with_memory table.memory k2.table })

unfoldable pub create_process : ℕ → World → Run (ℕ × PageTable × World)
create_process text_phy_addr w = do
  (task, k1) ← alloc sizeof_task kmem_default w.memory
  (pid, pid_map) ← find_free_pid w.pid_map
  (t1, k2) ← process_table k1
  t2 ← paging_contiguous_map text_phy_addr (add64 text_phy_addr elf_prog_size) 262144 user_bits t1
  (task_stack_area, k3) ← stack_area (record k2 { table = with_memory t2.memory k2.table })
  t3 ←
      paging_contiguous_map task_stack_area.phys_addr
        (add64 task_stack_area.phys_addr task_stack_area.length) 253952 user_bits
        (with_memory k3.table.memory t2)
  (kernel_stack_area, k4) ← stack_area (record k3 { table = with_memory t3.memory k3.table })
  let memory : ℕ → ℕ = copy_kernel_half t3.phys_root k4.table.phys_root k4.table.memory
  let created : Task = record {
    pid = pid;
    state = 0;
    vm_area = record { ini_addr = 0; fini_addr = fini_addr; phys_root = t3.phys_root };
    task_stack_area = task_stack_area;
    kernel_stack_area = kernel_stack_area;
    regs = zero_registers;
    rip = 266240;
    cs = user_code;
    rflags = 514;
    rsp = 262144;
    ss = user_data;
  }
  ok (
    task,
    with_memory memory t3,
    record {
      memory = record k4 { table = with_memory memory k4.table };
      pid_map = pid_map;
      tasks = write_task w.tasks task created;
    },
  )
