-- ===== src/Lib.antt =====
-- AlmeidaOS, a 64-bit kernel for the x86, modelled from its C sources.
--
-- The kernel starts on one processor (src/kernel/main.c). It reads the map of the physical memory
-- from the BIOS (src/kernel/arch/mem.c), reserves its own regions there, and hands the memory to a
-- buddy allocator (src/kernel/mm/buddy.c) behind kmalloc and kfree (src/kernel/mm/kmem.c). Page tables
-- (src/kernel/mm/page.c) take their frames from a database (src/kernel/mm/pageframe.c); the order of
-- these steps is in src/kernel/mm/init.c. The timer (src/kernel/arch/pit.c) interrupts through the two
-- controllers (src/kernel/arch/pic.c); the dispatch (src/kernel/interrupt/idt.c) ends by calling the
-- scheduler (src/kernel/task/scheduler.c), which switches between processes
-- (src/kernel/task/process.c). A program (src/user/main.c over src/libc) enters the kernel by system
-- calls (src/kernel/syscall), whose messages go through src/kernel/lib/printk.c to the screen
-- (src/kernel/video/vga_console.c) and the serial port (src/kernel/device/serial.c).
--
-- The files:
--   Base        names and tests shared by all; Base/Halt has `Run`, what a routine comes to: a result,
--               the halt of BUG_ON or of a fatal trap, or a loop that outlives the fuel of the model
--   Word        machine words with their wrap-around, and the digits of numbers (Word/Bits)
--   BitOps      include/kernel/lib/bit.h
--   Maths       src/kernel/lib/math
--   Buddy       src/kernel/mm/buddy.c. The header is the function from slot numbers to slots, a slot
--               pointer is a slot number. Buddy/Alloc, Buddy/Free and Buddy/Reserve have the operations;
--               Buddy/Coords names the slots by order and place, and Buddy/Valid states that they form a
--               tree of blocks
--   Kmem        src/kernel/mm/kmem.c; Kmem/Mapping has the kernel's half of the address space,
--               Kmem/Init src/kernel/mm/init.c and Kmem/Start its page table
--   Address     src/kernel/mm/addressconv.c
--   PageFrame   src/kernel/mm/pageframe.c, its linked lists as lists
--   Paging      src/kernel/mm/page.c, over a memory of 64-bit words. Paging/Walk has the translation of
--               the processor and the tree of tables, Paging/Level one level of the walk, Paging/Refine
--               and Paging/Range what a mapping does to the translations, Paging/Unmap what a release does
--   MemMap      src/kernel/arch/mem.c: MemMap/Combine and MemMap/Reserve, with MemMap/Kept,
--               MemMap/Squashed and MemMap/Usable on the merging
--   Sort        src/kernel/lib/qsort.c and src/kernel/lib/shuffle.c
--   Task        src/kernel/task: Task/Pid, Task/Process, Task/Create (with Task/Shared) and
--               Task/Scheduler
--   Pic         src/kernel/arch/pic.c, the masks and registers of the controllers as its state
--   Trap        src/kernel/arch/pit.c (Trap/Timer), and the handlers and dispatch of interrupts
--               (Trap/Handler), and their descriptors (Trap/Vectors)
--   Clock       src/kernel/arch/cmos.c, src/kernel/time/rtc.c and src/kernel/time/delay.c
--   RingBuffer  src/kernel/lib/ringbuffer.c
--   Console     src/kernel/video/vga_console.c, with src/kernel/device/serial.c (Console/Serial) and
--               src/kernel/lib/printk.c (Console/Printk); Console/Lines cuts a text into lines, and
--               Console/Log says what the screen shows of them
--   Cpu         src/kernel/arch/cpu.c, src/kernel/arch/msr.c and include/kernel/arch/msr.h
--   Syscall     src/kernel/syscall
--   Libc        src/libc and src/user/main.c; Libc/Message follows a message to the screen
--   Boot        src/kernel/main.c
--   Text        src/kernel/lib/string.c and src/kernel/lib/vsnprintf.c
--   Examples    runs at concrete inputs
--
-- Numbers are natural numbers, with the width of each machine word written out where the code's
-- arithmetic can wrap. Shared memory that a routine changes is an argument and a result.
--
-- Fuel. The loops of buddy_alloc, buddy_free and find_slot_by_addr have 256 rounds: orders are below
-- 64, an allocation goes up the orders once and down once, a search goes down and a merge goes up. The
-- loop of upow has one round for each of 64 digits, and those of ulltoa have 65 rounds. Loops over an
-- array have a round for each element, and qsort has one depth of calls more than it has
-- elements. buddy_pre_alloc takes its fuel as an argument, since the code recurses without end on some
-- requests.
--
-- The wait for the serial port has a round for each answer of its status port, which is an argument,
-- and the calibration of delays has 64, one for each bit that is shifted.
--
-- Not modelled: assembly, and with it memcpy and memset; memmove, which nothing calls; what only prints
-- (mem_print_entries, coredump), and the messages that the parts print while they start; the loads of
-- CR3 and of the table of descriptors, which are instructions; the boot loader. What memory other than page
-- tables, tasks and the screen holds is not kept: a block that `kmalloc` gives for other data is its
-- address, and what it held is an argument where it is read.
pub mod Base
pub mod Word
pub mod BitOps
pub mod Maths
pub mod MemMap
pub mod Buddy
pub mod Address
pub mod PageFrame
pub mod Task
pub mod Clock
pub mod Pic
pub mod Sort
pub mod Text
pub mod Trap
pub mod RingBuffer
pub mod Console
pub mod Paging
pub mod Kmem
pub mod Cpu
pub mod Syscall
pub mod Libc
pub mod Boot
pub mod Examples
