-- ===== src/Kmem/Init.antt =====
-- src/kernel/mm/init.c: the start of the memory components. The addresses of the kernel's image, which
-- the linker gives, are arguments; what is printed is left out.
use almeida_os.Base.{ℕ, Run, ok, ◌>>=◌}
use almeida_os.Word.{add64, sub64}
use almeida_os.Maths.{flp2, round_up_po2}
use almeida_os.Address.{va, pa, virt_addr_kernel_start}
use almeida_os.MemMap.{Region, Blocks, mem_stat}
use almeida_os.MemMap.Reserve.{mem_init, mem_alloc_region, mem_alloc_amount}
use almeida_os.Buddy.{Slots, BuddyRef, buddy_calc_header_space}
use almeida_os.PageFrame.{pageframe_calc_space_needed}
use almeida_os.Paging.{
  PageTable, page_size, paging_calc_space_needed, paging_init, paging_contiguous_map,
}
use almeida_os.Kmem.{kmem_init, kmalloc, kmem_raw_alloc}
use almeida_os.Task.Process.{stack_size}

-- `kernel_virt_start_addr` and `kernel_virt_end_addr`
pub record Image : Type 0 where
  pub start : ℕ
  pub end : ℕ

-- ELF_TEXT_OFFSET, and PAGE_PRESENT_BIT | PAGE_READ_WRITE_BIT | PAGE_GLOBAL_BIT
abbrev pub elf_text_offset : ℕ
elf_text_offset = 4096

abbrev pub global_bits : ℕ
global_bits = 259

-- the allocator, the map of the BIOS and the page table of the kernel, once they are set up
pub record Memory : Type 0 where
  pub blocks : Blocks
  pub ref : BuddyRef
  pub slots : Slots
  pub table : PageTable

unfoldable pub reserve_kernel_sections : Image → Blocks → Run Blocks
reserve_kernel_sections image b = do
  start ← pa image.start
  (kern_stack, b') ←
      mem_alloc_region (sub64 (sub64 start elf_text_offset) stack_size)
        (round_up_po2 (sub64 start elf_text_offset) page_size) b
  end ← pa image.end
  (kern_elf_file, b'') ←
      mem_alloc_region (sub64 start elf_text_offset) (round_up_po2 end page_size) b'
  ok b''

-- The recursion of `buddy_pre_alloc` is given this fuel.
unfoldable pub buddy_allocator_setup :
    ℕ → ℕ → Blocks → Slots → Run (Region × Blocks × BuddyRef × Slots)
buddy_allocator_setup fuel k_mem_content_space b m = do
  k_mem_header_space ← buddy_calc_header_space k_mem_content_space
  (header_rg, b') ← mem_alloc_amount k_mem_header_space page_size b
  base ← va header_rg.base_addr
  let k_mem_header_rg : Region = record header_rg { base_addr = base }
  (ref, m') ←
      kmem_init fuel b' k_mem_header_rg
        (record { base_addr = 0; length = k_mem_content_space; type = 0 }) m
  ok (k_mem_header_rg, b', ref, m')

-- the map of a region at its address in the kernel's half
unfoldable pub map_region : Region → PageTable → Run PageTable
map_region rg t = do
  v ← va rg.base_addr
  paging_contiguous_map rg.base_addr (add64 rg.base_addr rg.length) v global_bits t

unfoldable pub paging_setup : Image → ℕ → BuddyRef → Slots → PageTable → Run (Slots × PageTable)
paging_setup image total_kern_space ref m t = do
  let paging_mem : ℕ = paging_calc_space_needed total_kern_space
  let pfdb_mem : ℕ = pageframe_calc_space_needed paging_mem
  (pages_addr, m1, t1) ← kmalloc ref paging_mem kmem_raw_alloc m t
  pages ← pa pages_addr
  let k_pages_struct_rg : Region = record { base_addr = pages; length = paging_mem; type = 0 }
  (pfdb_addr, m2, t2) ← kmalloc ref pfdb_mem kmem_raw_alloc m1 t1
  nodes ← pa pfdb_addr
  let k_pfdb_struct_rg : Region = record { base_addr = nodes; length = pfdb_mem; type = 0 }
  t3 ← paging_init k_pages_struct_rg k_pfdb_struct_rg t2
  end ← pa image.end
  t4 ← paging_contiguous_map 0 end virt_addr_kernel_start global_bits t3
  t5 ← map_region k_pages_struct_rg t4
  t6 ← map_region k_pfdb_struct_rg t5
  ok (m2, t6)

-- `b`, `m` and `t` are what the BIOS left and the memory and the table before they are set up.
unfoldable pub mm_init : ℕ → Image → Blocks → Slots → PageTable → Run Memory
mm_init fuel image b m t = do
  b1 ← mem_init b
  b2 ← reserve_kernel_sections image b1
  (phys_avail_mem, phys_free_mem) ← mem_stat b2
  let total_kern_space : ℕ = flp2 phys_avail_mem
  (header_rg, b3, ref, m1) ← buddy_allocator_setup fuel total_kern_space b2 m
  (m2, t1) ← paging_setup image total_kern_space ref m1 t
  header ← pa header_rg.base_addr
  t2 ←
      paging_contiguous_map header (add64 header header_rg.length) header_rg.base_addr global_bits
        t1
  ok (record { blocks = b3; ref = ref; slots = m2; table = t2 })
