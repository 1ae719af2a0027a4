-- ===== src/Kmem.antt =====
-- src/kernel/mm/kmem.c: the allocator of the kernel over the tree of blocks.
pub mod Cycle
pub mod Mapping
pub mod Obtain
pub mod Raw
pub mod Start
pub mod Init
use Prim.Native.Nat.{bit_and}
use almeida_os.Base.{
  ℕ, zero, suc, ◌+◌, ◌-◌, ◌*◌, ◌/◌, ◌%◌, ◌^◌, ◌≤◌, ◌<◌, min, max, ◌≡◌, refl, sym, ap, ap₂, ◌∙◌,
  subst, fun_ext, ◌≢◌, ◌↔◌, ◌⊎◌, inl, inr, Bool, true, false, ◌&&◌, ◌||◌, not, Option, none, some,
  List, [], ◌∷◌, ◌++◌, map, arith, ltb, leb, ◌==◌, if◌then◌else◌, ltb→lt, lt→ltb, ltb→le, le→ltb,
  ==→eq, eq→==, tests, Bool-cases, Option-cases, length, get_or, set, length-set, get_or-set_self,
  get_or-set_ne, length-append, Run, ok, bug, running, ◌>>=◌, ◌>>◌, bug_on,
}
use almeida_os.Word.{add64}
use almeida_os.Address.{va, pa}
use almeida_os.MemMap.{Region, Blocks, reserved, mem_list_entries}
use almeida_os.Paging.{PageTable, zero_words, paging_contiguous_map}
use almeida_os.Buddy.{Slots, BuddyRef, buddy_init}
use almeida_os.Buddy.Alloc.{buddy_alloc}
use almeida_os.Buddy.Free.{buddy_free}
use almeida_os.Buddy.Reserve.{buddy_pre_alloc}

-- The recursion of `buddy_pre_alloc` is given this fuel.
unfoldable pub mem_proc_handler : ℕ → BuddyRef → Region → Slots → Run Slots
mem_proc_handler fuel ref mem_rg m =
    if leb (add64 mem_rg.base_addr mem_rg.length) ref.content_mem_reg.length
    then buddy_pre_alloc fuel ref mem_rg.base_addr mem_rg.length m
    else ok m

unfoldable pub handle_all : ℕ → BuddyRef → List Region → Slots → Run Slots
handle_all fuel ref [] m = ok m
handle_all fuel ref (rg ∷ rgs) m = do
  m' ← mem_proc_handler fuel ref rg m
  handle_all fuel ref rgs m'

unfoldable pub kmem_init : ℕ → Blocks → Region → Region → Slots → Run (BuddyRef × Slots)
kmem_init fuel blocks k_mem_header_rg k_mem_content_rg m = do
  (ref, m') ← buddy_init k_mem_header_rg k_mem_content_rg m
  m'' ← handle_all fuel ref (mem_list_entries blocks reserved) m'
  ok (ref, m'')

-- What `kmalloc` does first, and with KMEM_RAW_ALLOC alone: a block, and its virtual address.
unfoldable pub kmalloc_raw : BuddyRef → ℕ → Slots → Run (ℕ × Slots)
kmalloc_raw ref bytes m = do
  (phy_addr, m') ← buddy_alloc ref bytes m
  va_addr ← va phy_addr
  ok (va_addr, m')

-- The flags of `kmalloc`, and those of the pages that it maps.
abbrev pub kmem_default : ℕ
kmem_default = 1

abbrev pub kmem_raw_alloc : ℕ
kmem_raw_alloc = 2

abbrev pub kmem_zero : ℕ
kmem_zero = 4

abbrev pub page_std_bits : ℕ
page_std_bits = 3

-- `memzero` of the block, whose pages lie at its physical address; the lengths of the calls are
-- multiples of a word.
unfoldable pub zero_block : ℕ → ℕ → ℕ → PageTable → PageTable
zero_block flags phy_addr bytes t = if bit_and flags kmem_zero == 0 then t else record t {
  memory = zero_words (record { base_addr = phy_addr; length = bytes; type = 0 }) t.memory;
}

-- `kmalloc`, with the page table of the kernel
unfoldable pub kmalloc : BuddyRef → ℕ → ℕ → Slots → PageTable → Run (ℕ × Slots × PageTable)
kmalloc ref bytes flags m t = do
  (phy_addr, m') ← buddy_alloc ref bytes m
  va_addr ← va phy_addr
  elim (bit_and flags kmem_raw_alloc == 0) [
    | false ↦ ok (va_addr, m', t)
    | true ↦ do
      t' ← paging_contiguous_map phy_addr (add64 phy_addr bytes) va_addr page_std_bits t
      ok (va_addr, m', zero_block flags phy_addr bytes t')
  ]

unfoldable pub kfree : BuddyRef → ℕ → Slots → Run Slots
kfree ref ptr m = do phy_addr ← pa ptr; buddy_free ref phy_addr m
