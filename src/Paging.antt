-- ===== src/Paging.antt =====
-- src/kernel/mm/page.c: the four levels of page tables. Physical memory is the function from addresses
-- of words to 64-bit words; a table of 512 entries starts at the address of its page frame.
pub mod Index
pub mod Release
pub mod Unmap
pub mod Walk
pub mod Change
pub mod Tree
pub mod Level
pub mod Last
pub mod Refine
pub mod Range
pub mod Start
use Prim.Native.Nat.{bit_and}
use almeida_os.Base.{
  ℕ, zero, suc, ◌+◌, ◌-◌, ◌*◌, ◌/◌, ◌%◌, ◌^◌, ◌≤◌, ◌<◌, min, max, ◌≡◌, refl, sym, ap, ap₂, ◌∙◌,
  subst, fun_ext, ◌≢◌, ◌↔◌, ◌⊎◌, inl, inr, Bool, true, false, ◌&&◌, ◌||◌, not, Option, none, some,
  List, [], ◌∷◌, ◌++◌, map, arith, ltb, leb, ◌==◌, if◌then◌else◌, ltb→lt, lt→ltb, ltb→le, le→ltb,
  ==→eq, eq→==, tests, Bool-cases, Option-cases, length, get_or, set, length-set, get_or-set_self,
  get_or-set_ne, length-append, Run, ok, bug, running, ◌>>=◌, ◌>>◌, bug_on,
}
use almeida_os.Word.{u32, add64, sub64, shr}
use almeida_os.BitOps.{extract_bit_chunk}
use almeida_os.Address.{va}
use almeida_os.MemMap.{Region}
use almeida_os.PageFrame.{PageFrameDatabase, pageframe_init, pageframe_alloc}

-- `pagetable_t`, and the memory that holds the tables
pub record PageTable : Type 0 where
  pub phys_root : ℕ
  pub virt_root : ℕ
  pub pfdb : PageFrameDatabase
  pub memory : ℕ → ℕ

abbrev pub page_size : ℕ
page_size = 4096

-- The tests are of the quotients themselves, not of the numbers that are divided.
unfoldable pub paging_calc_space_needed : ℕ → ℕ
paging_calc_space_needed bytes =
    let pte_tables : ℕ =
      if not (bytes % 2097152 == 0)
      then u32 (u32 (bytes / 2097152) + 1)
      else u32 (bytes / 2097152) in
    let pd_tables : ℕ =
      if not (pte_tables / 512 % 512 == 0) then u32 (pte_tables / 512 + 1) else pte_tables / 512 in
    let pdp_tables : ℕ =
      if not (pd_tables / 512 % 512 == 0) then u32 (pd_tables / 512 + 1) else pd_tables / 512 in
    u32 (u32 (1 + pdp_tables + pd_tables + pte_tables) * page_size)

-- `memzero` on the words of a region
unfoldable pub zero_words : Region → (ℕ → ℕ) → ℕ → ℕ
zero_words rg memory a =
    if leb rg.base_addr a && ltb a (rg.base_addr + rg.length) then 0 else memory a

unfoldable pub paging_init : Region → Region → PageTable → Run PageTable
paging_init pages_rg pfdb_rg t = do
  pages ← va pages_rg.base_addr
  nodes ← va pfdb_rg.base_addr
  pfdb ← pageframe_init pages_rg pfdb_rg
  (root, pfdb') ← pageframe_alloc pfdb
  virt ← va root
  ok (record {
    phys_root = root;
    virt_root = virt;
    pfdb = pfdb';
    memory = zero_words pfdb_rg (zero_words pages_rg t.memory);
  })

-- PML4E, PDPTE, PDE and PTE
abbrev pub pml4e : ℕ → ℕ
pml4e a = extract_bit_chunk 39 47 a

abbrev pub pdpte : ℕ → ℕ
pdpte a = extract_bit_chunk 30 38 a

abbrev pub pde : ℕ → ℕ
pde a = extract_bit_chunk 21 29 a

abbrev pub pte : ℕ → ℕ
pte a = extract_bit_chunk 12 20 a

-- PREP_BASE_ADDR: the mask has 28 bits
unfoldable pub prep_base_addr : ℕ → ℕ
prep_base_addr addr = bit_and (shr addr 12) (shr (2 ^ 64 - 1) (64 - (64 - 36)))

-- an entry of a table: twelve bits of flags, and 36 bits for the address
unfoldable pub entry_of : ℕ → ℕ → ℕ
entry_of addr flags = flags % 2 ^ 12 + prep_base_addr addr % 2 ^ 36 * 2 ^ 12

-- the table that an entry leads to
unfoldable pub table_of : ℕ → ℕ
table_of entry = entry / 2 ^ 12 % 2 ^ 36 * 2 ^ 12

unfoldable pub write_entry : ℕ → ℕ → (ℕ → ℕ) → ℕ → ℕ
write_entry at value memory a = if a == at then value else memory a

-- One level: the entry of a table, made if it is empty, and the table that it leads to.
unfoldable pub descend : ℕ → ℕ → ℕ → PageTable → Run (ℕ × PageTable)
descend table idx flags t =
    let at : ℕ = table + 8 * idx in
    elim (t.memory at == 0) [
      | true ↦ do
        (frame, pfdb) ← pageframe_alloc t.pfdb
        let entry : ℕ = entry_of frame flags
        next ← va (table_of entry)
        ok (table_of entry, record t { pfdb = pfdb; memory = write_entry at entry t.memory })
      | false ↦ do next ← va (table_of (t.memory at)); ok (table_of (t.memory at), t)
    ]

unfoldable pub page_alloc : ℕ → ℕ → ℕ → PageTable → Run PageTable
page_alloc v_addr p_dest_addr flags t = do
  (pdp, a) ← descend t.phys_root (pml4e v_addr) flags t
  (pd, b) ← descend pdp (pdpte v_addr) flags a
  (pt, c) ← descend pd (pde v_addr) flags b
  let at : ℕ = pt + 8 * pte v_addr
  ok (
      if c.memory at == 0
      then record c { memory = write_entry at (entry_of p_dest_addr flags) c.memory }
      else c)

-- The loop also maps the page that starts at the end of the range.
unfoldable pub map_loop : ℕ → ℕ → ℕ → ℕ → ℕ → PageTable → Run PageTable
map_loop zero p_start_addr p_end_addr v_addr flags t = running
map_loop (suc fuel) p_start_addr p_end_addr v_addr flags t = elim (leb p_start_addr p_end_addr) [
  | false ↦ ok t
  | true ↦ do
    t' ← page_alloc v_addr p_start_addr flags t
    map_loop fuel (add64 p_start_addr page_size) p_end_addr (add64 v_addr page_size) flags t'
]

unfoldable pub paging_contiguous_map : ℕ → ℕ → ℕ → ℕ → PageTable → Run PageTable
paging_contiguous_map p_start_addr p_end_addr v_base_start_addr flags t =
    map_loop (p_end_addr / page_size + 2) p_start_addr p_end_addr v_base_start_addr flags t
