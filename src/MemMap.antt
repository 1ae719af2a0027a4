-- ===== src/MemMap.antt =====
-- src/kernel/arch/mem.c: the map of the physical memory that the BIOS gives, sorted and merged, from
-- which the kernel reserves its regions before the allocator runs.
pub mod Combine
pub mod Reserve
pub mod Carve
pub mod Kept
pub mod Squashed
pub mod Usable
use almeida_os.Base.{
  ℕ, zero, suc, ◌+◌, ◌-◌, ◌*◌, ◌/◌, ◌%◌, ◌^◌, ◌≤◌, ◌<◌, min, max, ◌≡◌, refl, sym, ap, ap₂, ◌∙◌,
  subst, fun_ext, ◌≢◌, ◌↔◌, ◌⊎◌, inl, inr, Bool, true, false, ◌&&◌, ◌||◌, not, Option, none, some,
  List, [], ◌∷◌, ◌++◌, map, arith, ltb, leb, ◌==◌, if◌then◌else◌, ltb→lt, lt→ltb, ltb→le, le→ltb,
  ==→eq, eq→==, tests, Bool-cases, Option-cases, length, get_or, set, length-set, get_or-set_self,
  get_or-set_ne, length-append, Run, ok, bug, running, ◌>>=◌, ◌>>◌, bug_on,
}
use almeida_os.Word.{add64}

-- `mem_map_region_t`; the types are E820_MEM_TYPE_USABLE and E820_MEM_TYPE_RESERVED
pub record Region : Type 0 where
  pub base_addr : ℕ
  pub length : ℕ
  pub type : ℕ

abbrev pub usable : ℕ
usable = 1

abbrev pub reserved : ℕ
reserved = 2

abbrev pub zero_region : Region
zero_region = record { base_addr = 0; length = 0; type = 0 }

-- `mem_map_block_t` and `mem_phys_stats_t`, with the seed that the sorting takes from `rand`
pub record Blocks : Type 0 where
  pub num_entries : ℕ
  pub mem_region : ℕ → Region
  pub phys_avail_mem : ℕ
  pub phys_free_mem : ℕ
  pub rand_seed : ℕ

unfoldable pub put : (ℕ → Region) → ℕ → Region → ℕ → Region
put rs i r j = if j == i then r else rs j

abbrev pub mem_is_entry_empty : Region → Bool
mem_is_entry_empty reg = reg.length == 0 && reg.type == 0

-- the loop of `calc_phys_memory_stats`: all memory, and the part that is usable
unfoldable pub stats_loop : ℕ → ℕ → (ℕ → Region) → ℕ → ℕ → ℕ × ℕ
stats_loop zero cur_pos rs total_mem total_free_mem = (total_mem, total_free_mem)
stats_loop (suc rounds) cur_pos rs total_mem total_free_mem =
    stats_loop rounds (suc cur_pos) rs (add64 total_mem (rs cur_pos).length) (
      if (rs cur_pos).type == usable
      then add64 total_free_mem (rs cur_pos).length
      else total_free_mem)

unfoldable pub calc_phys_memory_stats : Blocks → Blocks
calc_phys_memory_stats b =
    let (total, free) = stats_loop b.num_entries 0 b.mem_region 0 0 in
    record b { phys_avail_mem = total; phys_free_mem = free }

-- `qsort_cmp_mem_region(a, b) < 0`
abbrev pub region_less : Region → Region → Bool
region_less a b = ltb a.base_addr b.base_addr

unfoldable pub mem_stat : Blocks → Run (ℕ × ℕ)
mem_stat b = do bug_on (b.phys_avail_mem == 0); ok (b.phys_avail_mem, b.phys_free_mem)

-- the entries of a type that `mem_list_entries` gives to its handler, in order
unfoldable pub list_loop : ℕ → ℕ → (ℕ → Region) → ℕ → List Region
list_loop zero cur_pos rs type = []
list_loop (suc rounds) cur_pos rs type =
    let rest : List Region = list_loop rounds (suc cur_pos) rs type in
    if (rs cur_pos).type == type then rs cur_pos ∷ rest else rest

unfoldable pub mem_list_entries : Blocks → ℕ → List Region
mem_list_entries b type = list_loop b.num_entries 0 b.mem_region type
