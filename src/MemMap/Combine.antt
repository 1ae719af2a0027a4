-- ===== src/MemMap/Combine.antt =====
-- `combine_mergeable_regions` and `squash_mem_regions` of src/kernel/arch/mem.c.
use almeida_os.Base.{
  ℕ, zero, suc, ◌+◌, ◌-◌, Bool, true, false, ◌&&◌, ◌||◌, not, Option, none, some, ltb, leb, ◌==◌,
  if◌then◌else◌,
}
use almeida_os.Word.{add64}
use almeida_os.MemMap.{Region, Blocks, put, usable, reserved, zero_region, mem_is_entry_empty}

-- a first region of any type but usable counts as reserved
unfoldable pub settle_type : Region → Region
settle_type r = if ltb usable r.type then record r { type = reserved } else r

-- whether two neighbours are merged
unfoldable pub mergeable : Region → Region → Bool
mergeable a b =
    if leb b.base_addr (add64 a.base_addr a.length)
    then a.type == b.type || (ltb usable a.type && ltb usable b.type)
    else ltb usable a.type && ltb usable b.type

-- the loop from the places `ptr_1` and `ptr_2` on, with `rounds` rounds left
unfoldable pub combine_loop : ℕ → ℕ → ℕ → (ℕ → Region) → ℕ → Region
combine_loop zero ptr_1 ptr_2 rs = rs
combine_loop (suc rounds) ptr_1 ptr_2 rs =
    let first : Region = settle_type (rs ptr_1) in
    let second : Region = rs ptr_2 in
    let settled : ℕ → Region = put rs ptr_1 first in
    let merged : ℕ → Region =
      put (put settled ptr_1 (record first { length = add64 first.length second.length })) ptr_2
        zero_region in
    elim (mergeable first second) [
      | true ↦ combine_loop rounds ptr_1 (suc ptr_2) merged
      | false ↦ combine_loop rounds ptr_2 (suc ptr_2) settled
    ]

-- `ptr_2` goes from 1 to `num_entries`, which is a place past the last entry.
unfoldable pub combine_mergeable_regions : Blocks → Blocks
combine_mergeable_regions b =
    if ltb b.num_entries 2
    then b
    else record b { mem_region = combine_loop b.num_entries 0 1 b.mem_region }

-- the first entry that is not empty, from `next_ptr` on
unfoldable pub next_entry : ℕ → ℕ → (ℕ → Region) → Option ℕ
next_entry zero next_ptr rs = none
next_entry (suc rounds) next_ptr rs =
    if not (mem_is_entry_empty (rs next_ptr))
    then some next_ptr
    else next_entry rounds (suc next_ptr) rs

unfoldable pub squash_loop : ℕ → ℕ → ℕ → (ℕ → Region) → ℕ → Region
squash_loop zero ptr_1 num_entries rs = rs
squash_loop (suc rounds) ptr_1 num_entries rs = elim (mem_is_entry_empty (rs ptr_1)) [
  | false ↦ squash_loop rounds (suc ptr_1) num_entries rs
  | true ↦ elim (next_entry (num_entries - (ptr_1 + 1)) (ptr_1 + 1) rs) [
    | none ↦ rs
    | some next_ptr ↦
        squash_loop rounds (suc ptr_1) num_entries
          (put (put rs ptr_1 (rs next_ptr)) next_ptr zero_region)
  ]
]

-- the number of entries before the first empty one
unfoldable pub count_loop : ℕ → ℕ → ℕ → (ℕ → Region) → ℕ
count_loop zero ptr_1 num_entries rs = num_entries
count_loop (suc rounds) ptr_1 num_entries rs =
    if mem_is_entry_empty (rs ptr_1) then ptr_1 else count_loop rounds (suc ptr_1) num_entries rs

unfoldable pub squash_mem_regions : Blocks → Blocks
squash_mem_regions b =
    let rs : ℕ → Region = squash_loop (b.num_entries - 1) 0 b.num_entries b.mem_region in
    if ltb b.num_entries 2
    then b
    else record b { mem_region = rs; num_entries = count_loop b.num_entries 0 b.num_entries rs }
