-- ===== src/MemMap/Reserve.antt =====
-- The set-up of the map of src/kernel/arch/mem.c and its reservations.
use almeida_os.Base.{
  ℕ, zero, suc, ◌+◌, Bool, true, false, ◌&&◌, not, Option, none, some, ltb, leb, ◌==◌,
  if◌then◌else◌, length, Run, ok, bug, ◌>>=◌, ◌>>◌, bug_on,
}
use almeida_os.Word.{add64, sub64}
use almeida_os.Maths.{clp2, round_up_po2}
use almeida_os.Sort.{qsort}
use almeida_os.MemMap.{
  Region, Blocks, put, usable, reserved, zero_region, mem_is_entry_empty, region_less,
  calc_phys_memory_stats,
}
use almeida_os.MemMap.Combine.{combine_mergeable_regions, squash_mem_regions}

-- `mem_region[num_entries++] = r`
unfoldable pub push : Region → Blocks → Blocks
push r b = record b {
  mem_region = put b.mem_region b.num_entries r;
  num_entries = b.num_entries + 1;
}

unfoldable pub clear_low : ℕ → ℕ → (ℕ → Region) → ℕ → Region
clear_low zero i rs = rs
clear_low (suc rounds) i rs = clear_low rounds (suc i) (
    if ltb (sub64 (add64 (rs i).base_addr (rs i).length) 1) 1048576
    then put rs i zero_region
    else rs)

unfoldable pub mem_reserve_first_mb : Blocks → Blocks
mem_reserve_first_mb b =
    push (record { base_addr = 0; length = 1048576; type = reserved })
      (record b { mem_region = clear_low (sub64 b.num_entries 1) 0 b.mem_region })

-- sorting, merging and squashing
unfoldable pub tidy : Blocks → Run Blocks
tidy b = do
  (seed, rs) ← qsort b.num_entries region_less b.rand_seed b.mem_region
  ok (
      squash_mem_regions
        (combine_mergeable_regions (record b { mem_region = rs; rand_seed = seed })))

unfoldable pub mem_init : Blocks → Run Blocks
mem_init b = do tidied ← tidy (mem_reserve_first_mb b); ok (calc_phys_memory_stats tidied)

-- the test of the loop of `mem_alloc_region`
unfoldable pub holds : ℕ → ℕ → Region → Bool
holds phys_start_addr phys_end_addr r =
    leb r.base_addr phys_start_addr
    && leb phys_end_addr (add64 r.base_addr r.length)
    && leb (sub64 phys_end_addr phys_start_addr) r.length
    && r.type == usable

unfoldable pub find_region : ℕ → ℕ → (Region → Bool) → (ℕ → Region) → Option ℕ
find_region zero cur_pos test rs = none
find_region (suc rounds) cur_pos test rs =
    if test (rs cur_pos) then some cur_pos else find_region rounds (suc cur_pos) test rs

-- What is left of a region when a part of it is taken: the entry, and a second one for the part to
-- the right of a hole in the middle.
unfoldable pub carve : ℕ → ℕ → Region → Region × Option Region
carve start end r =
    let req_length : ℕ = sub64 end start in
    if start == r.base_addr
    then (record r { base_addr = end; length = sub64 r.length req_length }, none)
    else if end == add64 r.base_addr r.length
    then (record r { length = sub64 r.length req_length }, none)
    else (
      record r { length = sub64 start r.base_addr },
      some (record {
        base_addr = end;
        length = sub64 (add64 r.base_addr r.length) end;
        type = usable;
      }),
    )

unfoldable pub push_some : Option Region → Blocks → Blocks
push_some none b = b
push_some (some r) b = push r b

unfoldable pub mem_alloc_region : ℕ → ℕ → Blocks → Run (Region × Blocks)
mem_alloc_region start end b = do
  bug_on (leb end start)
  elim (find_region b.num_entries 0 (holds start end) b.mem_region) [
    | none ↦ bug
    | some i ↦
        let r : Region = b.mem_region i in
        let taken : Region = record r { type = reserved } in
        elim (start == r.base_addr && end == add64 r.base_addr r.length) [
          | true ↦ ok (taken, record b { mem_region = put b.mem_region i taken })
          | false ↦ do
            let (left, right) = carve start end r
            let ret : Region = record {
              base_addr = start;
              length = sub64 end start;
              type = reserved;
            }
            tidied ←
                tidy
                  (push ret (push_some right (record b { mem_region = put b.mem_region i left })))
            ok (ret, record tidied { phys_free_mem = sub64 tidied.phys_free_mem (sub64 end start) })
        ]
  ]

-- the test of the loop of `mem_alloc_amount`
unfoldable pub fits_aligned : ℕ → ℕ → Region → Bool
fits_aligned length addr_align r =
    let base_addr : ℕ = round_up_po2 r.base_addr addr_align in
    leb length r.length
    && r.type == usable
    && leb r.base_addr base_addr
    && leb (add64 base_addr length) (add64 r.base_addr r.length)

-- The region is taken from the entry's own base, not from the aligned one.
unfoldable pub mem_alloc_amount : ℕ → ℕ → Blocks → Run (Region × Blocks)
mem_alloc_amount length addr_align b = do
  bug_on (length == 0)
  bug_on (not (addr_align == clp2 addr_align))
  elim (find_region b.num_entries 0 (fits_aligned length addr_align) b.mem_region) [
    | none ↦ bug
    | some i ↦
        let base : ℕ = (b.mem_region i).base_addr in
        do
          (ret, b') ← mem_alloc_region base (add64 base length) b
          bug_on (mem_is_entry_empty ret)
          ok (ret, b')
  ]
