-- ===== src/Examples/Map.antt =====
-- Merging and squashing a memory map of three regions, for src/kernel/arch/mem.c.
use almeida_os.Base.{ℕ, zero, suc, ◌%◌, ◌^◌, ◌≤◌, ◌≡◌, refl}
use almeida_os.MemMap.{Region, Blocks, zero_region}
use almeida_os.MemMap.Combine.{squash_mem_regions, combine_mergeable_regions}
use almeida_os.MemMap.Kept.{usable_bytes}
use almeida_os.MemMap.Squashed.{Filled}
use almeida_os.MemMap.Usable.{squash_mem_regions-combine_mergeable_regions}

-- two usable regions side by side, and a reserved one
abbrev regions : ℕ → Region
regions zero = record { base_addr = 0; length = 4096; type = 1 }
regions (suc zero) = record { base_addr = 4096; length = 8192; type = 1 }
regions (suc (suc zero)) = record { base_addr = 65536; length = 4096; type = 3 }
regions (suc (suc (suc n))) = zero_region

abbrev blocks : Blocks
blocks = record {
  num_entries = 3;
  mem_region = regions;
  phys_avail_mem = 0;
  phys_free_mem = 0;
  rand_seed = 1;
}

abbrev after : Blocks
after = squash_mem_regions (combine_mergeable_regions blocks)

combine_example :
    (usable_bytes after.num_entries after.mem_region % 2 ^ 64 ≡ 12288)
    × (after.num_entries ≤ 3)
    × (2 ≤ 3 → Filled after.num_entries after.mem_region)
combine_example = squash_mem_regions-combine_mergeable_regions blocks refl
