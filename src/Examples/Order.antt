-- ===== src/Examples/Order.antt =====
-- The entries of a map of the memory, sorted by their addresses.
use almeida_os.Base.{ℕ, ◌≡◌, true, false, arith, ◌==◌, if◌then◌else◌, ok}
use almeida_os.MemMap.{Region, region_less}
use almeida_os.Sort.{qsort}
use almeida_os.Sort.Rearrange.{Rearranged}
use almeida_os.Sort.Order.{InOrder, qsort_order}

region_less-asym : (x y : Region) → region_less x y ≡ true → region_less y x ≡ false
region_less-asym x y e = ground arith

region_less-trans :
    (x y z : Region) → region_less y x ≡ false → region_less z y ≡ false → region_less z x ≡ false
region_less-trans x y z e f = ground arith

abbrev entries : ℕ → Region
entries i =
    if i == 0
    then record { base_addr = 1048576; length = 4096; type = 1 }
    else if i == 1
    then record { base_addr = 0; length = 4096; type = 2 }
    else record { base_addr = 65536; length = 8192; type = 1 }

qsort_order_example :
    (seed' : ℕ) × (c : ℕ → Region) × (qsort 3 region_less 12345 entries ≡ ok (seed', c))
    × Rearranged 3 entries c
    × InOrder region_less region_less-asym region_less-trans c 0 3
qsort_order_example = qsort_order region_less region_less-asym region_less-trans 3 12345 entries
