-- ===== src/Examples/Start.antt =====
-- The page table of a kernel with sixteen pages of memory.
use almeida_os.Base.{◌+◌, refl, arith}
use almeida_os.Address.{virt_addr_kernel_start}
use almeida_os.MemMap.{Region}
use almeida_os.Maths.{ilog2, round, ilog2_start}
use almeida_os.Buddy.{Slots, BuddyRef, make_ref, zero_slot}
use almeida_os.Buddy.Init.{fresh, fresh-IsValid, make_ref-IsRef}
use almeida_os.PageFrame.{pageframe_calc_space_needed}
use almeida_os.Paging.{paging_calc_space_needed}
use almeida_os.Kmem.Init.{Image, paging_setup}
use almeida_os.Kmem.Raw.{IsPaged}
use almeida_os.Kmem.Start.{SetsUp, paging_setup_lem}
use almeida_os.Examples.Tables.{empty}

abbrev header : Region
header = record { base_addr = 4096; length = 512; type = 1 }

abbrev content : Region
content = record { base_addr = 1048576; length = 65536; type = 1 }

abbrev sixteen_pages : BuddyRef
sixteen_pages = make_ref header content

abbrev blank : Slots
blank =
    fresh header content 16 (omega arith) (omega arith) refl (omega arith) (λ _. zero_slot)
      (omega arith)

sixteen_pages-IsPaged : IsPaged sixteen_pages
unfolding make_ref ilog2 round ilog2_start
sixteen_pages-IsPaged = record {
  shape = make_ref-IsRef header content 16 (omega arith) (omega arith) refl (omega arith);
  pages = omega arith;
  aligned = refl;
  low = omega arith;
}

abbrev image : Image
image = record { start = virt_addr_kernel_start + 4096; end = virt_addr_kernel_start + 8192 }

paging_setup_example :
    SetsUp sixteen_pages blank 8192
      (paging_calc_space_needed 4194304)
      (pageframe_calc_space_needed (paging_calc_space_needed 4194304))
      (paging_setup image 4194304 sixteen_pages blank empty)
unfolding make_ref ilog2 round ilog2_start paging_calc_space_needed pageframe_calc_space_needed
paging_setup_example =
    paging_setup_lem image 8192 4194304 sixteen_pages empty refl (omega arith) sixteen_pages-IsPaged
      (omega arith) (omega arith) (omega arith) (omega arith) blank
      (fresh-IsValid header content 16 (omega arith) (omega arith) refl (omega arith)
        (λ _. zero_slot) (omega arith))
