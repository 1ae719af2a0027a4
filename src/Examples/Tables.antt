-- ===== src/Examples/Tables.antt =====
-- The page tables of src/kernel/mm/page.c over sixteen frames, and `kmalloc` over them.
use almeida_os.Base.{ℕ, ◌+◌, ◌/◌, ◌≡◌, refl, inl, none, [], arith, length, ok}
use almeida_os.MemMap.{Region}
use almeida_os.PageFrame.{pageframe_calc_space_needed}
use almeida_os.Paging.{PageTable, paging_init, page_alloc, paging_contiguous_map}
use almeida_os.Paging.Walk.{translate, Owners, IsTree}
use almeida_os.Paging.Range.{Maps, page_alloc_lem, paging_contiguous_map_lem}
use almeida_os.Paging.Start.{paging_init_lem}
use almeida_os.Kmem.{kmalloc, kmem_default}
use almeida_os.Kmem.Mapping.{IsKernelTable}
use almeida_os.Kmem.Obtain.{Obtains, kmalloc_lem}
use almeida_os.Buddy.{make_ref}
use almeida_os.Maths.{ilog2, round, ilog2_start}
use almeida_os.Examples.Blocks.{two_pages, start, two_pages-IsRef, start-IsValid}

abbrev frames : Region
frames = record { base_addr = 4096; length = 65536; type = 1 }

abbrev nodes : Region
nodes = record { base_addr = 131072; length = 256; type = 1 }

abbrev pub empty : PageTable
empty = record {
  phys_root = 0;
  virt_root = 0;
  pfdb = record { free = []; used = [] };
  memory = λ _. 0;
}

pub space : nodes.length ≡ pageframe_calc_space_needed frames.length
unfolding pageframe_calc_space_needed
space = refl

paging_init_example :
    (t' : PageTable) × (o : Owners) × (paging_init frames nodes empty ≡ ok t')
    × IsTree o t'
    × (length t'.pfdb.free + 1 ≡ 65536 / 4096)
    × ((v : ℕ) → translate t' v ≡ none)
paging_init_example =
    paging_init_lem frames nodes empty space (omega arith) refl (omega arith) (omega arith)

abbrev made :
    (t' : PageTable) × (o : Owners) × (paging_init frames nodes empty ≡ ok t')
    × IsTree o t'
    × (length t'.pfdb.free + 1 ≡ 65536 / 4096)
    × ((v : ℕ) → translate t' v ≡ none)
made = paging_init_lem frames nodes empty space (omega arith) refl (omega arith) (omega arith)

abbrev pub table : PageTable
table = made.0

page_alloc_example : Maps table 1 266240 16384 (page_alloc 266240 16384 7 table)
page_alloc_example = page_alloc_lem made.1 table 266240 16384 7 made.3 refl

map_example : Maps table 3 253952 1048576 (paging_contiguous_map 1048576 1056768 253952 7 table)
map_example =
    paging_contiguous_map_lem made.1 table 1048576 1056768 253952 7 made.3 refl (omega arith)
      (omega arith) (omega arith)

pub kernel_table : IsKernelTable table
kernel_table = record { owners = made.1; tree = made.3; direct = λ w h. inl (made.5 w) }

kmalloc_example : Obtains two_pages start table 100 (kmalloc two_pages 100 kmem_default start table)
unfolding make_ref ilog2 round ilog2_start
kmalloc_example =
    kmalloc_lem two_pages start table 100 kmem_default two_pages-IsRef (omega arith) (omega arith)
      (omega arith) refl (omega arith) kernel_table refl refl start-IsValid
