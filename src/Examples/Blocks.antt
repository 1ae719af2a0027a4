-- ===== src/Examples/Blocks.antt =====
-- The allocator of src/kernel/mm/buddy.c over a region of two pages.
use almeida_os.Base.{
  ℕ, ◌-◌, ◌*◌, ◌^◌, ◌≤◌, ◌<◌, ◌≡◌, refl, sym, ◌∙◌, ◌≢◌, arith, Run, ok, bug, running,
}
use almeida_os.MemMap.{Region}
use almeida_os.Buddy.{
  SlotType, unused, split, used, Slots, BuddyRef, zero_slot, make_ref, buddy_init,
  buddy_calc_header_space,
}
use almeida_os.Buddy.Coords.{IsRef, InRange, root-InRange, left-InRange, right-InRange}
use almeida_os.Buddy.Valid.{IsValid, IsFree, IsUsed}
use almeida_os.Buddy.Init.{fresh, fresh-IsValid, make_ref-IsRef, buddy_init_lem}
use almeida_os.Buddy.Alloc.{order_of, buddy_alloc}
use almeida_os.Buddy.AllocLaws.{Outcome}
use almeida_os.Buddy.Promise.{buddy_alloc_lem, order_of_lem}
use almeida_os.Buddy.SplitValid.{halved, halved-IsValid, halved-IsFree}
use almeida_os.Buddy.Split.{split-right}
use almeida_os.Maths.{ilog2, round, ilog2_start}
use almeida_os.Buddy.Retype.{retyped, retyped-IsValid, retyped-here, retyped-other}
use almeida_os.Buddy.Release.{Released, buddy_free_lem}
use almeida_os.Buddy.Reach.{initialised, allocated, AllApart, Reachable-AllApart}
use almeida_os.Buddy.Free.{buddy_free}
use almeida_os.Kmem.{kmalloc_raw}
use almeida_os.Kmem.Cycle.{Returned, kfree-kmalloc_raw}

abbrev header : Region
header = record { base_addr = 4096; length = 64; type = 1 }

abbrev content : Region
content = record { base_addr = 1048576; length = 8192; type = 1 }

abbrev pub two_pages : BuddyRef
two_pages = make_ref header content

abbrev empty_memory : Slots
empty_memory = λ _. zero_slot

abbrev pub start : Slots
start =
    fresh header content 13 (omega arith) (omega arith) refl (omega arith) empty_memory
      (omega arith)

buddy_init_example :
    (buddy_calc_header_space 8192 ≡ ok (2 ^ (13 - 11) * 16))
    × (buddy_init header content empty_memory ≡ ok (two_pages, start))
    × IsRef two_pages
    × IsValid two_pages start
    × IsFree two_pages start two_pages.max_pow_order 0
    × ((k p : ℕ) → InRange two_pages k p → ¬ IsUsed two_pages start k p)
buddy_init_example =
    buddy_init_lem header content 13 (omega arith) (omega arith) refl (omega arith) empty_memory
      (omega arith)

pub two_pages-IsRef : IsRef two_pages
two_pages-IsRef = make_ref-IsRef header content 13 (omega arith) (omega arith) refl (omega arith)

pub start-IsValid : IsValid two_pages start
start-IsValid =
    fresh-IsValid header content 13 (omega arith) (omega arith) refl (omega arith) empty_memory
      (omega arith)

buddy_alloc_example :
    Outcome two_pages start (order_of two_pages 4096) (buddy_alloc two_pages 4096 start)
unfolding make_ref
buddy_alloc_example = buddy_alloc_lem 4096 two_pages-IsRef start-IsValid (omega arith) (omega arith)

abbrev top : ℕ
top = two_pages.max_pow_order

root-IsFree : IsFree two_pages start top 0
root-IsFree = buddy_init_example.4

large : two_pages.min_pow_order < top
unfolding make_ref ilog2 round ilog2_start
large = omega arith

-- the slots with the region split in its two pages
abbrev cut : Slots
cut =
    halved two_pages-IsRef start-IsValid top 0 (root-InRange two_pages-IsRef) root-IsFree.0
      root-IsFree.1 large

cut-IsValid : IsValid two_pages cut
cut-IsValid =
    halved-IsValid two_pages-IsRef start-IsValid top 0 (root-InRange two_pages-IsRef) root-IsFree.0
      root-IsFree.1 large

left_in : InRange two_pages (top - 1) 0
left_in = left-InRange two_pages-IsRef top 0 (root-InRange two_pages-IsRef) large

right_in : InRange two_pages (top - 1) 1
right_in = right-InRange two_pages-IsRef top 0 (root-InRange two_pages-IsRef) large

left-IsFree : IsFree two_pages cut (top - 1) 0
left-IsFree =
    halved-IsFree two_pages-IsRef start-IsValid top 0 (root-InRange two_pages-IsRef) root-IsFree.0
      root-IsFree.1 large

right-IsFree : IsFree two_pages cut (top - 1) 1
right-IsFree =
    rw
      (split-right two_pages-IsRef start-IsValid top 0 (root-InRange two_pages-IsRef) root-IsFree.0
        large)
      (refl, refl)

free_whole : (t : SlotType) → t ≡ unused → t ≢ split
free_whole t e s = let bad : unused ≡ split = sym e ∙ s in cc

used_whole : used ≢ split
used_whole e = cc

-- the slots with the first page given out, and with both
abbrev one : Slots
one =
    retyped two_pages-IsRef cut-IsValid (top - 1) 0 left_in left-IsFree.0
      (free_whole _ left-IsFree.1) used used_whole

one-IsValid : IsValid two_pages one
one-IsValid =
    retyped-IsValid two_pages-IsRef cut-IsValid (top - 1) 0 left_in left-IsFree.0
      (free_whole _ left-IsFree.1) used used_whole

left_used : IsUsed two_pages one (top - 1) 0
left_used =
    rw
      (retyped-here two_pages-IsRef cut-IsValid (top - 1) 0 left_in left-IsFree.0
        (free_whole _ left-IsFree.1) used used_whole)
      (left-IsFree.0, refl)

right_still : IsFree two_pages one (top - 1) 1
right_still =
    rw
      (retyped-other two_pages-IsRef cut-IsValid (top - 1) 0 left_in left-IsFree.0
        (free_whole _ left-IsFree.1) used used_whole (top - 1) 1 right_in (λ _ e. omega arith))
      right-IsFree

abbrev both : Slots
both =
    retyped two_pages-IsRef one-IsValid (top - 1) 1 right_in right_still.0
      (free_whole _ right_still.1) used used_whole

both-IsValid : IsValid two_pages both
both-IsValid =
    retyped-IsValid two_pages-IsRef one-IsValid (top - 1) 1 right_in right_still.0
      (free_whole _ right_still.1) used used_whole

both_right : IsUsed two_pages both (top - 1) 1
both_right =
    rw
      (retyped-here two_pages-IsRef one-IsValid (top - 1) 1 right_in right_still.0
        (free_whole _ right_still.1) used used_whole)
      (right_still.0, refl)

both_left : IsUsed two_pages both (top - 1) 0
both_left =
    rw
      (retyped-other two_pages-IsRef one-IsValid (top - 1) 1 right_in right_still.0
        (free_whole _ right_still.1) used used_whole (top - 1) 0 left_in (λ _ e. omega arith))
      left_used

buddy_free_example : Released two_pages both (top - 1) 1 (buddy_free two_pages 1052700 both)
unfolding make_ref ilog2 round ilog2_start
buddy_free_example =
    buddy_free_lem two_pages-IsRef both-IsValid (top - 1) 1 right_in both_right 1052700
      (omega arith) (omega arith) (omega arith)

kfree-kmalloc_example :
    Returned two_pages start (order_of two_pages 4096) (kmalloc_raw two_pages 4096 start)
unfolding make_ref ilog2 round ilog2_start
kfree-kmalloc_example =
    kfree-kmalloc_raw 4096 two_pages-IsRef start-IsValid (omega arith) (omega arith) (omega arith)

abbrev Served : Run (ℕ × Slots) → Type 0
Served res = (ptr : ℕ) × (m : Slots) × (res ≡ ok (ptr, m))

served : (k : ℕ) → k ≤ top → (res : Run (ℕ × Slots)) → Outcome two_pages start k res → Served res
served k h (ok (ptr, m)) t = (ptr, m, refl)
served k h bug t = absurd (t top 0 h (root-InRange two_pages-IsRef) root-IsFree)
served k h running t = absurd t

first : Served (buddy_alloc two_pages 4096 start)
unfolding make_ref
first =
    served (order_of two_pages 4096)
      (order_of_lem 4096 two_pages-IsRef (omega arith) (omega arith)).1
      (buddy_alloc two_pages 4096 start) buddy_alloc_example

-- the slots once a page is given out
abbrev one_page : Slots
one_page = first.1

Reachable-AllApart_example : IsValid two_pages one_page × AllApart two_pages one_page
Reachable-AllApart_example =
    Reachable-AllApart header content 13 (omega arith) (omega arith) refl (omega arith)
      (omega arith) one_page
      (allocated 4096 first.0 start one_page (initialised empty_memory start buddy_init_example.1)
        first.2)
