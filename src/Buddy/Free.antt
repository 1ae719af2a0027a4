-- ===== src/Buddy/Free.antt =====
-- `find_slot_by_addr` and `buddy_free` of src/kernel/mm/buddy.c.
use almeida_os.Base.{
  ℕ, zero, suc, ◌/◌, Bool, true, false, ◌&&◌, ◌==◌, ltb, leb, Run, ok, bug, running, bug_on, ◌>>=◌,
  ◌>>◌,
}
use almeida_os.Word.{add64, sub64}
use almeida_os.Maths.{upow}
use almeida_os.Buddy.{
  unused, split, used, Slot, Slots, BuddyRef, write, set_type, zero_slot, goto_porder_idx,
  goto_parent, goto_left_child, goto_right_child, goto_sibling,
}
use almeida_os.Buddy.Alloc.{is_unused}

-- Does the address lie in the lower half of the slot's block?
unfoldable pub in_lower_half : Slot → ℕ → Bool
in_lower_half s ptr =
    leb s.base_addr ptr && leb ptr (sub64 (add64 s.base_addr (upow 2 s.pow_order / 2)) 1)

-- The walk down from `idx`. Leaving the loop without a slot is the BUG_ON below it.
unfoldable pub find_loop : ℕ → BuddyRef → Slots → ℕ → ℕ → Run ℕ
find_loop zero ref m ptr idx = running
find_loop (suc fuel) ref m ptr idx = elim (ltb (m idx).pow_order ref.min_pow_order) [
  | true ↦ bug
  | false ↦ elim (m idx).type [
    | unused ↦ bug
    | used ↦ ok idx
    | split ↦ elim (in_lower_half (m idx) ptr) [
      | true ↦ find_loop fuel ref m ptr (goto_left_child ref m idx)
      | false ↦ find_loop fuel ref m ptr (goto_right_child ref m idx)
    ]
  ]
]

-- The order falls at each step, and is a byte.
abbrev pub find_fuel : ℕ
find_fuel = 256

unfoldable pub find_slot_by_addr : BuddyRef → Slots → ℕ → Run ℕ
find_slot_by_addr ref m ptr = find_loop find_fuel ref m ptr (goto_porder_idx ref ref.max_pow_order)

-- One merge: the parent becomes unused, and both halves become zero.
unfoldable pub merge_slots : Slots → ℕ → ℕ → ℕ → Slots
merge_slots m large_slot ptr_slot sibling_slot =
    write (write (set_type m large_slot unused) ptr_slot zero_slot) sibling_slot zero_slot

-- the loop that merges a free slot with its buddy
unfoldable pub merge_loop : ℕ → BuddyRef → ℕ → Slots → Run Slots
merge_loop zero ref ptr_slot m = running
merge_loop (suc fuel) ref ptr_slot m = elim (ltb (m ptr_slot).pow_order ref.max_pow_order) [
  | false ↦ ok m
  | true ↦ elim (is_unused (m (goto_sibling ref m ptr_slot)).type) [
    | false ↦ ok m
    | true ↦
        merge_loop fuel ref (goto_parent ref m ptr_slot)
          (merge_slots m (goto_parent ref m ptr_slot) ptr_slot (goto_sibling ref m ptr_slot))
  ]
]

-- The order grows at each step, and is a byte.
abbrev pub merge_fuel : ℕ
merge_fuel = 256

unfoldable pub buddy_free : BuddyRef → ℕ → Slots → Run Slots
buddy_free ref ptr m = do
  bug_on (ptr == 0)
  ptr_slot ← find_slot_by_addr ref m ptr
  merge_loop merge_fuel ref ptr_slot (set_type m ptr_slot unused)
