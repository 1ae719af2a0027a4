-- ===== src/Buddy/Alloc.antt =====
-- `find_free_slot` and `buddy_alloc` of src/kernel/mm/buddy.c.
use almeida_os.Base.{
  ℕ, zero, suc, ◌+◌, Bool, true, false, ◌&&◌, ◌||◌, not, ◌==◌, ltb, if◌then◌else◌, Run, ok, bug,
  running, bug_on, ◌>>◌, Option, none, some,
}
use almeida_os.Word.{u8}
use almeida_os.Maths.{ilog2, clp2}
use almeida_os.Buddy.{
  SlotType, unused, split, used, Slot, Slots, BuddyRef, set_type, goto_porder_idx, n_of_entries,
  is_entry_empty, split_slot, pred8,
}

abbrev pub is_unused : SlotType → Bool
is_unused unused = true
is_unused split = false
is_unused used = false

-- the test of the loop of `find_free_slot`
abbrev pub is_free : Slot → Bool
is_free s = not (is_entry_empty s) && is_unused s.type

-- `rounds` slots are left to look at, from `idx` on.
unfoldable pub scan : Slots → ℕ → ℕ → Option ℕ
scan m zero idx = none
scan m (suc rounds) idx = if is_free (m idx) then some idx else scan m rounds (idx + 1)

unfoldable pub find_free_slot : BuddyRef → Slots → ℕ → Option ℕ
find_free_slot ref m pow_order = scan m (n_of_entries ref pow_order) (goto_porder_idx ref pow_order)

-- `while (true)` of `buddy_alloc`: the address and the slots that it leaves.
unfoldable pub alloc_loop : ℕ → BuddyRef → ℕ → ℕ → Slots → Run (ℕ × Slots)
alloc_loop zero ref k_order tmp_k_order m = running
alloc_loop (suc fuel) ref k_order tmp_k_order m = elim (find_free_slot ref m tmp_k_order) [
  | none ↦ elim (tmp_k_order == ref.max_pow_order) [
    | true ↦ bug
    | false ↦ alloc_loop fuel ref k_order (u8 (tmp_k_order + 1)) m
  ]
  | some idx ↦ elim (ltb k_order (m idx).pow_order) [
    | true ↦ alloc_loop fuel ref k_order (pred8 tmp_k_order) (split_slot ref m idx)
    | false ↦ ok ((m idx).base_addr, set_type m idx used)
  ]
]

-- the order of a request, no less than the smallest
unfoldable pub order_of : BuddyRef → ℕ → ℕ
order_of ref bytes =
    let k_order : ℕ = u8 (ilog2 (clp2 bytes)) in
    if ltb k_order ref.min_pow_order then ref.min_pow_order else k_order

-- An order goes up at most 63 times and down at most 63 times.
abbrev pub alloc_fuel : ℕ
alloc_fuel = 256

unfoldable pub buddy_alloc : BuddyRef → ℕ → Slots → Run (ℕ × Slots)
buddy_alloc ref bytes m = do
  bug_on (bytes == 0 || ltb ref.content_mem_reg.length bytes)
  let k_order : ℕ = order_of ref bytes
  alloc_loop alloc_fuel ref k_order k_order m
