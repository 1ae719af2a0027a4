-- ===== src/Buddy.antt =====
-- src/kernel/mm/buddy.c and include/kernel/mm/buddy.h: the slots of the header and the moves
-- between them. A `buddy_slot_t *` is the number of the slot, counted from the header's base address
-- in units of `sizeof(buddy_slot_t)`; the header's memory is the function from numbers to slots.
pub mod Coords
pub mod Valid
pub mod Split
pub mod SplitValid
pub mod Retype
pub mod Search
pub mod AllocLaws
pub mod Disjoint
pub mod Merge
pub mod MergeValid
pub mod Find
pub mod FreeLaws
pub mod Release
pub mod Init
pub mod Promise
pub mod Cycle
pub mod Reach
pub mod Alloc
pub mod Free
pub mod Reserve
use almeida_os.Base.{
  ℕ, zero, suc, ◌+◌, ◌-◌, ◌*◌, ◌/◌, ◌%◌, Bool, ◌&&◌, ◌||◌, not, ◌==◌, ltb, if◌then◌else◌, Run, ok,
  bug_on, ◌>>=◌, ◌>>◌,
}
use almeida_os.Word.{u8, add64, sub64, mul64}
use almeida_os.Maths.{upow, ilog2, flp2}
use almeida_os.MemMap.{Region}

-- `slot_type_t`
pub data SlotType : Type 0 where
  unused split used : SlotType

-- `buddy_slot_t`
pub record Slot : Type 0 where
  pub base_addr : ℕ
  pub pow_order : ℕ
  pub type : SlotType

abbrev pub Slots : Type 0
Slots = ℕ → Slot

-- `buddy_ref_t`
pub record BuddyRef : Type 0 where
  pub header_mem_reg : Region
  pub content_mem_reg : Region
  pub max_pow_order : ℕ
  pub min_pow_order : ℕ

-- BUDDY_ALLOC_SMALLEST_BLOCK
abbrev pub smallest_block : ℕ
smallest_block = 4096

-- sizeof(buddy_slot_t): eight bytes, one, and an enumeration at the next multiple of four
abbrev pub slot_size : ℕ
slot_size = 16

-- a slot of zero bytes; UNUSED is 0
abbrev pub zero_slot : Slot
zero_slot = record { base_addr = 0; pow_order = 0; type = unused }

-- `*ptr = v`
unfoldable pub write : Slots → ℕ → Slot → Slots
write m i v j = if j == i then v else m j

-- `ptr->type = t`
unfoldable pub set_type : Slots → ℕ → SlotType → Slots
unfolding write
set_type m i t = write m i (record (m i) { type = t })

-- `pow_order - 1`, stored in a byte
abbrev pub pred8 : ℕ → ℕ
pred8 k = u8 (k + 255)

unfoldable pub buddy_calc_header_space : ℕ → Run ℕ
buddy_calc_header_space mem_space = do
  bug_on (not (mem_space == flp2 mem_space))
  let max_k : ℕ = ilog2 mem_space
  let min_k : ℕ = ilog2 smallest_block
  ok (mul64 (upow 2 (add64 (sub64 max_k min_k) 1)) slot_size)

-- the first slot of an order, as a slot number
unfoldable pub goto_porder_idx : BuddyRef → ℕ → ℕ
goto_porder_idx ref pow_order =
    sub64 (upow 2 (sub64 ref.max_pow_order (sub64 ref.min_pow_order 1)))
      (upow 2 (add64 (sub64 ref.max_pow_order pow_order) 1))

-- `arr_pos`: the place of a slot among those of its order
abbrev pub arr_pos : BuddyRef → Slots → ℕ → ℕ
arr_pos ref m i = sub64 i (goto_porder_idx ref (m i).pow_order)

-- The result of the call of `clear_bit` is discarded, so it has no effect.
unfoldable pub goto_parent : BuddyRef → Slots → ℕ → ℕ
goto_parent ref m child =
    goto_porder_idx ref (u8 ((m child).pow_order + 1)) + arr_pos ref m child / 2

unfoldable pub goto_left_child : BuddyRef → Slots → ℕ → ℕ
goto_left_child ref m parent =
    goto_porder_idx ref (pred8 (m parent).pow_order) + arr_pos ref m parent * 2

unfoldable pub goto_right_child : BuddyRef → Slots → ℕ → ℕ
goto_right_child ref m parent =
    goto_porder_idx ref (pred8 (m parent).pow_order) + arr_pos ref m parent * 2 + 1

unfoldable pub goto_sibling : BuddyRef → Slots → ℕ → ℕ
goto_sibling ref m node = if arr_pos ref m node % 2 == 0 then node + 1 else node - 1

unfoldable pub n_of_entries : BuddyRef → ℕ → ℕ
n_of_entries ref pow_order = upow 2 ref.max_pow_order / upow 2 pow_order

abbrev pub is_entry_empty : Slot → Bool
is_entry_empty idx = idx.base_addr == 0 && idx.pow_order == 0

-- `memzero` over the header: the slots that lie in it whole become zero.
unfoldable pub zero_header : Slots → ℕ → Slots
zero_header m bytes i = if ltb i (bytes / slot_size) then zero_slot else m i

unfoldable pub make_ref : Region → Region → BuddyRef
make_ref h_mem_reg c_mem_reg = record {
  header_mem_reg = h_mem_reg;
  content_mem_reg = c_mem_reg;
  max_pow_order = u8 (ilog2 c_mem_reg.length);
  min_pow_order = u8 (ilog2 smallest_block);
}

unfoldable pub buddy_init : Region → Region → Slots → Run (BuddyRef × Slots)
unfolding make_ref zero_header write
buddy_init h_mem_reg c_mem_reg m = do
  bug_on (not (c_mem_reg.length == flp2 c_mem_reg.length))
  let ref : BuddyRef = make_ref h_mem_reg c_mem_reg
  ok (
    ref,
    write (zero_header m h_mem_reg.length) (goto_porder_idx ref ref.max_pow_order)
        (record { base_addr = c_mem_reg.base_addr; pow_order = ref.max_pow_order; type = unused }),
  )

-- a slot of half the size, the left one or the right one
unfoldable pub left_half : Slot → Slot
left_half s = record { base_addr = s.base_addr; pow_order = pred8 s.pow_order; type = unused }

unfoldable pub right_half : Slot → Slot
right_half s = record {
  base_addr = add64 s.base_addr (upow 2 (sub64 s.pow_order 1));
  pow_order = pred8 s.pow_order;
  type = unused;
}

unfoldable pub insert_child_slot : BuddyRef → Slots → ℕ → Slot → Slots
insert_child_slot ref m parent child =
    write m
      (if (m parent).base_addr == child.base_addr
        then goto_left_child ref m parent
        else goto_right_child ref m parent)
      child

-- The block "split and insert" that `buddy_alloc` and `buddy_pre_alloc` share.
unfoldable pub split_slot : BuddyRef → Slots → ℕ → Slots
split_slot ref m idx =
    let s : Slot = m idx in
    let with_left : Slots = insert_child_slot ref m idx (left_half s) in
    let with_both : Slots = insert_child_slot ref with_left idx (right_half s) in
    set_type with_both idx split
