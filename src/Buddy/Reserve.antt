-- ===== src/Buddy/Reserve.antt =====
-- `buddy_pre_alloc` of src/kernel/mm/buddy.c: marking a given range as used.
use almeida_os.Base.{
  ℕ, zero, suc, Bool, true, false, ◌&&◌, ◌||◌, ◌==◌, ltb, leb, if◌then◌else◌, Run, ok, bug, running,
  bug_on, ◌>>=◌, ◌>>◌,
}
use almeida_os.Word.{u8, add64, sub64}
use almeida_os.Maths.{upow, ilog2, clp2, flp2, round_up_po2}
use almeida_os.Buddy.{
  unused, split, used, Slot, Slots, BuddyRef, set_type, goto_porder_idx, goto_left_child,
  goto_right_child, split_slot, smallest_block,
}
use almeida_os.Buddy.Alloc.{is_unused}

-- How the walk ends: the range is marked, or it straddles the middle of the slot `idx`.
pub data Walk : Type 0 where
  marked : Slots → Walk
  overlap : ℕ → Slots → Walk

abbrev pub half_length : Slot → ℕ
half_length s = upow 2 (sub64 s.pow_order 1)

-- Is the range within the block of the slot?
unfoldable pub within : Slot → ℕ → ℕ → Bool
within s base_addr length =
    leb s.base_addr base_addr
    && leb (add64 base_addr length) (add64 s.base_addr (upow 2 s.pow_order))

-- Which half the range lies in, or neither.
pub data Side : Type 0 where
  left right neither : Side

unfoldable pub side : Slot → ℕ → ℕ → Side
side s base_addr length =
    if leb (add64 base_addr length) (add64 s.base_addr (half_length s))
    then left
    else if leb (add64 s.base_addr (half_length s)) base_addr
    then right
    else neither

-- The inner `while (true)`. A round that takes no branch changes nothing and is made again.
unfoldable pub walk : ℕ → BuddyRef → ℕ → ℕ → ℕ → ℕ → Slots → Run Walk
walk zero ref k_order base_addr length idx m = running
walk (suc fuel) ref k_order base_addr length idx m = elim (within (m idx) base_addr length) [
  | false ↦ walk fuel ref k_order base_addr length idx m
  | true ↦ elim (ltb k_order (m idx).pow_order) [
    | true ↦ elim (m idx).type [
      | used ↦ ok (marked m)
      | unused ↦
          let m' : Slots = split_slot ref m idx in
          elim (side (m' idx) base_addr length) [
            | left ↦ walk fuel ref k_order base_addr length (goto_left_child ref m' idx) m'
            | right ↦ walk fuel ref k_order base_addr length (goto_right_child ref m' idx) m'
            | neither ↦ ok (overlap idx m')
          ]
      | split ↦ elim (side (m idx) base_addr length) [
        | left ↦ walk fuel ref k_order base_addr length (goto_left_child ref m idx) m
        | right ↦ walk fuel ref k_order base_addr length (goto_right_child ref m idx) m
        | neither ↦ ok (overlap idx m)
      ]
    ]
    | false ↦ elim ((m idx).pow_order == k_order) [
      | false ↦ walk fuel ref k_order base_addr length idx m
      | true ↦ elim (is_unused (m idx).type) [
        | true ↦ ok (marked (set_type m idx used))
        | false ↦ bug
      ]
    ]
  ]
]

-- The order of a rounded length, no less than the smallest.
unfoldable pub reserve_order : BuddyRef → ℕ → ℕ
reserve_order ref length =
    let k_order : ℕ = u8 (ilog2 length) in
    if ltb k_order ref.min_pow_order then ref.min_pow_order else k_order

-- Fuel counts the depth of the recursion; the walk of each call has its own.
abbrev pub walk_fuel : ℕ
walk_fuel = 256

unfoldable pub buddy_pre_alloc : ℕ → BuddyRef → ℕ → ℕ → Slots → Run Slots
buddy_pre_alloc zero ref base_addr length m = running
buddy_pre_alloc (suc fuel) ref base_addr length m =
    bug_on (
      length == 0
      || ltb ref.content_mem_reg.length length
      || ltb base_addr ref.content_mem_reg.base_addr)
    >> (let rounded : ℕ = round_up_po2 length smallest_block in
        elim (rounded == clp2 rounded) [
          | false ↦
              let first : ℕ = flp2 rounded in
              buddy_pre_alloc fuel ref base_addr first m >>= λ m'.
              buddy_pre_alloc fuel ref (add64 base_addr first) (sub64 rounded first) m'
          | true ↦
              walk walk_fuel ref (reserve_order ref rounded) base_addr rounded
                (goto_porder_idx ref ref.max_pow_order) m
              >>= (elim [
                | marked m' ↦ ok m'
                | overlap idx m' ↦
                    let middle : ℕ = add64 (m' idx).base_addr (half_length (m' idx)) in
                    buddy_pre_alloc fuel ref base_addr (sub64 middle base_addr) m' >>= λ m''.
                    buddy_pre_alloc fuel ref middle (sub64 (add64 base_addr rounded) middle) m''
              ])
        ])
