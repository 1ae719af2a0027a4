-- ===== src/Buddy/Coords.antt =====
-- The layout of the header of src/kernel/mm/buddy.c: the slot of order `k` and place `p`, and where
-- the moves between slots lead.
use native.Mathlib.Nat.{pow-le-pow_right, mod-eq_of_lt, mul-div_cancel}
use native.Mathlib.Decide.{dec_lt}
use almeida_os.Base.{
  ℕ, suc, ◌+◌, ◌-◌, ◌*◌, ◌/◌, ◌%◌, ◌^◌, ◌≤◌, ◌<◌, ◌≡◌, refl, ap, ◌∙◌, ◌==◌, if◌then◌else◌, arith,
}
use almeida_os.Word.{u8, add64, sub64}
use almeida_os.Word.Bits.{two-pow-lt, two-pow_suc, two-pow_pos, two-pow_add}
use almeida_os.Maths.{upow}
use almeida_os.Maths.Power.{upow_lem}
use almeida_os.Buddy.{
  Slots, BuddyRef, pred8, arr_pos, goto_porder_idx, goto_parent, goto_left_child, goto_right_child,
  goto_sibling, n_of_entries,
}

-- What `buddy_init` sets up: at least two orders' worth of room in a byte, and no address that wraps.
pub record IsRef (ref : BuddyRef) : Type 0 where
  pub min_positive : 0 < ref.min_pow_order
  pub ordered : ref.min_pow_order ≤ ref.max_pow_order
  pub small : ref.max_pow_order < 64
  pub extent : ref.content_mem_reg.length ≡ 2 ^ ref.max_pow_order
  pub fits : ref.content_mem_reg.base_addr + 2 ^ ref.max_pow_order ≤ 2 ^ 64

-- the coordinates of a slot: an order of the allocator and a place in it
pub record InRange (ref : BuddyRef) (k p : ℕ) : Type 0 where
  pub lower : ref.min_pow_order ≤ k
  pub upper : k ≤ ref.max_pow_order
  pub place : p < 2 ^ (ref.max_pow_order - k)

-- the slot at given coordinates
abbrev pub at : BuddyRef → ℕ → ℕ → ℕ
at ref k p = goto_porder_idx ref k + p

-- the other child of the same parent
abbrev pub buddy : ℕ → ℕ
buddy p = if p % 2 == 0 then p + 1 else p - 1

pub upow_two : (n : ℕ) → n < 64 → upow 2 n ≡ 2 ^ n
upow_two n h = upow_lem 2 n (omega arith) ∙ mod-eq_of_lt (two-pow-lt n 64 h)

module _ {ref : BuddyRef} (r : IsRef ref) where
  open r use {min_positive, ordered, small, fits}

  -- Each order takes twice the slots of the next one, up to the root's single slot.
  pub porder_idx :
      (k : ℕ)
      → ref.min_pow_order ≤ k
      → k ≤ ref.max_pow_order
      → goto_porder_idx ref k + 2 * 2 ^ (ref.max_pow_order - k)
        ≡ 2 * 2 ^ (ref.max_pow_order - ref.min_pow_order)
  unfolding goto_porder_idx
  porder_idx k a b =
      let total : sub64 ref.max_pow_order (sub64 ref.min_pow_order 1)
          ≡ suc (ref.max_pow_order - ref.min_pow_order) =
        omega arith in
      let above : add64 (sub64 ref.max_pow_order k) 1 ≡ suc (ref.max_pow_order - k) = omega arith in
      rw
        (
          total,
          above,
          upow_two (suc (ref.max_pow_order - ref.min_pow_order)) (omega arith),
          upow_two (suc (ref.max_pow_order - k)) (omega arith),
          two-pow_suc (ref.max_pow_order - ref.min_pow_order),
          two-pow_suc (ref.max_pow_order - k),
        )
        (omega (
          arith,
          pow-le-pow_right {n = 2} (omega arith) {i = ref.max_pow_order - k}
              {j = ref.max_pow_order - ref.min_pow_order} (omega arith),
          two-pow-lt (suc (ref.max_pow_order - ref.min_pow_order)) 64 (omega arith),
          two-pow_suc (ref.max_pow_order - ref.min_pow_order),
          two-pow_pos (ref.max_pow_order - k),
        ))

  -- The span of an order in powers of two, one order up.
  span-suc :
      (k : ℕ)
      → k < ref.max_pow_order
      → 2 ^ (ref.max_pow_order - k) ≡ 2 * 2 ^ (ref.max_pow_order - (k + 1))
  span-suc k h =
      let e : ref.max_pow_order - k ≡ suc (ref.max_pow_order - (k + 1)) = omega arith in
      ap (λ t. 2 ^ t) e ∙ two-pow_suc (ref.max_pow_order - (k + 1))

  pub at-below :
      (k p l : ℕ)
      → InRange ref k p
      → k < l
      → l ≤ ref.max_pow_order
      → at ref k p < goto_porder_idx ref l
  at-below k p l v a b = omega (
    arith,
    porder_idx k v.lower v.upper,
    porder_idx l (omega (arith, v.lower)) b,
    span-suc k (omega arith),
    v.place,
    pow-le-pow_right {n = 2} (omega arith) {i = ref.max_pow_order - l}
        {j = ref.max_pow_order - (k + 1)} (omega arith),
  )

  -- Different coordinates are different slots.
  pub at-injective :
      (k p l q : ℕ)
      → InRange ref k p
      → InRange ref l q
      → at ref k p ≡ at ref l q
      → (k ≡ l) × (p ≡ q)
  at-injective k p l q v w e = elim (dec_lt k l) [
    | yes a ↦ absurd (omega (arith, at-below k p l v a w.upper))
    | no a ↦ elim (dec_lt l k) [
      | yes b ↦ absurd (omega (arith, at-below l q k w b v.upper))
      | no b ↦
          let same : k ≡ l = omega arith in (same, omega (arith, ap (goto_porder_idx ref) same))
    ]
  ]

  at-lt : (k p : ℕ) → InRange ref k p → at ref k p < 2 ^ 64
  at-lt k p v = omega (
    arith,
    porder_idx k v.lower v.upper,
    v.place,
    two-pow-lt (suc (ref.max_pow_order - ref.min_pow_order)) 64 (omega arith),
    two-pow_suc (ref.max_pow_order - ref.min_pow_order),
  )

  pub arr_pos-at :
      (m : Slots) (k p : ℕ)
      → InRange ref k p
      → (m (at ref k p)).pow_order ≡ k
      → arr_pos ref m (at ref k p) ≡ p
  arr_pos-at m k p v live = rw live (omega (arith, at-lt k p v))

  pub root-InRange : InRange ref ref.max_pow_order 0
  root-InRange = record {
    lower = ordered;
    upper = omega arith;
    place = let e : ref.max_pow_order - ref.max_pow_order ≡ 0 = omega arith in rw e (omega arith);
  }

  pub left-InRange :
      (k p : ℕ) → InRange ref k p → ref.min_pow_order < k → InRange ref (k - 1) (2 * p)
  left-InRange k p v h = record {
    lower = omega arith;
    upper = omega (arith, v.upper);
    place =
        let e : k - 1 + 1 ≡ k = omega arith in
        omega (
          arith,
          v.place,
          span-suc (k - 1) (omega (arith, v.upper)),
          ap (λ t. 2 ^ (ref.max_pow_order - t)) e,
        );
  }

  pub right-InRange :
      (k p : ℕ) → InRange ref k p → ref.min_pow_order < k → InRange ref (k - 1) (2 * p + 1)
  right-InRange k p v h = record {
    lower = omega arith;
    upper = omega (arith, v.upper);
    place =
        let e : k - 1 + 1 ≡ k = omega arith in
        omega (
          arith,
          v.place,
          span-suc (k - 1) (omega (arith, v.upper)),
          ap (λ t. 2 ^ (ref.max_pow_order - t)) e,
        );
  }

  pub parent-InRange :
      (k p : ℕ) → InRange ref k p → k < ref.max_pow_order → InRange ref (k + 1) (p / 2)
  parent-InRange k p v h = record {
    lower = omega (arith, v.lower);
    upper = omega arith;
    place = omega (arith, v.place, span-suc k h);
  }

  pub buddy-InRange : (k p : ℕ) → InRange ref k p → k < ref.max_pow_order → InRange ref k (buddy p)
  buddy-InRange k p v h = record {
    lower = v.lower;
    upper = v.upper;
    place = ground (arith, v.place, span-suc k h);
  }

  -- Where the moves lead, from a slot that holds its own order.
  module _ (m : Slots) (k p : ℕ) (v : InRange ref k p) (live : (m (at ref k p)).pow_order ≡ k) where
    pub goto_left_child_lem :
        ref.min_pow_order < k → goto_left_child ref m (at ref k p) ≡ at ref (k - 1) (2 * p)
    unfolding goto_left_child
    goto_left_child_lem h =
        let order : pred8 k ≡ k - 1 = omega (arith, v.upper) in
        rw (arr_pos-at m k p v live, live, order) (omega arith)

    pub goto_right_child_lem :
        ref.min_pow_order < k → goto_right_child ref m (at ref k p) ≡ at ref (k - 1) (2 * p + 1)
    unfolding goto_right_child
    goto_right_child_lem h =
        let order : pred8 k ≡ k - 1 = omega (arith, v.upper) in
        rw (arr_pos-at m k p v live, live, order) (omega arith)

    pub goto_parent_lem :
        k < ref.max_pow_order → goto_parent ref m (at ref k p) ≡ at ref (k + 1) (p / 2)
    unfolding goto_parent
    goto_parent_lem h =
        let order : u8 (k + 1) ≡ k + 1 = omega (arith, v.upper) in
        rw (arr_pos-at m k p v live, live, order) refl

    pub goto_sibling_lem : goto_sibling ref m (at ref k p) ≡ at ref k (buddy p)
    unfolding goto_sibling
    goto_sibling_lem = rw (arr_pos-at m k p v live) (ground arith)

  pub n_of_entries_lem :
      (k : ℕ) → k ≤ ref.max_pow_order → n_of_entries ref k ≡ 2 ^ (ref.max_pow_order - k)
  unfolding n_of_entries
  n_of_entries_lem k h =
      let total : ref.max_pow_order ≡ ref.max_pow_order - k + k = omega arith in
      rw (upow_two ref.max_pow_order small, upow_two k (omega arith))
        (ap (λ t. 2 ^ t / 2 ^ k) total
          ∙ ap (λ t. t / 2 ^ k) (two-pow_add (ref.max_pow_order - k) k)
          ∙ mul-div_cancel _ (two-pow_pos k))
