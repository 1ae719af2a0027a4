-- ===== src/Buddy/Init.antt =====
-- `buddy_init` of src/kernel/mm/buddy.c, over the space that `buddy_calc_header_space` asks for.
use native.Mathlib.Decide.{dec_lt}
use almeida_os.Base.{
  ℕ, suc, ◌+◌, ◌-◌, ◌*◌, ◌/◌, ◌^◌, ◌≤◌, ◌<◌, ◌≡◌, ◌≢◌, refl, sym, ap, ap₂, ◌∙◌, ◌⊎◌, inl, inr, true,
  ◌==◌, eq→==, lt→ltb, subst, ok, arith,
}
use almeida_os.Word.{add64, sub64}
use almeida_os.Word.Bits.{two-pow-lt, two-pow_suc, two-pow_pos}
use almeida_os.Maths.{ilog2, flp2}
use almeida_os.Maths.Smear.{flp2_lem}
use almeida_os.MemMap.{Region}
use almeida_os.Buddy.{
  unused, split, used, Slot, Slots, BuddyRef, zero_slot, zero_header, write, make_ref,
  goto_porder_idx, buddy_init, buddy_calc_header_space, smallest_block,
}
use almeida_os.Buddy.Coords.{IsRef, InRange, at, at-below, upow_two, porder_idx}
use almeida_os.Buddy.Valid.{IsValid, IsFree, IsUsed, block_addr}
use almeida_os.Buddy.Split.{write_self, write_ne}
use almeida_os.Buddy.Promise.{ilog2_pow}

flp2_pow : (n : ℕ) → n < 64 → flp2 (2 ^ n) ≡ 2 ^ n
flp2_pow n h = flp2_lem n (2 ^ n) h (omega arith) (omega (arith, two-pow_suc n, two-pow_pos n))

smallest_order : ilog2 smallest_block ≡ 12
smallest_order = ilog2_pow 12 (omega arith)

module _ (header content : Region) (n : ℕ) (low : 12 ≤ n) (high : n < 64)
    (extent : content.length ≡ 2 ^ n) (fits : content.base_addr + 2 ^ n ≤ 2 ^ 64) where
  abbrev ref : BuddyRef
  ref = make_ref header content

  max_order : ref.max_pow_order ≡ n
  unfolding make_ref
  max_order = rw (extent, ilog2_pow n high) (omega arith)

  min_order : ref.min_pow_order ≡ 12
  unfolding make_ref
  min_order = rw smallest_order refl

  pub make_ref-IsRef : IsRef ref
  unfolding make_ref
  make_ref-IsRef = record {
    min_positive = omega (arith, min_order);
    ordered = omega (arith, min_order, max_order);
    small = omega (arith, max_order);
    extent = extent ∙ ap (λ t. 2 ^ t) (sym max_order);
    fits = subst (λ t. content.base_addr + 2 ^ t ≤ 2 ^ 64) (sym max_order) fits;
  }

  -- The header's slots end where `buddy_calc_header_space` says.
  pub header_space : buddy_calc_header_space content.length ≡ ok (2 ^ (n - 11) * 16)
  unfolding buddy_calc_header_space
  header_space =
      let orders : add64 (sub64 n 12) 1 ≡ n - 11 = omega arith in
      let accepted : (2 ^ n == 2 ^ n) ≡ true = eq→== _ _ refl in
      rw
        (
          extent,
          flp2_pow n high,
          accepted,
          ilog2_pow n high,
          smallest_order,
          orders,
          upow_two (n - 11) (omega arith),
        )
        (ap (λ t. ok t) (omega (arith, two-pow-lt (n - 11) 53 (omega arith))))

  module _ (m : Slots) (space : 2 ^ (n - 11) * 16 ≤ header.length) where
    abbrev zeroed : Slots
    zeroed = zero_header m header.length

    abbrev whole : Slot
    whole = record { base_addr = content.base_addr; pow_order = ref.max_pow_order; type = unused }

    abbrev pub fresh : Slots
    fresh = write zeroed (goto_porder_idx ref ref.max_pow_order) whole

    init_run : buddy_init header content m ≡ ok (ref, fresh)
    unfolding buddy_init
    init_run =
        let accepted : (2 ^ n == 2 ^ n) ≡ true = eq→== _ _ refl in
        rw (extent, flp2_pow n high, accepted) refl

    at_root : at ref ref.max_pow_order 0 ≡ goto_porder_idx ref ref.max_pow_order
    at_root = omega arith

    root_slot : fresh (at ref ref.max_pow_order 0) ≡ whole
    root_slot = ap fresh at_root ∙ write_self zeroed _ whole

    inside : (k p : ℕ) → InRange ref k p → at ref k p < header.length / 16
    inside k p v =
        let span : 2 ^ (n - 11) ≡ 2 * 2 ^ (n - 12) =
          let e : n - 11 ≡ suc (n - 12) = omega arith in ap (λ t. 2 ^ t) e ∙ two-pow_suc (n - 12) in
        let orders : ref.max_pow_order - ref.min_pow_order ≡ n - 12 =
          omega (arith, max_order, min_order) in
        omega (
          arith,
          porder_idx make_ref-IsRef k v.lower v.upper,
          ap (λ t. 2 ^ t) orders,
          span,
          v.place,
          space,
        )

    other_slot :
        (k p : ℕ) → InRange ref k p → k < ref.max_pow_order → fresh (at ref k p) ≡ zero_slot
    unfolding zero_header
    other_slot k p v less =
        write_ne zeroed _ _ whole
          (λ e. omega (arith, at-below make_ref-IsRef k p ref.max_pow_order v less (omega arith)))
        ∙ (rw (lt→ltb _ _ (inside k p v)) refl)

    by_order :
        (k p : ℕ)
        → InRange ref k p
        → ((k ≡ ref.max_pow_order) × (p ≡ 0) × (fresh (at ref k p) ≡ whole))
          ⊎ ((k < ref.max_pow_order) × (fresh (at ref k p) ≡ zero_slot))
    by_order k p v = elim (dec_lt k ref.max_pow_order) [
      | yes less ↦ inr (less, other_slot k p v less)
      | no top ↦
          let order : k ≡ ref.max_pow_order = omega (arith, v.upper) in
          let e : ref.max_pow_order - k ≡ 0 = omega arith in
          let place : p ≡ 0 = omega (arith, v.place, ap (λ t. 2 ^ t) e) in
          inl (order, place, ap₂ (λ x y. fresh (at ref x y)) order place ∙ root_slot)
    ]

    all_unused : (k p : ℕ) → InRange ref k p → (fresh (at ref k p)).type ≡ unused
    all_unused k p v = elim (by_order k p v) [
      | inl (_, _, e) ↦ ap (λ s. Slot.type s) e
      | inr (_, e) ↦ ap (λ s. Slot.type s) e
    ]

    not_split : (k p : ℕ) → InRange ref k p → (fresh (at ref k p)).type ≢ split
    not_split k p v e = let bad : unused ≡ split = sym (all_unused k p v) ∙ e in cc

    root_base : content.base_addr ≡ block_addr ref ref.max_pow_order 0
    unfolding make_ref
    root_base = omega arith

    pub fresh-IsValid : IsValid ref fresh
    fresh-IsValid = record {
      root = ap (λ s. Slot.pow_order s) root_slot;
      shape = λ k p v. elim (by_order k p v) [
        | inl (a, b, e) ↦ inl (
          ap (λ s. Slot.pow_order s) e ∙ sym a,
          ap (λ s. Slot.base_addr s) e
              ∙ root_base
              ∙ ap₂ (λ x y. block_addr ref x y) (sym a) (sym b),
        )
        | inr (_, e) ↦ inr e
      ];
      above = λ k p v less live. absurd (
          omega
            (arith, ap (λ s. Slot.pow_order s) (other_slot k p v less), live, v.lower, min_order));
      below = λ k p v _ _ e. absurd (not_split k p v e);
      floor = λ p v. not_split ref.min_pow_order p v;
    }

    -- For a region of `2 ^ n` bytes with `n` from 12 to 63 that does not wrap, and a header of at least
    -- the space that `buddy_calc_header_space` asks for, `buddy_init` makes an allocator that has given
    -- out nothing and whose whole region is one free block.
    pub buddy_init_lem :
        (buddy_calc_header_space content.length ≡ ok (2 ^ (n - 11) * 16))
        × (buddy_init header content m ≡ ok (ref, fresh))
        × IsRef ref
        × IsValid ref fresh
        × IsFree ref fresh ref.max_pow_order 0
        × ((k p : ℕ) → InRange ref k p → ¬ IsUsed ref fresh k p)
    buddy_init_lem = (
      header_space,
      init_run,
      make_ref-IsRef,
      fresh-IsValid,
      (ap (λ s. Slot.pow_order s) root_slot, ap (λ s. Slot.type s) root_slot),
      λ k p v u. let bad : unused ≡ used = sym (all_unused k p v) ∙ u.1 in cc,
    )
