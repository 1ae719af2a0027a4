-- ===== src/Buddy/Split.antt =====
-- `split_slot` of the model, the block "split and insert" of src/kernel/mm/buddy.c: what it
-- writes, and that the header stays a tree of blocks.
use almeida_os.Base.{
  ℕ, ◌+◌, ◌-◌, ◌*◌, ◌/◌, ◌<◌, ◌≡◌, ◌≢◌, refl, sym, ap, ◌∙◌, true, false, ◌==◌, eq→==, arith,
}
use almeida_os.Word.{sub64}
use almeida_os.Word.Bits.{two-pow_pos}
use almeida_os.Buddy.{
  unused, split, Slot, Slots, BuddyRef, write, set_type, split_slot, insert_child_slot, left_half,
  right_half, pred8,
}
use almeida_os.Buddy.Coords.{
  IsRef, InRange, at, at-injective, left-InRange, right-InRange, goto_left_child_lem,
  goto_right_child_lem, upow_two,
}
use almeida_os.Buddy.Valid.{IsLive, IsValid, block_addr, live-base, two-pow_pred, block-le}

pub write_self : (m : Slots) (i : ℕ) (v : Slot) → write m i v i ≡ v
unfolding write
write_self m i v = ground arith

pub write_ne : (m : Slots) (i j : ℕ) (v : Slot) → j ≢ i → write m i v j ≡ m j
unfolding write
write_ne m i j v h = ground arith

module _ {ref : BuddyRef} {m : Slots} (r : IsRef ref) (h : IsValid ref m) (k p : ℕ)
    (v : InRange ref k p) (live : IsLive ref m k p) (big : ref.min_pow_order < k) where
  -- The slots that the two halves go to are not the slot that is split.
  left-ne : at ref (k - 1) (2 * p) ≢ at ref k p
  left-ne e = omega (arith, (at-injective r _ _ _ _ (left-InRange r k p v big) v e).0)

  right-ne : at ref (k - 1) (2 * p + 1) ≢ at ref k p
  right-ne e = omega (arith, (at-injective r _ _ _ _ (right-InRange r k p v big) v e).0)

  with_left : Slots
  with_left = write m (at ref (k - 1) (2 * p)) (left_half (m (at ref k p)))

  insert_left_lem : insert_child_slot ref m (at ref k p) (left_half (m (at ref k p))) ≡ with_left
  unfolding insert_child_slot with_left
  insert_left_lem = rw (same_base, goto_left_child_lem r m k p v live big)
    where
      same_base : ((m (at ref k p)).base_addr == (left_half (m (at ref k p))).base_addr) ≡ true
      same_base = unfold left_half in eq→== _ _ refl

  kept : with_left (at ref k p) ≡ m (at ref k p)
  unfolding with_left
  kept = write_ne m _ _ _ (λ e. left-ne (sym e))

  -- The upper half starts half a block further on, with no wrap.
  half_addr : (right_half (m (at ref k p))).base_addr ≡ block_addr ref (k - 1) (2 * p + 1)
  unfolding right_half
  half_addr =
      let order : sub64 (m (at ref k p)).pow_order 1 ≡ k - 1 =
        omega (arith, live, v.upper, r.small, r.min_positive, big) in
      rw (order, upow_two (k - 1) (omega (arith, v.upper, r.small)), live-base r h k p v live)
        (omega (
          arith,
          r.fits,
          block-le k p v,
          two-pow_pos k,
          two-pow_pos (k - 1),
          two-pow_pred k (omega (arith, r.min_positive, big)),
          ap (λ t. p * t) (two-pow_pred k (omega (arith, r.min_positive, big))),
        ))

  lower_addr : (left_half (m (at ref k p))).base_addr ≡ block_addr ref (k - 1) (2 * p)
  unfolding left_half
  lower_addr =
      rw (live-base r h k p v live)
        (omega (arith, ap (λ t. p * t) (two-pow_pred k (omega (arith, r.min_positive, big)))))

  insert_right_lem :
      insert_child_slot ref with_left (at ref k p) (right_half (m (at ref k p)))
      ≡ write with_left (at ref (k - 1) (2 * p + 1)) (right_half (m (at ref k p)))
  unfolding insert_child_slot
  insert_right_lem = rw (
    other_base,
    goto_right_child_lem r with_left k p v (ap (λ t. Slot.pow_order t) kept ∙ live) big,
  )
    where
      other_base :
          ((with_left (at ref k p)).base_addr == (right_half (m (at ref k p))).base_addr) ≡ false
      other_base =
          rw (kept, half_addr, live-base r h k p v live)
            (ground (
              arith,
              two-pow_pos (k - 1),
              ap (λ t. p * t) (two-pow_pred k (omega (arith, r.min_positive, big))),
            ))

  abbrev pub after : Slots
  after = split_slot ref m (at ref k p)

  both : Slots
  both = write with_left (at ref (k - 1) (2 * p + 1)) (right_half (m (at ref k p)))

  after_lem : after ≡ write both (at ref k p) (record (m (at ref k p)) { type = split })
  unfolding split_slot set_type both
  after_lem =
      rw (insert_left_lem, insert_right_lem)
        (ap (λ s. write both (at ref k p) (record s { type = split }))
          (write_ne with_left _ _ _ (λ e. right-ne (sym e)) ∙ kept))

  abbrev pub child : ℕ → Slot
  child q = record { base_addr = block_addr ref (k - 1) q; pow_order = k - 1; type = unused }

  pub split-here : after (at ref k p) ≡ record (m (at ref k p)) { type = split }
  split-here = ap (λ f. f (at ref k p)) after_lem ∙ write_self both _ _

  order_half : pred8 (m (at ref k p)).pow_order ≡ k - 1
  order_half = omega (arith, live, v.upper, r.small, r.min_positive, big)

  pub split-left : after (at ref (k - 1) (2 * p)) ≡ child (2 * p)
  unfolding both with_left left_half
  split-left =
      ap (λ f. f (at ref (k - 1) (2 * p))) after_lem
      ∙ write_ne both _ _ _ left-ne
      ∙ write_ne with_left _ _ _ apart
      ∙ write_self m _ _
      ∙ λ i. record { base_addr = lower_addr i; pow_order = order_half i; type = unused }
    where
      apart : at ref (k - 1) (2 * p) ≢ at ref (k - 1) (2 * p + 1)
      apart e = omega arith

  pub split-right : after (at ref (k - 1) (2 * p + 1)) ≡ child (2 * p + 1)
  unfolding both right_half
  split-right =
      ap (λ f. f (at ref (k - 1) (2 * p + 1))) after_lem
      ∙ write_ne both _ _ _ right-ne
      ∙ write_self with_left _ _
      ∙ λ i. record { base_addr = half_addr i; pow_order = order_half i; type = unused }

  pub split-other :
      (l q : ℕ)
      → InRange ref l q
      → (l ≡ k → q ≢ p)
      → (l + 1 ≡ k → q / 2 ≢ p)
      → after (at ref l q) ≡ m (at ref l q)
  unfolding both with_left
  split-other l q w a b =
      ap (λ f. f (at ref l q)) after_lem
      ∙ write_ne both _ _ _ (λ e. let (x, y) = at-injective r _ _ _ _ w v e in a x y)
      ∙ write_ne with_left _ _ _ (λ e.
        let (x, y) = at-injective r _ _ _ _ w (right-InRange r k p v big) e in
        b (omega arith) (omega arith))
      ∙ write_ne m _ _ _ (λ e.
        let (x, y) = at-injective r _ _ _ _ w (left-InRange r k p v big) e in
        b (omega arith) (omega arith))
