-- ===== src/Buddy/Retype.antt =====
-- Marking a slot of src/kernel/mm/buddy.c as used, or as unused again, keeps the tree of blocks.
use almeida_os.Base.{ℕ, ◌+◌, ◌-◌, ◌*◌, ◌/◌, ◌<◌, ◌≡◌, ◌≢◌, sym, ap, ap₂, ◌∙◌, ◌⊎◌, inl, inr, arith}
use native.Mathlib.Decide.{ℕ_discrete}
use almeida_os.Buddy.{SlotType, split, Slot, Slots, BuddyRef, zero_slot, set_type}
use almeida_os.Buddy.Coords.{
  IsRef, InRange, at, at-injective, parent-InRange, left-InRange, right-InRange, root-InRange,
}
use almeida_os.Buddy.Valid.{IsLive, IsValid, block_addr, live-base}
use almeida_os.Buddy.Split.{write_self, write_ne}

module _ {ref : BuddyRef} {m : Slots} (r : IsRef ref) (h : IsValid ref m) (k p : ℕ)
    (v : InRange ref k p) (live : IsLive ref m k p) (whole : (m (at ref k p)).type ≢ split)
    (t : SlotType) (whole' : t ≢ split) where
  abbrev pub retyped : Slots
  retyped = set_type m (at ref k p) t

  pub retyped-here : retyped (at ref k p) ≡ record (m (at ref k p)) { type = t }
  unfolding set_type
  retyped-here = write_self m _ _

  pub retyped-other :
      (l q : ℕ) → InRange ref l q → (l ≡ k → q ≢ p) → retyped (at ref l q) ≡ m (at ref l q)
  unfolding set_type
  retyped-other l q w a = write_ne m _ _ _ (λ e. let (x, y) = at-injective r _ _ _ _ w v e in a x y)

  abbrev Kept : ℕ → ℕ → Type 0
  Kept l q =
      ((l ≡ k) × (q ≡ p) × (retyped (at ref l q) ≡ record (m (at ref l q)) { type = t }))
      ⊎ ((l ≡ k → q ≢ p) × (retyped (at ref l q) ≡ m (at ref l q)))

  pub kept : (l q : ℕ) → InRange ref l q → Kept l q
  kept l q w = elim (ℕ_discrete l k) [
    | no a ↦ let away : l ≡ k → q ≢ p = λ e. absurd (a e) in inr (away, retyped-other l q w away)
    | yes a ↦ elim (ℕ_discrete q p) [
      | yes b ↦ inl (a, b, rw (a, b) retyped-here)
      | no b ↦ let away : l ≡ k → q ≢ p = λ e. b in inr (away, retyped-other l q w away)
    ]
  ]

  -- Orders and addresses stay, and so does which slots are split.
  same_order :
      (l q : ℕ) → InRange ref l q → (retyped (at ref l q)).pow_order ≡ (m (at ref l q)).pow_order
  same_order l q w = ground (arith, kept l q w)

  same_base :
      (l q : ℕ) → InRange ref l q → (retyped (at ref l q)).base_addr ≡ (m (at ref l q)).base_addr
  same_base l q w = ground (arith, kept l q w)

  split-kept :
      (l q : ℕ)
      → InRange ref l q
      → (m (at ref l q)).type ≡ split
      → (retyped (at ref l q)).type ≡ split
  split-kept l q w a = by_kind (kept l q w)
    where
      by_kind : Kept l q → (retyped (at ref l q)).type ≡ split
      by_kind (inl (x, y, z)) =
          absurd (whole (ap₂ (λ s u. (m (at ref s u)).type) (sym x) (sym y) ∙ a))
      by_kind (inr (x, z)) = ap (λ s. Slot.type s) z ∙ a

  split-was :
      (l q : ℕ)
      → InRange ref l q
      → (retyped (at ref l q)).type ≡ split
      → (m (at ref l q)).type ≡ split
  split-was l q w a = by_kind (kept l q w)
    where
      by_kind : Kept l q → (m (at ref l q)).type ≡ split
      by_kind (inl (x, y, z)) = absurd (whole' (ap (λ s. Slot.type s) (sym z) ∙ a))
      by_kind (inr (x, z)) = ap (λ s. Slot.type s) (sym z) ∙ a

  shape' :
      (l q : ℕ)
      → InRange ref l q
      → (IsLive ref retyped l q × ((retyped (at ref l q)).base_addr ≡ block_addr ref l q))
        ⊎ (retyped (at ref l q) ≡ zero_slot)
  shape' l q w = by_shape (h.shape l q w) (kept l q w)
    where
      by_shape :
          (IsLive ref m l q × ((m (at ref l q)).base_addr ≡ block_addr ref l q))
            ⊎ (m (at ref l q) ≡ zero_slot)
          → Kept l q
          → (IsLive ref retyped l q × ((retyped (at ref l q)).base_addr ≡ block_addr ref l q))
            ⊎ (retyped (at ref l q) ≡ zero_slot)
      by_shape (inl (x, y)) c = inl (same_order l q w ∙ x, same_base l q w ∙ y)
      by_shape (inr x) (inl (y, z, c)) = inl (
        same_order l q w ∙ ap₂ (λ s u. (m (at ref s u)).pow_order) y z ∙ live ∙ sym y,
        same_base l q w
            ∙ ap₂ (λ s u. (m (at ref s u)).base_addr) y z
            ∙ live-base r h k p v live
            ∙ ap₂ (block_addr ref) (sym y) (sym z),
      )
      by_shape (inr x) (inr (y, c)) = inr (c ∙ x)

  above' :
      (l q : ℕ)
      → InRange ref l q
      → l < ref.max_pow_order
      → IsLive ref retyped l q
      → IsLive ref retyped (l + 1) (q / 2) × ((retyped (at ref (l + 1) (q / 2))).type ≡ split)
  above' l q w a c =
      let u = parent-InRange r l q w a in
      let (x, y) = h.above l q w a (sym (same_order l q w) ∙ c) in
      (same_order (l + 1) (q / 2) u ∙ x, split-kept (l + 1) (q / 2) u y)

  below' :
      (l q : ℕ)
      → InRange ref l q
      → ref.min_pow_order < l
      → IsLive ref retyped l q
      → (retyped (at ref l q)).type ≡ split
      → IsLive ref retyped (l - 1) (2 * q) × IsLive ref retyped (l - 1) (2 * q + 1)
  below' l q w a c d =
      let (x, y) = h.below l q w a (sym (same_order l q w) ∙ c) (split-was l q w d) in
      (
        same_order (l - 1) (2 * q) (left-InRange r l q w a) ∙ x,
        same_order (l - 1) (2 * q + 1) (right-InRange r l q w a) ∙ y,
      )

  -- The header stays a tree of blocks.
  pub retyped-IsValid : IsValid ref retyped
  retyped-IsValid = record {
    root = same_order ref.max_pow_order 0 (root-InRange r) ∙ h.root;
    shape = shape';
    above = above';
    below = below';
    floor = λ q w e. h.floor q w (split-was ref.min_pow_order q w e);
  }
