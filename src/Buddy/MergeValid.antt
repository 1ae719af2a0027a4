-- ===== src/Buddy/MergeValid.antt =====
-- After a merge in `buddy_free` of src/kernel/mm/buddy.c the slots are a tree of blocks again.
use almeida_os.Base.{
  ℕ, ◌+◌, ◌-◌, ◌*◌, ◌/◌, ◌<◌, ◌≡◌, ◌≢◌, refl, sym, ap, ap₂, ◌∙◌, ◌⊎◌, inl, inr, arith,
}
use almeida_os.Buddy.{unused, split, used, Slot, Slots, BuddyRef, zero_slot}
use almeida_os.Buddy.Coords.{
  IsRef, InRange, at, buddy, parent-InRange, left-InRange, right-InRange, root-InRange,
}
use almeida_os.Buddy.Valid.{IsLive, IsValid, IsFree, IsUsed, block_addr, live-base}
use almeida_os.Buddy.Merge.{merged, Becomes, becomes, parent, merged-parent}

module _ {ref : BuddyRef} {m : Slots} (r : IsRef ref) (h : IsValid ref m) (k p : ℕ)
    (v : InRange ref k p) (low : k < ref.max_pow_order) (free : IsFree ref m k p)
    (sibling : IsFree ref m k (buddy p)) where
  abbrev joined : Slots
  joined = merged r h k p v low free sibling

  abbrev Kind : ℕ → ℕ → Type 0
  Kind l q = Becomes r h k p v low free sibling l q

  kind : (l q : ℕ) → InRange ref l q → Kind l q
  kind = becomes r h k p v low free sibling

  up : IsLive ref m (k + 1) (p / 2) × ((m (at ref (k + 1) (p / 2))).type ≡ split)
  up = parent r h k p v low free sibling

  no_zero :
      (l q : ℕ) → InRange ref l q → joined (at ref l q) ≡ zero_slot → IsLive ref joined l q → ⊥
  no_zero l q w e live = omega (arith, ap (λ s. Slot.pow_order s) e, live, r.min_positive, w.lower)

  -- A split slot that is not the parent stays as it is, and so does any live slot but the two halves.
  still-IsLive :
      (l q : ℕ)
      → InRange ref l q
      → IsLive ref m l q
      → (l ≡ k → q / 2 ≢ p / 2)
      → IsLive ref joined l q
  still-IsLive l q w a n = by_kind (kind l q w)
    where
      by_kind : Kind l q → IsLive ref joined l q
      by_kind (inl (x, y, z)) = rw z (up.0 ∙ sym x)
      by_kind (inr (inl (x, y, z, u))) = absurd (n x y)
      by_kind (inr (inr (x, y, z))) = rw z a

  still-split :
      (l q : ℕ)
      → InRange ref l q
      → (m (at ref l q)).type ≡ split
      → (l ≡ k + 1 → q ≢ p / 2)
      → (joined (at ref l q)).type ≡ split
  still-split l q w a n = by_kind (kind l q w)
    where
      by_kind : Kind l q → (joined (at ref l q)).type ≡ split
      by_kind (inl (x, y, z)) = absurd (n x y)
      by_kind (inr (inl (x, y, z, u))) = let bad : unused ≡ split = sym u ∙ a in cc
      by_kind (inr (inr (x, y, z))) = rw z a

  shape' :
      (l q : ℕ)
      → InRange ref l q
      → (IsLive ref joined l q × ((joined (at ref l q)).base_addr ≡ block_addr ref l q))
        ⊎ (joined (at ref l q) ≡ zero_slot)
  shape' l q w = by_kind (kind l q w)
    where
      by_kind :
          Kind l q
          → (IsLive ref joined l q × ((joined (at ref l q)).base_addr ≡ block_addr ref l q))
            ⊎ (joined (at ref l q) ≡ zero_slot)
      by_kind (inl (x, y, z)) = rw z (
          inl (
            up.0 ∙ sym x,
            live-base r h (k + 1) (p / 2) (parent-InRange r k p v low) up.0
                ∙ ap₂ (block_addr ref) (sym x) (sym y),
          ))
      by_kind (inr (inl (x, y, z, u))) = inr z
      by_kind (inr (inr (x, y, z))) = rw z (h.shape l q w)

  above' :
      (l q : ℕ)
      → InRange ref l q
      → l < ref.max_pow_order
      → IsLive ref joined l q
      → IsLive ref joined (l + 1) (q / 2) × ((joined (at ref (l + 1) (q / 2))).type ≡ split)
  above' l q w a live = by_kind (kind l q w)
    where
      old :
          IsLive ref m l q
          → (l ≡ k → q / 2 ≢ p / 2)
          → IsLive ref joined (l + 1) (q / 2) × ((joined (at ref (l + 1) (q / 2))).type ≡ split)
      old x n =
          let (y, z) = h.above l q w a x in
          let u = parent-InRange r l q w a in
          let away : l + 1 ≡ k + 1 → q / 2 ≢ p / 2 = λ e. n (omega arith) in
          let s = still-split (l + 1) (q / 2) u z away in
          (
            still-IsLive (l + 1) (q / 2) u y
                (λ e f. let t = kind (l + 1) (q / 2) u in no_half t e f z),
            s,
          )
        where
          no_half :
              Kind (l + 1) (q / 2)
              → l + 1 ≡ k
              → q / 2 / 2 ≡ p / 2
              → (m (at ref (l + 1) (q / 2))).type ≡ split
              → ⊥
          no_half (inl (x, y, z)) e f g = omega arith
          no_half (inr (inl (x, y, z, u))) e f g = let bad : unused ≡ split = sym u ∙ g in cc
          no_half (inr (inr (x, y, z))) e f g = y e f

      by_kind :
          Kind l q
          → IsLive ref joined (l + 1) (q / 2) × ((joined (at ref (l + 1) (q / 2))).type ≡ split)
      by_kind (inl (x, y, z)) =
          old (ap₂ (λ s t. (m (at ref s t)).pow_order) x y ∙ up.0 ∙ sym x)
            (λ e. absurd (omega arith))
      by_kind (inr (inl (x, y, z, u))) = absurd (no_zero l q w z live)
      by_kind (inr (inr (x, y, z))) = old (ap (λ s. Slot.pow_order s) (sym z) ∙ live) y

  below' :
      (l q : ℕ)
      → InRange ref l q
      → ref.min_pow_order < l
      → IsLive ref joined l q
      → (joined (at ref l q)).type ≡ split
      → IsLive ref joined (l - 1) (2 * q) × IsLive ref joined (l - 1) (2 * q + 1)
  below' l q w a live d = by_kind (kind l q w)
    where
      by_kind : Kind l q → IsLive ref joined (l - 1) (2 * q) × IsLive ref joined (l - 1) (2 * q + 1)
      by_kind (inl (x, y, z)) = let bad : unused ≡ split = ap (λ s. Slot.type s) (sym z) ∙ d in cc
      by_kind (inr (inl (x, y, z, u))) = absurd (no_zero l q w z live)
      by_kind (inr (inr (x, y, z))) =
          let (s, t) =
            h.below l q w a (ap (λ u. Slot.pow_order u) (sym z) ∙ live)
              (ap (λ u. Slot.type u) (sym z) ∙ d) in
          (
            still-IsLive (l - 1) (2 * q) (left-InRange r l q w a) s
                (λ e f. x (omega arith) (omega arith)),
            still-IsLive (l - 1) (2 * q + 1) (right-InRange r l q w a) t
                (λ e f. x (omega arith) (omega arith)),
          )

  floor' :
      (q : ℕ) → InRange ref ref.min_pow_order q → (joined (at ref ref.min_pow_order q)).type ≢ split
  floor' q w e = by_kind (kind ref.min_pow_order q w)
    where
      by_kind : Kind ref.min_pow_order q → ⊥
      by_kind (inl (x, y, z)) = omega (arith, x, v.lower)
      by_kind (inr (inl (x, y, z, u))) =
          let bad : unused ≡ split = ap (λ s. Slot.type s) (sym z) ∙ e in cc
      by_kind (inr (inr (x, y, z))) = h.floor q w (ap (λ s. Slot.type s) (sym z) ∙ e)

  pub merged-IsValid : IsValid ref joined
  merged-IsValid = record {
    root = still-IsLive ref.max_pow_order 0 (root-InRange r) h.root (λ e. absurd (omega arith));
    shape = shape';
    above = above';
    below = below';
    floor = floor';
  }

  -- The parent is free, and the blocks that are given out are the same.
  pub merged-IsFree : IsFree ref joined (k + 1) (p / 2)
  merged-IsFree = rw (merged-parent r h k p v low free sibling) (up.0, refl)

  pub used-merged : (l q : ℕ) → InRange ref l q → IsUsed ref m l q → IsUsed ref joined l q
  used-merged l q w (a, b) = by_kind (kind l q w)
    where
      by_kind : Kind l q → IsUsed ref joined l q
      by_kind (inl (x, y, z)) =
          let bad : split ≡ used =
            sym up.1 ∙ ap₂ (λ s t. (m (at ref s t)).type) (sym x) (sym y) ∙ b in
          cc
      by_kind (inr (inl (x, y, z, u))) = let bad : unused ≡ used = sym u ∙ b in cc
      by_kind (inr (inr (x, y, z))) = rw z (a, b)

  pub merged-used : (l q : ℕ) → InRange ref l q → IsUsed ref joined l q → IsUsed ref m l q
  merged-used l q w (a, b) = by_kind (kind l q w)
    where
      by_kind : Kind l q → IsUsed ref m l q
      by_kind (inl (x, y, z)) = let bad : unused ≡ used = ap (λ s. Slot.type s) (sym z) ∙ b in cc
      by_kind (inr (inl (x, y, z, u))) =
          let bad : unused ≡ used = ap (λ s. Slot.type s) (sym z) ∙ b in cc
      by_kind (inr (inr (x, y, z))) = rw (← z) (a, b)
