-- ===== src/Buddy/SplitValid.antt =====
-- Splitting an unused slot keeps the header of src/kernel/mm/buddy.c a tree of blocks.
use almeida_os.Base.{
  ℕ, ◌+◌, ◌-◌, ◌*◌, ◌/◌, ◌<◌, ◌≡◌, ◌≢◌, refl, sym, ap, ap₂, ◌∙◌, ◌⊎◌, inl, inr, arith,
}
use almeida_os.Buddy.{unused, split, used, Slot, Slots, BuddyRef, zero_slot}
use almeida_os.Buddy.Coords.{
  IsRef, InRange, at, left-InRange, right-InRange, parent-InRange, root-InRange,
}
use almeida_os.Buddy.Valid.{
  IsLive, IsValid, IsFree, IsUsed, block_addr, live-base, Place, here, left, right, other, locate,
}
use almeida_os.Buddy.Split.{after, child, split-here, split-left, split-right, split-other}

module _ {ref : BuddyRef} {m : Slots} (r : IsRef ref) (h : IsValid ref m) (k p : ℕ)
    (v : InRange ref k p) (live : IsLive ref m k p) (free : (m (at ref k p)).type ≡ unused)
    (big : ref.min_pow_order < k) where
  abbrev pub halved : Slots
  halved = after r h k p v live big

  -- What a slot becomes, by how it stands to the one that is split.
  abbrev Becomes : ℕ → ℕ → Type 0
  Becomes l q =
      ((l ≡ k) × (q ≡ p) × (halved (at ref l q) ≡ record (m (at ref k p)) { type = split }))
      ⊎ ((l + 1 ≡ k) × (q / 2 ≡ p) × (halved (at ref l q) ≡ child r h k p v live big q))
      ⊎ ((l ≡ k → q ≢ p) × (l + 1 ≡ k → q / 2 ≢ p) × (halved (at ref l q) ≡ m (at ref l q)))

  becomes : (l q : ℕ) → InRange ref l q → Becomes l q
  becomes l q w = by_place (locate k p l q)
    where
      by_place : Place k p l q → Becomes l q
      by_place (here a b) = inl (a, b, rw (a, b) (split-here r h k p v live big))
      by_place (left a b) = inr (
          inl (
            omega arith,
            omega arith,
            let e : l ≡ k - 1 = omega arith in rw (e, b) (split-left r h k p v live big),
          ))
      by_place (right a b) = inr (
          inl (
            omega arith,
            omega arith,
            let e : l ≡ k - 1 = omega arith in rw (e, b) (split-right r h k p v live big),
          ))
      by_place (other a b) = inr (inr (a, b, split-other r h k p v live big l q w a b))

  -- A live slot stays live.
  pub IsLive-kept : (l q : ℕ) → InRange ref l q → IsLive ref m l q → IsLive ref halved l q
  IsLive-kept l q w a = ground (arith, becomes l q w)

  -- No slot below an unused one is live.
  childless : (l q : ℕ) → InRange ref l q → l + 1 ≡ k → q / 2 ≡ p → IsLive ref m l q → ⊥
  childless l q w a b c =
      let (_, e) = h.above l q w (omega (arith, v.upper)) c in
      let f : split ≡ unused = sym e ∙ ap₂ (λ x y. (m (at ref x y)).type) a b ∙ free in cc

  shape' :
      (l q : ℕ)
      → InRange ref l q
      → (IsLive ref halved l q × ((halved (at ref l q)).base_addr ≡ block_addr ref l q))
        ⊎ (halved (at ref l q) ≡ zero_slot)
  shape' l q w = ground (arith, becomes l q w, h.shape l q w, live-base r h k p v live)

  -- A live split slot stays live and split.
  still-split :
      (l q : ℕ)
      → InRange ref l q
      → IsLive ref m l q
      → (m (at ref l q)).type ≡ split
      → IsLive ref halved l q × ((halved (at ref l q)).type ≡ split)
  still-split l q w a b = by_kind (becomes l q w)
    where
      by_kind : Becomes l q → IsLive ref halved l q × ((halved (at ref l q)).type ≡ split)
      by_kind (inl (x, y, z)) = rw z (live ∙ sym x, refl)
      by_kind (inr (inl (x, y, z))) = absurd (childless l q w x y a)
      by_kind (inr (inr (x, y, z))) = rw z (a, b)

  above' :
      (l q : ℕ)
      → InRange ref l q
      → l < ref.max_pow_order
      → IsLive ref halved l q
      → IsLive ref halved (l + 1) (q / 2) × ((halved (at ref (l + 1) (q / 2))).type ≡ split)
  above' l q w a c = by_kind (becomes l q w)
    where
      old :
          IsLive ref m l q
          → IsLive ref halved (l + 1) (q / 2) × ((halved (at ref (l + 1) (q / 2))).type ≡ split)
      old x =
          let (y, z) = h.above l q w a x in
          still-split (l + 1) (q / 2) (parent-InRange r l q w a) y z

      by_kind :
          Becomes l q
          → IsLive ref halved (l + 1) (q / 2) × ((halved (at ref (l + 1) (q / 2))).type ≡ split)
      by_kind (inl (x, y, z)) = old (ap₂ (λ s t. (m (at ref s t)).pow_order) x y ∙ live ∙ sym x)
      by_kind (inr (inl (x, y, z))) = rw (x, y, split-here r h k p v live big) (live, refl)
      by_kind (inr (inr (x, y, z))) = old (ap (λ t. Slot.pow_order t) (sym z) ∙ c)

  below' :
      (l q : ℕ)
      → InRange ref l q
      → ref.min_pow_order < l
      → IsLive ref halved l q
      → (halved (at ref l q)).type ≡ split
      → IsLive ref halved (l - 1) (2 * q) × IsLive ref halved (l - 1) (2 * q + 1)
  below' l q w a c d = by_kind (becomes l q w)
    where
      by_kind :
          Becomes l q → IsLive ref halved (l - 1) (2 * q) × IsLive ref halved (l - 1) (2 * q + 1)
      by_kind (inl (x, y, z)) =
          rw (x, y, split-left r h k p v live big, split-right r h k p v live big) (refl, refl)
      by_kind (inr (inl (x, y, z))) =
          let bad : unused ≡ split = ap (λ t. Slot.type t) (sym z) ∙ d in cc
      by_kind (inr (inr (x, y, z))) =
          let (s, t) =
            h.below l q w a (ap (λ u. Slot.pow_order u) (sym z) ∙ c)
              (ap (λ u. Slot.type u) (sym z) ∙ d) in
          (
            IsLive-kept (l - 1) (2 * q) (left-InRange r l q w a) s,
            IsLive-kept (l - 1) (2 * q + 1) (right-InRange r l q w a) t,
          )

  floor' :
      (q : ℕ) → InRange ref ref.min_pow_order q → (halved (at ref ref.min_pow_order q)).type ≢ split
  floor' q w = ground (arith, becomes ref.min_pow_order q w, h.floor q w)

  -- The header stays a tree of blocks.
  pub halved-IsValid : IsValid ref halved
  halved-IsValid = record {
    root = IsLive-kept ref.max_pow_order 0 (root-InRange r) h.root;
    shape = shape';
    above = above';
    below = below';
    floor = floor';
  }

  -- A split changes no block that is given out, and its lower half is free.
  pub used-halved : (l q : ℕ) → InRange ref l q → IsUsed ref m l q → IsUsed ref halved l q
  used-halved l q w (a, b) = by_kind (becomes l q w)
    where
      by_kind : Becomes l q → IsUsed ref halved l q
      by_kind (inl (x, y, z)) =
          let bad : unused ≡ used =
            sym free ∙ ap₂ (λ s t. (m (at ref s t)).type) (sym x) (sym y) ∙ b in
          cc
      by_kind (inr (inl (x, y, z))) = absurd (childless l q w x y a)
      by_kind (inr (inr (x, y, z))) = rw z (a, b)

  pub halved-used : (l q : ℕ) → InRange ref l q → IsUsed ref halved l q → IsUsed ref m l q
  halved-used l q w (a, b) = by_kind (becomes l q w)
    where
      by_kind : Becomes l q → IsUsed ref m l q
      by_kind (inl (x, y, z)) = let bad : split ≡ used = ap (λ s. Slot.type s) (sym z) ∙ b in cc
      by_kind (inr (inl (x, y, z))) =
          let bad : unused ≡ used = ap (λ s. Slot.type s) (sym z) ∙ b in cc
      by_kind (inr (inr (x, y, z))) = rw (← z) (a, b)

  pub halved-IsFree : IsFree ref halved (k - 1) (2 * p)
  halved-IsFree = rw (split-left r h k p v live big) (refl, refl)
