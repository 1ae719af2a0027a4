-- ===== src/Buddy/Merge.antt =====
-- One merge in `buddy_free` of src/kernel/mm/buddy.c keeps the tree of blocks.
use native.Mathlib.Decide.{ℕ_discrete}
use almeida_os.Base.{ℕ, ◌+◌, ◌/◌, ◌<◌, ◌≡◌, ◌≢◌, ap, ◌∙◌, ◌⊎◌, inl, inr, arith}
use almeida_os.Buddy.{unused, split, Slots, BuddyRef, zero_slot, write, set_type}
use almeida_os.Buddy.Coords.{IsRef, InRange, at, at-injective, buddy, buddy-InRange, parent-InRange}
use almeida_os.Buddy.Valid.{IsLive, IsValid, IsFree}
use almeida_os.Buddy.Split.{write_self, write_ne}
use almeida_os.Buddy.Free.{merge_slots}

module _ {ref : BuddyRef} {m : Slots} (r : IsRef ref) (h : IsValid ref m) (k p : ℕ)
    (v : InRange ref k p) (low : k < ref.max_pow_order) (free : IsFree ref m k p)
    (sibling : IsFree ref m k (buddy p)) where
  up : InRange ref (k + 1) (p / 2)
  up = parent-InRange r k p v low

  abbrev pub merged : Slots
  merged = merge_slots m (at ref (k + 1) (p / 2)) (at ref k p) (at ref k (buddy p))

  pub parent : IsLive ref m (k + 1) (p / 2) × ((m (at ref (k + 1) (p / 2))).type ≡ split)
  parent = h.above k p v low free.0

  -- What a slot becomes, by how it stands to the parent.
  abbrev pub Becomes : ℕ → ℕ → Type 0
  Becomes l q =
      ((l ≡ k + 1)
        × (q ≡ p / 2)
        × (merged (at ref l q) ≡ record (m (at ref (k + 1) (p / 2))) { type = unused }))
      ⊎ ((l ≡ k)
          × (q / 2 ≡ p / 2)
          × (merged (at ref l q) ≡ zero_slot)
          × ((m (at ref l q)).type ≡ unused))
      ⊎ ((l ≡ k + 1 → q ≢ p / 2) × (l ≡ k → q / 2 ≢ p / 2) × (merged (at ref l q) ≡ m (at ref l q)))

  abbrev first_write : Slots
  first_write = set_type m (at ref (k + 1) (p / 2)) unused

  abbrev second_write : Slots
  second_write = write first_write (at ref k p) zero_slot

  pub merged-parent :
      merged (at ref (k + 1) (p / 2)) ≡ record (m (at ref (k + 1) (p / 2))) { type = unused }
  unfolding merge_slots set_type
  merged-parent =
      write_ne second_write (at ref k (buddy p)) (at ref (k + 1) (p / 2)) zero_slot
        (λ e. omega (arith, (at-injective r _ _ _ _ up (buddy-InRange r k p v low) e).0))
      ∙ write_ne first_write (at ref k p) (at ref (k + 1) (p / 2)) zero_slot
          (λ e. omega (arith, (at-injective r _ _ _ _ up v e).0))
      ∙ write_self m (at ref (k + 1) (p / 2)) _

  merged-sibling : merged (at ref k (buddy p)) ≡ zero_slot
  unfolding merge_slots
  merged-sibling = write_self second_write (at ref k (buddy p)) zero_slot

  merged_self : merged (at ref k p) ≡ zero_slot
  unfolding merge_slots
  merged_self =
      write_ne second_write (at ref k (buddy p)) (at ref k p) zero_slot (λ e.
        let (x, y) = at-injective r _ _ _ _ v (buddy-InRange r k p v low) e in
        absurd (ground arith))
      ∙ write_self first_write (at ref k p) zero_slot

  merged-other :
      (l q : ℕ)
      → InRange ref l q
      → (l ≡ k + 1 → q ≢ p / 2)
      → (l ≡ k → q / 2 ≢ p / 2)
      → merged (at ref l q) ≡ m (at ref l q)
  unfolding merge_slots set_type
  merged-other l q w a b =
      write_ne second_write (at ref k (buddy p)) (at ref l q) zero_slot (λ e.
        let (x, y) = at-injective r _ _ _ _ w (buddy-InRange r k p v low) e in
        b x (ap (λ t. t / 2) y ∙ half_buddy))
      ∙ write_ne first_write (at ref k p) (at ref l q) zero_slot
          (λ e. let (x, y) = at-injective r _ _ _ _ w v e in b x (ap (λ t. t / 2) y))
      ∙ write_ne m (at ref (k + 1) (p / 2)) (at ref l q) _
          (λ e. let (x, y) = at-injective r _ _ _ _ w up e in a x y)
    where
      half_buddy : buddy p / 2 ≡ p / 2
      half_buddy = ground arith

  pub becomes : (l q : ℕ) → InRange ref l q → Becomes l q
  becomes l q w = elim (ℕ_discrete l (k + 1)) [
    | yes a ↦ elim (ℕ_discrete q (p / 2)) [
      | yes b ↦ inl (a, b, rw (a, b) merged-parent)
      | no b ↦
          let x : l ≡ k + 1 → q ≢ p / 2 = λ _. b in
          let y : l ≡ k → q / 2 ≢ p / 2 = λ c. absurd (omega arith) in
          inr (inr (x, y, merged-other l q w x y))
    ]
    | no a ↦
        let x : l ≡ k + 1 → q ≢ p / 2 = λ c. absurd (a c) in
        elim (ℕ_discrete l k) [
          | no b ↦
              let y : l ≡ k → q / 2 ≢ p / 2 = λ c. absurd (b c) in
              inr (inr (x, y, merged-other l q w x y))
          | yes b ↦ elim (ℕ_discrete (q / 2) (p / 2)) [
            | no c ↦
                let y : l ≡ k → q / 2 ≢ p / 2 = λ _. c in inr (inr (x, y, merged-other l q w x y))
            | yes c ↦ elim (ℕ_discrete q p) [
              | yes d ↦ inr (inl (b, c, rw (b, d) merged_self, rw (b, d) free.1))
              | no d ↦
                  let s : q ≡ buddy p = ground arith in
                  inr (inl (b, c, rw (b, s) merged-sibling, rw (b, s) sibling.1))
            ]
          ]
        ]
  ]
