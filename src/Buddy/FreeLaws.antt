-- ===== src/Buddy/FreeLaws.antt =====
-- `buddy_free` of src/kernel/mm/buddy.c: the merges end, and give back the one block.
use native.Mathlib.Decide.{dec_lt}
use almeida_os.Base.{
  ℕ, zero, suc, ◌+◌, ◌-◌, ◌*◌, ◌/◌, ◌%◌, ◌<◌, ◌≡◌, refl, ◌∙◌, subst, inl, inr, true, false, ltb,
  ◌==◌, lt→ltb, le→ltb, Bool-cases, Run, ok, arith,
}
use almeida_os.Buddy.{SlotType, unused, split, used, Slots, BuddyRef}
use almeida_os.Buddy.Coords.{
  IsRef, InRange, at, buddy, parent-InRange, goto_parent_lem, goto_sibling_lem,
}
use almeida_os.Buddy.Valid.{IsLive, IsValid, IsFree, IsUsed}
use almeida_os.Buddy.MergeValid.{merged-IsValid, merged-IsFree, used-merged, merged-used}
use almeida_os.Buddy.Alloc.{is_unused}
use almeida_os.Buddy.Free.{merge_loop, merge_slots}

-- Two states of the header give out the same blocks.
abbrev pub SameUsed : BuddyRef → Slots → Slots → Type 0
SameUsed ref m m' =
    (l q : ℕ)
    → InRange ref l q
    → (IsUsed ref m l q → IsUsed ref m' l q) × (IsUsed ref m' l q → IsUsed ref m l q)

-- What `merge_loop` does: it ends, in a tree of blocks that gives out the same ones.
abbrev pub Settles : BuddyRef → Slots → Run Slots → Type 0
Settles ref m res = (m' : Slots) × (res ≡ ok m') × IsValid ref m' × SameUsed ref m m'

is_unused-eq : (t : SlotType) → is_unused t ≡ true → t ≡ unused
is_unused-eq unused e = refl
is_unused-eq split e = let bad : false ≡ true = e in cc
is_unused-eq used e = let bad : false ≡ true = e in cc

module _ {ref : BuddyRef} (r : IsRef ref) where
  sibling-IsLive :
      {m : Slots} (k p : ℕ)
      → IsValid ref m
      → InRange ref k p
      → k < ref.max_pow_order
      → IsLive ref m k p
      → IsLive ref m k (buddy p)
  sibling-IsLive {m} k p h v low live =
      let up = h.above k p v low live in
      let below =
        h.below (k + 1) (p / 2) (parent-InRange r k p v low) (omega (arith, v.lower)) up.0 up.1 in
      let order : k + 1 - 1 ≡ k = omega arith in
      elim (Bool-cases (p % 2 == 0)) [
        | inl e ↦
            let s : 2 * (p / 2) + 1 ≡ buddy p = ground arith in
            subst (λ x. IsLive ref m k x) s
              (subst (λ i. IsLive ref m i (2 * (p / 2) + 1)) order below.1)
        | inr e ↦
            let s : 2 * (p / 2) ≡ buddy p = ground arith in
            subst (λ x. IsLive ref m k x) s
              (subst (λ i. IsLive ref m i (2 * (p / 2))) order below.0)
      ]

  stop_top :
      {m : Slots} (fuel k p : ℕ)
      → IsLive ref m k p
      → ¬ (k < ref.max_pow_order)
      → merge_loop (suc fuel) ref (at ref k p) m ≡ ok m
  unfolding merge_loop
  stop_top {m} fuel k p live top =
      let e : ltb (m (at ref k p)).pow_order ref.max_pow_order ≡ false =
        rw live (le→ltb k ref.max_pow_order (omega arith)) in
      rw (merge_loop, e) refl

  stop_busy :
      {m : Slots} (fuel k p : ℕ)
      → InRange ref k p
      → IsLive ref m k p
      → k < ref.max_pow_order
      → is_unused (m (at ref k (buddy p))).type ≡ false
      → merge_loop (suc fuel) ref (at ref k p) m ≡ ok m
  unfolding merge_loop
  stop_busy {m} fuel k p v live low busy =
      let e : ltb (m (at ref k p)).pow_order ref.max_pow_order ≡ true =
        rw live (lt→ltb k ref.max_pow_order low) in
      rw (merge_loop, e, goto_sibling_lem r m k p v live, busy) refl

  merge_step :
      (m : Slots) (fuel k p : ℕ)
      → InRange ref k p
      → IsLive ref m k p
      → k < ref.max_pow_order
      → is_unused (m (at ref k (buddy p))).type ≡ true
      → merge_loop (suc fuel) ref (at ref k p) m
        ≡ merge_loop fuel ref
            (at ref (k + 1) (p / 2))
            (merge_slots m (at ref (k + 1) (p / 2)) (at ref k p) (at ref k (buddy p)))
  unfolding merge_loop
  merge_step m fuel k p v live low free =
      let e : ltb (m (at ref k p)).pow_order ref.max_pow_order ≡ true =
        rw live (lt→ltb k ref.max_pow_order low) in
      rw
        (
          merge_loop,
          e,
          goto_sibling_lem r m k p v live,
          free,
          goto_sibling_lem r m k p v live,
          goto_parent_lem r m k p v live low,
        )
        refl

  same_refl : (m : Slots) → SameUsed ref m m
  same_refl m l q w = (λ u. u, λ u. u)

  pub merge_loop_lem :
      (fuel k p : ℕ) {m : Slots}
      → IsValid ref m
      → InRange ref k p
      → IsFree ref m k p
      → ref.max_pow_order < k + fuel
      → Settles ref m (merge_loop fuel ref (at ref k p) m)
  merge_loop_lem zero k p h v f d = absurd (omega (arith, v.upper))
  merge_loop_lem (suc fuel) k p {m} h v f d = elim (dec_lt k ref.max_pow_order) [
    | no top ↦ (m, stop_top fuel k p f.0 top, h, same_refl m)
    | yes low ↦ elim (Bool-cases (is_unused (m (at ref k (buddy p))).type)) [
      | inr busy ↦ (m, stop_busy fuel k p v f.0 low busy, h, same_refl m)
      | inl free ↦
          let s : IsFree ref m k (buddy p) =
            (sibling-IsLive k p h v low f.0, is_unused-eq _ free) in
          let (m', e, valid, same) =
            merge_loop_lem fuel (k + 1) (p / 2) (merged-IsValid r h k p v low f s)
              (parent-InRange r k p v low) (merged-IsFree r h k p v low f s) (omega arith) in
          (
            m',
            merge_step m fuel k p v f.0 low free ∙ e,
            valid,
            λ l q w. (
              λ u. (same l q w).0 (used-merged r h k p v low f s l q w u),
              λ u. merged-used r h k p v low f s l q w ((same l q w).1 u),
            ),
          )
    ]
  ]
