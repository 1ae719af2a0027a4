-- ===== src/Buddy/Find.antt =====
-- `find_slot_by_addr` of src/kernel/mm/buddy.c: any address in a block that is given out leads to
-- the slot of that block.
use native.Mathlib.Decide.{ℕ_discrete}
use native.Mathlib.Nat.{div-eq_of_lt, mul_comm, div-div-eq-div-mul}
use almeida_os.Base.{
  ℕ, zero, suc, ◌+◌, ◌-◌, ◌*◌, ◌/◌, ◌%◌, ◌^◌, ◌≤◌, ◌<◌, ◌≡◌, refl, sym, ap, ap₂, ◌∙◌, true, false,
  ltb, lt→ltb, le→ltb, ok, arith,
}
use almeida_os.Word.Bits.{two-pow_suc, two-pow_pos}
use almeida_os.Buddy.{split, Slots, BuddyRef, goto_porder_idx}
use almeida_os.Buddy.Coords.{
  IsRef, InRange, at, upow_two, goto_left_child_lem, goto_right_child_lem,
}
use almeida_os.Buddy.Valid.{IsLive, IsValid, IsUsed, block_addr, live-base, block-le, two-pow_pred}
use almeida_os.Buddy.Disjoint.{ancestor, ancestor-IsLive, within_ancestor}
use almeida_os.Buddy.Free.{in_lower_half, find_loop, find_slot_by_addr}

module _ {ref : BuddyRef} {m : Slots} (r : IsRef ref) (h : IsValid ref m) where
  -- The rounds of the loop.
  here_step :
      (fuel ptr k p : ℕ)
      → InRange ref k p
      → IsUsed ref m k p
      → find_loop (suc fuel) ref m ptr (at ref k p) ≡ ok (at ref k p)
  unfolding find_loop
  here_step fuel ptr k p v u =
      let large : ltb (m (at ref k p)).pow_order ref.min_pow_order ≡ false =
        rw u.0 (le→ltb _ _ v.lower) in
      rw (find_loop, large, u.1) refl

  module _ (fuel ptr k p : ℕ) (v : InRange ref k p) (live : IsLive ref m k p)
      (cut : (m (at ref k p)).type ≡ split) (big : ref.min_pow_order < k) where
    left_step :
        in_lower_half (m (at ref k p)) ptr ≡ true
        → find_loop (suc fuel) ref m ptr (at ref k p)
          ≡ find_loop fuel ref m ptr (at ref (k - 1) (2 * p))
    unfolding find_loop
    left_step e =
        let large : ltb (m (at ref k p)).pow_order ref.min_pow_order ≡ false =
          rw live (le→ltb _ _ v.lower) in
        rw (find_loop, large, cut, e, goto_left_child_lem r m k p v live big) refl

    right_step :
        in_lower_half (m (at ref k p)) ptr ≡ false
        → find_loop (suc fuel) ref m ptr (at ref k p)
          ≡ find_loop fuel ref m ptr (at ref (k - 1) (2 * p + 1))
    unfolding find_loop
    right_step e =
        let large : ltb (m (at ref k p)).pow_order ref.min_pow_order ≡ false =
          rw live (le→ltb _ _ v.lower) in
        rw (find_loop, large, cut, e, goto_right_child_lem r m k p v live big) refl

    -- The test tells which half the address is in.
    lower-half_lem :
        block_addr ref k p ≤ ptr
        → in_lower_half (m (at ref k p)) ptr ≡ ltb ptr (block_addr ref k p + 2 ^ (k - 1))
    unfolding in_lower_half
    lower-half_lem a =
        let half : 2 ^ k / 2 ≡ 2 ^ (k - 1) = omega (arith, two-pow_pred k (omega arith)) in
        rw (live-base r h k p v live, live, upow_two k (omega (arith, v.upper, r.small)), half)
          (ground
            (arith, two-pow_pos (k - 1), two-pow_pred k (omega arith), block-le k p v, r.fits))

  halves : (j p : ℕ) → p / 2 ^ suc j ≡ p / 2 ^ j / 2
  halves j p =
      ap (λ t. p / t) (two-pow_suc j ∙ mul_comm 2 (2 ^ j)) ∙ sym (div-div-eq-div-mul p (2 ^ j) 2)

  -- From an ancestor of the block the walk leads to it.
  find_from :
      (j fuel ptr k p : ℕ)
      → InRange ref k p
      → IsUsed ref m k p
      → block_addr ref k p ≤ ptr
      → ptr < block_addr ref k p + 2 ^ k
      → k + j ≤ ref.max_pow_order
      → j < fuel
      → find_loop fuel ref m ptr (at ref (k + j) (p / 2 ^ j)) ≡ ok (at ref k p)
  find_from zero zero ptr k p v u a b c d = absurd (omega arith)
  find_from (suc j) zero ptr k p v u a b c d = absurd (omega arith)
  find_from zero (suc fuel) ptr k p v u a b c d =
      let e : k + zero ≡ k = omega arith in
      let f : p / 2 ^ zero ≡ p = omega arith in rw (e, f) (here_step fuel ptr k p v u)
  find_from (suc j) (suc fuel) ptr k p v u a b c d =
      let q : ℕ = p / 2 ^ suc j in
      let (w, live) = ancestor-IsLive r h (suc j) k p v c u.0 in
      let cut = ancestor r h j k p v c u.0 in
      let big : ref.min_pow_order < k + suc j = omega (arith, v.lower) in
      let order : k + suc j - 1 ≡ k + j = omega arith in
      let half : q ≡ p / 2 ^ j / 2 = halves j p in
      let (low, high) = within_ancestor j k p in
      let size : 2 ^ (k + suc j) ≡ 2 * 2 ^ (k + j) =
        let e : k + suc j ≡ suc (k + j) = omega arith in ap (λ t. 2 ^ t) e ∙ two-pow_suc (k + j) in
      let start : q * 2 ^ (k + suc j) ≡ q * (2 * 2 ^ (k + j)) = ap (λ t. q * t) size in
      let middle : 2 ^ (k + suc j - 1) ≡ 2 ^ (k + j) = ap (λ t. 2 ^ t) order in
      let rest = find_from j fuel ptr k p v u a b (omega arith) (omega arith) in
      let test =
        lower-half_lem fuel ptr (k + suc j) q w live cut big
          (omega (arith, (within_ancestor (suc j) k p).0)) in
      elim (ℕ_discrete (p / 2 ^ j % 2) 0) [
        | yes even ↦
            let child : p / 2 ^ j ≡ 2 * q = omega (arith, half) in
            left_step fuel ptr (k + suc j) q w live cut big
              (test ∙ lt→ltb _ _ (omega (arith, start, middle, ap (λ t. t * 2 ^ (k + j)) child)))
            ∙ ap₂ (λ x y. find_loop fuel ref m ptr (at ref x y)) order (sym child)
            ∙ rest
        | no odd ↦
            let child : p / 2 ^ j ≡ 2 * q + 1 = omega (arith, half) in
            right_step fuel ptr (k + suc j) q w live cut big
              (test ∙ le→ltb _ _ (omega (arith, start, middle, ap (λ t. t * 2 ^ (k + j)) child)))
            ∙ ap₂ (λ x y. find_loop fuel ref m ptr (at ref x y)) order (sym child)
            ∙ rest
      ]

  -- For any address in a block that is given out the search finds the slot of the block.
  pub find_slot_by_addr_lem :
      (ptr k p : ℕ)
      → InRange ref k p
      → IsUsed ref m k p
      → block_addr ref k p ≤ ptr
      → ptr < block_addr ref k p + 2 ^ k
      → find_slot_by_addr ref m ptr ≡ ok (at ref k p)
  unfolding find_slot_by_addr
  find_slot_by_addr_lem ptr k p v u a b =
      let j : ℕ = ref.max_pow_order - k in
      let order : k + j ≡ ref.max_pow_order = omega (arith, v.upper) in
      let place : p / 2 ^ j ≡ 0 = div-eq_of_lt v.place in
      let root : at ref (k + j) (p / 2 ^ j) ≡ goto_porder_idx ref ref.max_pow_order =
        ap₂ (λ x y. at ref x y) order place ∙ omega arith in
      ap (find_loop 256 ref m ptr) (sym root)
      ∙ find_from j 256 ptr k p v u a b (omega arith) (omega (arith, r.small))
