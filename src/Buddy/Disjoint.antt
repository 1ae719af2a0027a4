-- ===== src/Buddy/Disjoint.antt =====
-- No two blocks that src/kernel/mm/buddy.c has given out overlap.
use native.Mathlib.Decide.{dec_lt}
use native.Mathlib.Nat.{mul-le-mul_right, div-mul-le_self, lt-div-mul-add, mul_assoc}
use almeida_os.Base.{
  ℕ, zero, suc, ◌+◌, ◌-◌, ◌*◌, ◌/◌, ◌^◌, ◌≤◌, ◌≡◌, ◌≢◌, refl, sym, ap, ap₂, ◌∙◌, ◌⊎◌, inl, inr,
  subst, arith,
}
use almeida_os.Word.Bits.{half-shr, two-pow_add, two-pow_pos}
use almeida_os.Buddy.{split, used, Slots, BuddyRef}
use almeida_os.Buddy.Coords.{IsRef, InRange, at, parent-InRange}
use almeida_os.Buddy.Valid.{IsLive, IsValid, IsUsed, block_addr}

abbrev IsSplit : BuddyRef → Slots → ℕ → ℕ → Type 0
IsSplit ref m k p = (m (at ref k p)).type ≡ split

-- A block lies within that of its ancestor.
pub within_ancestor :
    (j k p : ℕ)
    → (p / 2 ^ j * 2 ^ (k + j) ≤ p * 2 ^ k)
      × (p * 2 ^ k + 2 ^ k ≤ p / 2 ^ j * 2 ^ (k + j) + 2 ^ (k + j))
within_ancestor j k p =
    let a : ℕ = p / 2 ^ j in
    let size : 2 ^ (k + j) ≡ 2 ^ j * 2 ^ k = omega (arith, two-pow_add k j) in
    let total : a * 2 ^ (k + j) ≡ a * 2 ^ j * 2 ^ k =
      ap (λ t. a * t) size ∙ sym (mul_assoc a (2 ^ j) (2 ^ k)) in
    (
      omega (arith, total, mul-le-mul_right (2 ^ k) (div-mul-le_self p (2 ^ j))),
      omega (
        arith,
        total,
        size,
        mul-le-mul_right {m = suc p} {n = a * 2 ^ j + 2 ^ j} (2 ^ k)
            (lt-div-mul-add {a = p} (two-pow_pos j)),
      ),
    )

module _ {ref : BuddyRef} {m : Slots} (r : IsRef ref) (h : IsValid ref m) where
  -- Every proper ancestor of a live slot is split.
  pub ancestor :
      (j k p : ℕ)
      → InRange ref k p
      → k + suc j ≤ ref.max_pow_order
      → IsLive ref m k p
      → IsSplit ref m (k + suc j) (p / 2 ^ suc j)
  ancestor zero k p v b live =
      let e : k + 1 ≡ k + suc zero = omega arith in
      let f : p / 2 ≡ p / 2 ^ suc zero = refl in
      subst (λ i. IsSplit ref m i (p / 2 ^ suc zero)) e (h.above k p v (omega arith) live).1
  ancestor (suc j) k p v b live =
      let e : k + 1 + suc j ≡ k + suc (suc j) = omega arith in
      let up = h.above k p v (omega arith) live in
      subst (λ i. IsSplit ref m i (p / 2 ^ suc (suc j))) e
        (subst (λ x. IsSplit ref m (k + 1 + suc j) x) (sym (half-shr (suc j) p))
          (ancestor j (k + 1) (p / 2) (parent-InRange r k p v (omega arith)) (omega arith) up.0))

  pub ancestor-IsLive :
      (j k p : ℕ)
      → InRange ref k p
      → k + j ≤ ref.max_pow_order
      → IsLive ref m k p
      → InRange ref (k + j) (p / 2 ^ j) × IsLive ref m (k + j) (p / 2 ^ j)
  ancestor-IsLive zero k p v b live =
      let e : k + zero ≡ k = omega arith in
      let f : p / 2 ^ zero ≡ p = omega arith in rw (e, f) (v, live)
  ancestor-IsLive (suc j) k p v b live =
      let e : k + suc j ≡ k + 1 + j = omega arith in
      rw (e, half-shr j p)
        (ancestor-IsLive j (k + 1) (p / 2) (parent-InRange r k p v (omega arith)) (omega arith)
          (h.above k p v (omega arith) live).0)

  abbrev Apart : ℕ → ℕ → ℕ → ℕ → Type 0
  Apart k p l q =
      (block_addr ref k p + 2 ^ k ≤ block_addr ref l q)
      ⊎ (block_addr ref l q + 2 ^ l ≤ block_addr ref k p)

  Apart-below : (j k p l q : ℕ) → l ≡ k + j → p / 2 ^ j ≢ q → Apart k p l q
  Apart-below j k p l q e n = elim (dec_lt (p / 2 ^ j) q) [
    | yes a ↦ inl (
        omega (
          arith,
          (within_ancestor j k p).1,
          ap (λ t. 2 ^ t) e,
          ap (λ t. q * 2 ^ t) e,
          mul-le-mul_right {m = suc (p / 2 ^ j)} {n = q} (2 ^ (k + j)) a,
        ))
    | no a ↦ inr (
        omega (
          arith,
          (within_ancestor j k p).0,
          ap (λ t. 2 ^ t) e,
          ap (λ t. q * 2 ^ t) e,
          mul-le-mul_right {m = suc q} {n = p / 2 ^ j} (2 ^ (k + j)) (omega arith),
        ))
  ]

  used_below :
      (j k p l q : ℕ)
      → InRange ref k p
      → InRange ref l q
      → IsUsed ref m k p
      → IsUsed ref m l q
      → l ≡ k + suc j
      → Apart k p l q
  used_below j k p l q v w a b e = Apart-below (suc j) k p l q e (λ same.
      let s : split ≡ used =
        sym (ancestor j k p v (omega (arith, w.upper)) a.0)
        ∙ ap₂ (λ x y. (m (at ref x y)).type) (sym e) same
        ∙ b.1 in
      cc)

  -- Two different blocks that are given out share no address.
  pub used_disjoint :
      (k p l q : ℕ)
      → InRange ref k p
      → InRange ref l q
      → IsUsed ref m k p
      → IsUsed ref m l q
      → (k ≡ l → p ≢ q)
      → (block_addr ref k p + 2 ^ k ≤ block_addr ref l q)
        ⊎ (block_addr ref l q + 2 ^ l ≤ block_addr ref k p)
  used_disjoint k p l q v w a b n = elim (dec_lt k l) [
    | yes c ↦ used_below (l - k - 1) k p l q v w a b (omega arith)
    | no c ↦ elim (dec_lt l k) [
      | yes d ↦ flip (used_below (k - l - 1) l q k p w v b a (omega arith))
      | no d ↦ level (omega arith)
    ]
  ]
    where
      flip : Apart l q k p → Apart k p l q
      flip (inl x) = inr x
      flip (inr x) = inl x

      level : k ≡ l → Apart k p l q
      level e = Apart-below 0 k p l q (omega arith) (λ s. n e (omega arith))
