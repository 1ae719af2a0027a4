-- ===== src/Buddy/Valid.antt =====
-- The invariant of the header of src/kernel/mm/buddy.c: its slots form a binary tree of blocks.
use native.Mathlib.Nat.{mul-le-mul_right}
use native.Mathlib.Decide.{ℕ_discrete}
use almeida_os.Base.{
  ℕ, suc, ◌+◌, ◌-◌, ◌*◌, ◌/◌, ◌^◌, ◌≤◌, ◌<◌, ◌≡◌, ◌≢◌, ap, ◌∙◌, ◌⊎◌, inl, inr, arith,
}
use almeida_os.Word.Bits.{two-pow_suc, two-pow_add}
use almeida_os.Buddy.{unused, split, used, Slot, Slots, BuddyRef, zero_slot}
use almeida_os.Buddy.Coords.{IsRef, InRange, at}

-- A slot in use by the tree knows its order.
abbrev pub IsLive : BuddyRef → Slots → ℕ → ℕ → Type 0
IsLive ref m k p = (m (at ref k p)).pow_order ≡ k

-- a block that can be given out, and one that is given out
abbrev pub IsFree : BuddyRef → Slots → ℕ → ℕ → Type 0
IsFree ref m k p = IsLive ref m k p × ((m (at ref k p)).type ≡ unused)

abbrev pub IsUsed : BuddyRef → Slots → ℕ → ℕ → Type 0
IsUsed ref m k p = IsLive ref m k p × ((m (at ref k p)).type ≡ used)

-- the address of the block of order `k` at place `p`
abbrev pub block_addr : BuddyRef → ℕ → ℕ → ℕ
block_addr ref k p = ref.content_mem_reg.base_addr + p * 2 ^ k

pub record IsValid (ref : BuddyRef) (m : Slots) : Type 0 where
  pub root : IsLive ref m ref.max_pow_order 0
  pub shape :
      (k p : ℕ)
      → InRange ref k p
      → (IsLive ref m k p × ((m (at ref k p)).base_addr ≡ block_addr ref k p))
        ⊎ (m (at ref k p) ≡ zero_slot)
  pub above :
      (k p : ℕ)
      → InRange ref k p
      → k < ref.max_pow_order
      → IsLive ref m k p
      → IsLive ref m (k + 1) (p / 2) × ((m (at ref (k + 1) (p / 2))).type ≡ split)
  pub below :
      (k p : ℕ)
      → InRange ref k p
      → ref.min_pow_order < k
      → IsLive ref m k p
      → (m (at ref k p)).type ≡ split
      → IsLive ref m (k - 1) (2 * p) × IsLive ref m (k - 1) (2 * p + 1)
  pub floor :
      (p : ℕ) → InRange ref ref.min_pow_order p → (m (at ref ref.min_pow_order p)).type ≢ split

pub two-pow_pred : (k : ℕ) → 0 < k → 2 ^ k ≡ 2 * 2 ^ (k - 1)
two-pow_pred k h = let e : k ≡ suc (k - 1) = omega arith in ap (λ t. 2 ^ t) e ∙ two-pow_suc (k - 1)

-- A block lies within the content region.
pub block-le :
    {ref : BuddyRef} (k p : ℕ) → InRange ref k p → p * 2 ^ k + 2 ^ k ≤ 2 ^ ref.max_pow_order
block-le {ref} k p v =
    let total : ref.max_pow_order ≡ ref.max_pow_order - k + k = omega (arith, v.upper) in
    omega (
      arith,
      ap (λ t. 2 ^ t) total ∙ two-pow_add (ref.max_pow_order - k) k,
      mul-le-mul_right {m = suc p} {n = 2 ^ (ref.max_pow_order - k)} (2 ^ k) v.place,
    )

-- A live slot has the address of its block.
pub live-base :
    {ref : BuddyRef} {m : Slots}
    → IsRef ref
    → IsValid ref m
    → (k p : ℕ) → InRange ref k p
    → IsLive ref m k p
    → (m (at ref k p)).base_addr ≡ block_addr ref k p
live-base {ref} {m} r h k p v l = from_shape (h.shape k p v)
  where
    from_shape :
        (IsLive ref m k p × ((m (at ref k p)).base_addr ≡ block_addr ref k p))
          ⊎ (m (at ref k p) ≡ zero_slot)
        → (m (at ref k p)).base_addr ≡ block_addr ref k p
    from_shape (inl s) = s.1
    from_shape (inr s) =
        absurd (omega (arith, l, ap (λ t. Slot.pow_order t) s, r.min_positive, v.lower))

-- How coordinates stand to the slot `(k, p)` that is split or merged.
pub data Place (k p l q : ℕ) : Type 0 where
  here : l ≡ k → q ≡ p → Place k p l q
  left : l + 1 ≡ k → q ≡ 2 * p → Place k p l q
  right : l + 1 ≡ k → q ≡ 2 * p + 1 → Place k p l q
  other : (l ≡ k → q ≢ p) → (l + 1 ≡ k → q / 2 ≢ p) → Place k p l q

pub locate : (k p l q : ℕ) → Place k p l q
locate k p l q = elim (ℕ_discrete l k) [
  | yes a ↦ elim (ℕ_discrete q p) [
    | yes b ↦ here a b
    | no b ↦ other (λ _. b) (λ c. absurd (omega arith))
  ]
  | no a ↦ elim (ℕ_discrete (l + 1) k) [
    | yes c ↦ elim (ℕ_discrete q (2 * p)) [
      | yes d ↦ left c d
      | no d ↦ elim (ℕ_discrete q (2 * p + 1)) [
        | yes e ↦ right c e
        | no e ↦ other (λ f. absurd (a f)) (λ _. λ g. omega arith)
      ]
    ]
    | no c ↦ other (λ f. absurd (a f)) (λ g. absurd (c g))
  ]
]
