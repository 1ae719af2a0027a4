-- ===== src/Buddy/Promise.antt =====
-- What `buddy_alloc` of src/kernel/mm/buddy.c promises to `kmalloc`.
use native.Mathlib.Decide.{dec_lt, ℕ_discrete}
use almeida_os.Base.{
  ℕ, suc, ◌+◌, ◌-◌, ◌*◌, ◌^◌, ◌≤◌, ◌<◌, ◌≡◌, refl, ap, ◌∙◌, ◌⊎◌, inl, inr, false, ◌==◌, ltb, ◌||◌,
  Bool-cases, ltb→lt, ltb→le, arith,
}
use almeida_os.Word.{u8}
use almeida_os.Word.Bits.{two-pow-lt, two-pow_suc, two-pow_pos}
use almeida_os.Maths.{ilog2, clp2, smear_all, smear, round, ilog2_start}
use almeida_os.Maths.Log.{ilog2_lem}
use almeida_os.Maths.Smear.{clp2_lem}
use almeida_os.Buddy.{Slots, BuddyRef}
use almeida_os.Buddy.Coords.{IsRef}
use almeida_os.Buddy.Valid.{IsValid}
use almeida_os.Buddy.AllocLaws.{Outcome, climb}
use almeida_os.Buddy.Alloc.{order_of, buddy_alloc}

pow_reflects : (a b : ℕ) → 2 ^ a < 2 ^ b → a < b
pow_reflects a b h = elim (dec_lt a b) [
  | yes c ↦ c
  | no c ↦ elim (ℕ_discrete a b) [
    | yes e ↦ absurd (omega (arith, ap (λ t. 2 ^ t) e))
    | no e ↦ absurd (omega (arith, two-pow-lt b a (omega arith)))
  ]
]

pub ilog2_pow : (n : ℕ) → n < 64 → ilog2 (2 ^ n) ≡ n
ilog2_pow n h =
    let (a, b) = ilog2_lem (2 ^ n) (two-pow_pos n) (two-pow-lt n 64 h) in
    let low : n < ilog2 (2 ^ n) + 1 = pow_reflects n _ b in
    let high : ilog2 (2 ^ n) < n + 1 =
      pow_reflects _ (n + 1) (omega (arith, a, two-pow-lt n (n + 1) (omega arith))) in
    omega arith

log_one : ilog2 (clp2 1) ≡ 0
unfolding clp2 smear_all smear ilog2 round ilog2_start
log_one = refl

-- The order of the smallest power of two that is no less than the request.
log_up :
    (bytes n : ℕ)
    → 0 < bytes
    → bytes ≤ 2 ^ n
    → n < 64
    → (j : ℕ) × (u8 (ilog2 (clp2 bytes)) ≡ j) × (j ≤ n) × (bytes ≤ 2 ^ j) × (2 ^ j < 2 * bytes)
log_up bytes n a b c = elim (ℕ_discrete bytes 1) [
  | yes e ↦ (0, rw e (ap u8 log_one), omega arith, omega arith, omega arith)
  | no e ↦
      let j : ℕ = ilog2 (bytes - 1) in
      let (x, y) = ilog2_lem (bytes - 1) (omega arith) (omega (arith, two-pow-lt n 64 c)) in
      let below : j < n = pow_reflects j n (omega arith) in
      let y' : bytes ≤ 2 ^ suc j =
        let e : j + 1 ≡ suc j = omega arith in omega (arith, ap (λ t. 2 ^ t) e) in
      (
        suc j,
        ap (λ t. u8 (ilog2 t)) (clp2_lem j bytes (omega arith) (omega arith) y')
            ∙ ap u8 (ilog2_pow (suc j) (omega arith))
            ∙ omega arith,
        omega arith,
        y',
        omega (arith, two-pow_suc j),
      )
]

-- A request gets the smallest order that holds it, and no order below the smallest block's.
pub order_of_lem :
    {ref : BuddyRef} (bytes : ℕ)
    → IsRef ref
    → 0 < bytes
    → bytes ≤ ref.content_mem_reg.length
    → (ref.min_pow_order ≤ order_of ref bytes)
      × (order_of ref bytes ≤ ref.max_pow_order)
      × (bytes ≤ 2 ^ order_of ref bytes)
      × ((order_of ref bytes ≡ ref.min_pow_order) ⊎ (2 ^ order_of ref bytes < 2 * bytes))
unfolding order_of
order_of_lem {ref} bytes r a b =
    let (j, e, top, holds, tight) =
      log_up bytes ref.max_pow_order a (omega (arith, b, r.extent)) r.small in
    elim (Bool-cases (ltb (u8 (ilog2 (clp2 bytes))) ref.min_pow_order)) [
      | inl t ↦
          let small : j < ref.min_pow_order = omega (arith, ltb→lt _ _ t) in
          rw t
            (omega arith, r.ordered, omega (arith, two-pow-lt j ref.min_pow_order small), inl refl)
      | inr t ↦
          let large : ref.min_pow_order ≤ j = omega (arith, ltb→le _ _ t) in
          rw (t, e) (large, top, holds, inr tight)
    ]

-- `buddy_alloc` ends. It gives out one block of the request's order that no block in use was, and
-- changes no other; or it halts, and then no block of that order or a larger one is free.
pub buddy_alloc_lem :
    {ref : BuddyRef} {m : Slots} (bytes : ℕ)
    → IsRef ref
    → IsValid ref m
    → 0 < bytes
    → bytes ≤ ref.content_mem_reg.length
    → Outcome ref m (order_of ref bytes) (buddy_alloc ref bytes m)
unfolding buddy_alloc
buddy_alloc_lem {ref} {m} bytes r h a b =
    let (lo, hi, _, _) = order_of_lem bytes r a b in
    let accepted : (bytes == 0 || ltb ref.content_mem_reg.length bytes) ≡ false = ground arith in
    rw accepted (
      climb r 256 (order_of ref bytes) (order_of ref bytes) h lo (omega arith) hi
        (λ j q s t _. absurd (omega arith)) (omega (arith, r.small)))
