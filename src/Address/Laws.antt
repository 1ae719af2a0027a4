-- ===== src/Address/Laws.antt =====
-- The two conversions of src/kernel/mm/addressconv.c.
use native.Mathlib.Decide.{dec_lt}
use almeida_os.Base.{
  ℕ, ◌+◌, ◌-◌, ◌%◌, ◌^◌, ◌≤◌, ◌<◌, ◌≡◌, refl, ap, ◌⊎◌, inl, inr, true, false, arith, ltb, lt→ltb,
  le→ltb, ok, bug, ◌>>=◌,
}
use almeida_os.Address.{va, pa, virt_addr_kernel_start, phys_addr_max_boundary}

-- A physical address below 2 ^ 47 has a virtual one, and `pa` takes it back. From 2 ^ 47 up to the
-- bound of 2 ^ 48 that `va` checks the sum wraps, and `pa` halts on it. From 2 ^ 48 on `va` halts.
pub va-cases :
    (p : ℕ)
    → ((p < 2 ^ 47) × (va p ≡ ok (virt_addr_kernel_start + p)) × ((va p >>= pa) ≡ ok p))
      ⊎ ((2 ^ 47 ≤ p) × (p < 2 ^ 48) × (va p ≡ ok (p - 2 ^ 47)) × ((va p >>= pa) ≡ bug))
      ⊎ ((2 ^ 48 ≤ p) × (va p ≡ bug))
unfolding va pa
va-cases p = elim (dec_lt p (2 ^ 47)) [
  | yes a ↦
      let e : ltb phys_addr_max_boundary p ≡ false = le→ltb _ _ (omega arith) in
      let s : (18446603336221196288 + p) % 2 ^ 64 ≡ 18446603336221196288 + p = omega arith in
      let e' : ltb (18446603336221196288 + p) phys_addr_max_boundary ≡ false =
        le→ltb _ _ (omega arith) in
      inl (a, rw (e, s) refl, rw (e, s, e') (ap (λ t. ok t) (omega arith)))
  | no a ↦ elim (dec_lt p (2 ^ 48)) [
    | yes b ↦
        let e : ltb phys_addr_max_boundary p ≡ false = le→ltb _ _ (omega arith) in
        let s : (18446603336221196288 + p) % 2 ^ 64 ≡ p - 2 ^ 47 = omega arith in
        let e' : ltb (p - 2 ^ 47) phys_addr_max_boundary ≡ true = lt→ltb _ _ (omega arith) in
        inr (inl (omega arith, b, rw (e, s) refl, rw (e, s, e') refl))
    | no b ↦
        let e : ltb phys_addr_max_boundary p ≡ true = lt→ltb _ _ (omega arith) in
        inr (inr (omega arith, rw e refl))
  ]
]

pub va_low : (p : ℕ) → p < 2 ^ 47 → va p ≡ ok (virt_addr_kernel_start + p)
va_low p h = elim (va-cases p) [
  | inl (_, e, _) ↦ e
  | inr (inl (a, _, _, _)) ↦ absurd (omega arith)
  | inr (inr (a, _)) ↦ absurd (omega arith)
]
