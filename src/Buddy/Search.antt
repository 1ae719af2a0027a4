-- ===== src/Buddy/Search.antt =====
-- `find_free_slot` of src/kernel/mm/buddy.c: it finds an unused slot of the order if there is one.
use almeida_os.Base.{
  ℕ, zero, suc, ◌+◌, ◌≤◌, ◌<◌, ◌≡◌, refl, sym, ap, ◌∙◌, ◌⊎◌, inl, inr, true, false, Option, none,
  some, Bool-cases, arith,
}
use almeida_os.Buddy.{Slots, BuddyRef, goto_porder_idx, n_of_entries}
use almeida_os.Buddy.Coords.{IsRef, InRange, at, n_of_entries_lem}
use almeida_os.Buddy.Valid.{IsValid, IsFree}
use almeida_os.Buddy.Alloc.{is_free, scan, find_free_slot}

abbrev Scanned : Slots → ℕ → ℕ → Option ℕ → Type 0
Scanned m n i o =
    ((o ≡ none) × ((q : ℕ) → q < n → is_free (m (i + q)) ≡ false))
    ⊎ ((q : ℕ) × (o ≡ some (i + q)) × (q < n) × (is_free (m (i + q)) ≡ true))

scan-Scanned : (m : Slots) (n i : ℕ) → Scanned m n i (scan m n i)
unfolding scan
scan-Scanned m zero i = inl (refl, λ q h. absurd (omega arith))
scan-Scanned m (suc n) i = elim (Bool-cases (is_free (m i))) [
  | inl e ↦
      let z : i ≡ i + 0 = omega arith in
      rw e (inr (0, ap some z, omega arith, ap (λ t. is_free (m t)) (sym z) ∙ e))
  | inr e ↦ rw e (step e (scan-Scanned m n (i + 1)))
]
  where
    shift : (q : ℕ) → i + 1 + q ≡ i + suc q
    shift q = omega arith

    step :
        is_free (m i) ≡ false
        → Scanned m n (i + 1) (scan m n (i + 1))
        → Scanned m (suc n) i (scan m n (i + 1))
    step e (inl (a, b)) = inl (a, below)
      where
        below : (q : ℕ) → q < suc n → is_free (m (i + q)) ≡ false
        below zero c = let z : i + 0 ≡ i = omega arith in ap (λ t. is_free (m t)) z ∙ e
        below (suc q) c = ap (λ t. is_free (m t)) (sym (shift q)) ∙ b q (omega arith)
    step e (inr (q, a, b, c)) =
        inr (suc q, a ∙ ap some (shift q), omega arith, ap (λ t. is_free (m t)) (sym (shift q)) ∙ c)

module _ {ref : BuddyRef} {m : Slots} (r : IsRef ref) (h : IsValid ref m) where
  is_free-IsFree : (k p : ℕ) → InRange ref k p → is_free (m (at ref k p)) ≡ true → IsFree ref m k p
  is_free-IsFree k p v e = ground (arith, h.shape k p v)

  IsFree-is_free : (k p : ℕ) → InRange ref k p → IsFree ref m k p → is_free (m (at ref k p)) ≡ true
  IsFree-is_free k p v f = ground (arith, r.min_positive, v.lower)

  abbrev pub Found : ℕ → Option ℕ → Type 0
  Found k o =
      ((o ≡ none) × ((p : ℕ) → InRange ref k p → ¬ IsFree ref m k p))
      ⊎ ((p : ℕ) × (o ≡ some (at ref k p)) × InRange ref k p × IsFree ref m k p)

  -- The search fails only if no block of the order is free.
  pub find_free_slot-Found :
      (k : ℕ) → ref.min_pow_order ≤ k → k ≤ ref.max_pow_order → Found k (find_free_slot ref m k)
  unfolding find_free_slot
  find_free_slot-Found k a b = convert (scan-Scanned m (n_of_entries ref k) (goto_porder_idx ref k))
    where
      convert :
          Scanned m
            (n_of_entries ref k)
            (goto_porder_idx ref k)
            (scan m (n_of_entries ref k) (goto_porder_idx ref k))
          → Found k (scan m (n_of_entries ref k) (goto_porder_idx ref k))
      convert (inl (e, none_free)) = inl (
        e,
        λ p v f.
            let bad : true ≡ false =
              sym (IsFree-is_free k p v f)
              ∙ none_free p (omega (arith, v.place, n_of_entries_lem r k b)) in
            cc,
      )
      convert (inr (p, e, inside, free)) =
          let v : InRange ref k p = record {
            lower = a;
            upper = b;
            place = omega (arith, n_of_entries_lem r k b);
          } in
          inr (p, e, v, is_free-IsFree k p v free)
