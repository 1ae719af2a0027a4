-- ===== src/Sort/Order.antt =====
-- The order of the array that src/kernel/lib/qsort.c leaves, for a comparison that is one of a total
-- preorder.
use native.Mathlib.Decide.{dec_lt}
use almeida_os.Base.{
  ℕ, zero, suc, ◌+◌, ◌-◌, ◌≤◌, ◌<◌, ◌≡◌, refl, sym, ap, ◌∙◌, subst, ◌⊎◌, inl, inr, Bool, true,
  false, arith, ltb, leb, ◌==◌, ==→eq, Bool-cases, Run, ok, bug, running, ◌>>=◌,
}
use almeida_os.Sort.{exch, partition_loop, partition, sort, qsort, shuffle}
use almeida_os.Sort.Rearrange.{Rearranged}
use almeida_os.Sort.Inside.{
  Inside, Inside-refl, Inside-trans, Inside-widen, Inside-exch, exch_left, exch_right, exch_other,
}
use almeida_os.Sort.Ends.{scan_up_lem, scan_down_lem, qsort_lem}

module _ {ℓ} {A : Type ℓ} (less : A → A → Bool)
    (asym : (x y : A) → less x y ≡ true → less y x ≡ false)
    (trans : (x y z : A) → less y x ≡ false → less z y ≡ false → less z x ≡ false) where
  -- `x` may stand before `y`
  abbrev pub Before : A → A → Type 0
  Before x y = less y x ≡ false

  Before-refl : (x : A) → Before x x
  Before-refl x = elim (Bool-cases (less x x)) [ inl e ↦ asym x x e | inr e ↦ e ]

  -- the state of a partition: all up to `i` may stand before the pivot, all from `j` on behind it
  abbrev Low : (ℕ → A) → ℕ → ℕ → Type 0
  Low a lo i = (k : ℕ) → lo < k → k ≤ i → Before (a k) (a lo)

  abbrev High : (ℕ → A) → ℕ → ℕ → ℕ → Type 0
  High a lo hi j = (k : ℕ) → j ≤ k → k ≤ hi → Before (a lo) (a k)

  -- The array is split at `j`.
  abbrev Split : (ℕ → A) → ℕ → ℕ → ℕ → Type 0
  Split d lo hi j =
      ((k : ℕ) → lo ≤ k → k < j → Before (d k) (d j))
      × ((k : ℕ) → j < k → k ≤ hi → Before (d j) (d k))

  -- what the two scans add to that state
  scanned-Low :
      (a : ℕ → A) (lo i i' : ℕ)
      → Low a lo i
      → ((k : ℕ) → i < k → k < i' → less (a k) (a lo) ≡ true)
      → (k : ℕ) → lo < k
      → k < i'
      → Before (a k) (a lo)
  scanned-Low a lo i i' low passed k p q = elim (dec_lt i k) [
    | yes h ↦ asym (a k) (a lo) (passed k h q)
    | no h ↦ low k p (omega arith)
  ]

  scanned-High :
      (a : ℕ → A) (lo hi j j' : ℕ)
      → High a lo hi j
      → ((k : ℕ) → j' < k → k < j → less (a lo) (a k) ≡ true)
      → (k : ℕ) → j' < k
      → k ≤ hi
      → Before (a lo) (a k)
  scanned-High a lo hi j j' high passed k p q = elim (dec_lt k j) [
    | yes h ↦ asym (a lo) (a k) (passed k p h)
    | no h ↦ high k (omega arith) q
  ]

  stop_low :
      (a : ℕ → A) (lo j' : ℕ) → (less (a lo) (a j') ≡ false) ⊎ (j' ≡ lo) → Before (a j') (a lo)
  stop_low a lo j' (inl e) = e
  stop_low a lo j' (inr e) = rw e (Before-refl (a lo))

  -- the last exchange, of the pivot
  crossed :
      (a : ℕ → A) (lo hi i' j' : ℕ)
      → lo ≤ j'
      → j' ≤ i'
      → ((k : ℕ) → lo < k → k < i' → Before (a k) (a lo))
      → ((k : ℕ) → j' < k → k ≤ hi → Before (a lo) (a k))
      → Before (a j') (a lo)
      → Split (exch a lo j') lo hi j'
  crossed a lo hi i' j' p q low high stop =
      let pivot = exch_right a lo j' in
      (
        λ k r s. elim (Bool-cases (k == lo)) [
          | inl e ↦
              let first : exch a lo j' k ≡ a j' =
                ap (exch a lo j') (==→eq k lo e) ∙ exch_left a lo j' in
              rw (first, pivot) stop
          | inr e ↦
              let other : exch a lo j' k ≡ a k =
                exch_other a lo j' k (ground arith) (omega arith) in
              rw (other, pivot) (low k (ground arith) (omega arith))
        ],
        λ k r s.
            let other : exch a lo j' k ≡ a k = exch_other a lo j' k (omega arith) (omega arith) in
            rw (other, pivot) (high k r s),
      )

  -- an exchange before that
  exchanged-Low :
      (a : ℕ → A) (lo i' j' : ℕ)
      → lo < i'
      → i' < j'
      → ((k : ℕ) → lo < k → k < i' → Before (a k) (a lo))
      → Before (a j') (a lo)
      → Low (exch a i' j') lo i'
  exchanged-Low a lo i' j' p q low stop k r s =
      let pivot = exch_other a i' j' lo (omega arith) (omega arith) in
      elim (Bool-cases (k == i')) [
        | inl e ↦
            let here : exch a i' j' k ≡ a j' =
              ap (exch a i' j') (==→eq k i' e) ∙ exch_left a i' j' in
            rw (here, pivot) stop
        | inr e ↦
            let other = exch_other a i' j' k (ground arith) (omega arith) in
            rw (other, pivot) (low k r (ground arith))
      ]

  exchanged-High :
      (a : ℕ → A) (lo hi i' j' : ℕ)
      → lo < i'
      → i' < j'
      → ((k : ℕ) → j' < k → k ≤ hi → Before (a lo) (a k))
      → Before (a lo) (a i')
      → High (exch a i' j') lo hi j'
  exchanged-High a lo hi i' j' p q high stop k r s =
      let pivot = exch_other a i' j' lo (omega arith) (omega arith) in
      elim (Bool-cases (k == j')) [
        | inl e ↦
            let here : exch a i' j' k ≡ a i' =
              ap (exch a i' j') (==→eq k j' e) ∙ exch_right a i' j' in
            rw (here, pivot) stop
        | inr e ↦
            let other = exch_other a i' j' k (omega arith) (ground arith) in
            rw (other, pivot) (high k (ground arith) s)
      ]

  stop_high :
      (a : ℕ → A) (lo hi i' : ℕ)
      → i' < hi
      → (less (a i') (a lo) ≡ false) ⊎ (i' ≡ hi)
      → Before (a lo) (a i')
  stop_high a lo hi i' h (inl e) = e
  stop_high a lo hi i' h (inr e) = absurd (omega arith)

  partition_order :
      (fuel : ℕ) (a : ℕ → A) (lo hi i j : ℕ)
      → lo ≤ i
      → i < hi
      → lo < j
      → j ≤ hi + 1
      → hi < i + fuel
      → Low a lo i
      → High a lo hi j
      → (k : ℕ) × (d : ℕ → A) × (partition_loop fuel less a lo hi i j ≡ ok (k, d))
        × (lo ≤ k)
        × (k ≤ hi)
        × Split d lo hi k
        × Inside lo (hi + 1) a d
  unfolding partition_loop
  partition_order zero a lo hi i j p q r s enough low high = absurd (omega arith)
  partition_order (suc fuel) a lo hi i j p q r s enough low high =
      let (i', up, i_above, i_below, i_passed, i_stop) =
        scan_up_lem less (hi + 1) a lo hi i q (omega arith) in
      let (j', down, j_below, j_above, j_passed, j_stop) =
        scan_down_lem less (hi + 2) a lo j r (omega arith) in
      let low' = scanned-Low a lo i i' low i_passed in
      let high' = scanned-High a lo hi j j' high j_passed in
      let stop = stop_low a lo j' j_stop in
      elim (Bool-cases (leb j' i')) [
        | inl e ↦ (
          j',
          exch a lo j',
          rw (partition_loop, up, ◌>>=◌, down, ◌>>=◌, e) refl,
          j_above,
          omega arith,
          crossed a lo hi i' j' j_above (ground arith) low' high' stop,
          Inside-exch lo (hi + 1) a lo j' (omega arith) (omega arith) j_above (omega arith),
        )
        | inr e ↦
            let apart : i' < j' = ground arith in
            let stop' = stop_high a lo hi i' (omega arith) i_stop in
            let (k, d, run, above, below, halves, inside) =
              partition_order fuel (exch a i' j') lo hi i' j' (omega arith) (omega arith)
                (omega arith) (omega arith) (omega arith)
                (exchanged-Low a lo i' j' (omega arith) apart low' stop)
                (exchanged-High a lo hi i' j' (omega arith) apart high' stop') in
            (
              k,
              d,
              rw (partition_loop, up, ◌>>=◌, down, ◌>>=◌, e) run,
              above,
              below,
              halves,
              Inside-trans lo (hi + 1) a (exch a i' j') d
                  (Inside-exch lo (hi + 1) a i' j' (omega arith) (omega arith) (omega arith)
                    (omega arith))
                  inside,
            )
      ]

  abbrev pub InOrder : (ℕ → A) → ℕ → ℕ → Type 0
  InOrder a lo end = (x y : ℕ) → lo ≤ x → x ≤ y → y < end → Before (a x) (a y)

  -- Two parts in order around a place of the split.
  joined :
      (d : ℕ → A) (lo end j : ℕ)
      → ((x : ℕ) → lo ≤ x → x < j → Before (d x) (d j))
      → ((y : ℕ) → j < y → y < end → Before (d j) (d y))
      → InOrder d lo j
      → InOrder d (j + 1) end
      → InOrder d lo end
  joined d lo end j below above left right x y p q r = elim (dec_lt y j) [
    | yes h ↦ left x y p q h
    | no h ↦ elim (dec_lt j x) [
      | yes g ↦ right x y (omega arith) q r
      | no g ↦ trans (d x) (d j) (d y) (to_place x p (omega arith)) (from_place y (omega arith) r)
    ]
  ]
    where
      to_place : (x : ℕ) → lo ≤ x → x ≤ j → Before (d x) (d j)
      to_place x p q = elim (dec_lt x j) [
        | yes h ↦ below x p h
        | no h ↦ let e : x ≡ j = omega arith in rw e (Before-refl (d j))
      ]

      from_place : (y : ℕ) → j ≤ y → y < end → Before (d j) (d y)
      from_place y p q = elim (dec_lt j y) [
        | yes h ↦ above y h q
        | no h ↦ let e : y ≡ j = omega arith in rw e (Before-refl (d j))
      ]

  -- the array after both parts are sorted
  parts :
      (b c d : ℕ → A) (lo hi end j : ℕ)
      → end ≡ hi + 1
      → lo ≤ j
      → j ≤ hi
      → Split b lo hi j
      → Inside lo j b c
      → InOrder c lo j
      → Inside (j + 1) end c d
      → InOrder d (j + 1) end
      → InOrder d lo end
  parts b c d lo hi end j e p q (low, high) (out, in_) left (out', in') right =
      let place : d j ≡ b j = out' j (inl (omega arith)) ∙ out j (inr (omega arith)) in
      joined d lo end j
        (λ x r s.
          let (m, u, v, f) = in_ x r s in
          let here : d x ≡ b m = out' x (inl (omega arith)) ∙ f in rw (here, place) (low m u v))
        (λ y r s.
          let (m, u, v, f) = in' y (omega arith) s in
          let here : d y ≡ b m = f ∙ out m (inr (omega arith)) in
          rw (here, place) (high m (omega arith) (omega arith)))
        (λ x y r s t.
          let here : d x ≡ c x = out' x (inl (omega arith)) in
          let there : d y ≡ c y = out' y (inl (omega arith)) in rw (here, there) (left x y r s t))
        right

  sort_order :
      (fuel : ℕ) (a : ℕ → A) (lo hi end : ℕ)
      → end ≡ hi + 1
      → 1 ≤ fuel
      → hi < lo + fuel
      → (c : ℕ → A) × (sort fuel less a lo hi ≡ ok c) × Inside lo end a c × InOrder c lo end
  unfolding sort partition
  sort_order zero a lo hi end z p q = absurd (omega arith)
  sort_order (suc fuel) a lo hi end z p q = elim (Bool-cases (leb hi lo)) [
    | inl e ↦ (
      a,
      rw (sort, e) refl,
      Inside-refl lo end a,
      λ x y r s t. let f : y ≡ x = ground arith in rw f (Before-refl (a x)),
    )
    | inr e ↦
        let apart : lo < hi = ground arith in
        let (j, b, split, above, below, halves, moved) =
          partition_order (hi + 1) a lo hi lo (hi + 1) (omega arith) apart (omega arith)
            (omega arith) (omega arith) (λ k r s. absurd (omega arith))
            (λ k r s. absurd (omega arith)) in
        let moved' : Inside lo end a b =
          Inside-widen lo (hi + 1) lo end a b (omega arith) (omega arith) moved in
        elim (Bool-cases (ltb 0 j)) [
          | inl f ↦
              let (c, left, kept, order) =
                sort_order fuel b lo (j - 1) j (ground arith) (omega arith) (ground arith) in
              let (d, right, kept', order') =
                sort_order fuel c (j + 1) hi end z (omega arith) (omega arith) in
              (
                d,
                rw (sort, partition, e, split, f, left) right,
                Inside-trans lo end a b d moved' (
                    Inside-trans lo end b c d
                      (Inside-widen lo j lo end b c (omega arith) (omega arith) kept)
                      (Inside-widen (j + 1) end lo end c d (omega arith) (omega arith) kept')),
                parts b c d lo hi end j z above below halves kept order kept' order',
              )
          | inr f ↦
              let first : j ≡ 0 = ground arith in
              let (d, right, kept', order') =
                sort_order fuel b (j + 1) hi end z (omega arith) (omega arith) in
              (
                d,
                rw (sort, partition, e, split, f) right,
                Inside-trans lo end a b d moved'
                    (Inside-widen (j + 1) end lo end b d (omega arith) (omega arith) kept'),
                parts b b d lo hi end j z above below halves (Inside-refl lo j b)
                    (λ x y r s t. absurd (omega arith)) kept' order',
              )
        ]
  ]

  -- `qsort` ends, for a comparison that is the strict part of a total preorder, with the elements of
  -- the array in an order of that comparison: none is lost or doubled, and no later one is less than
  -- an earlier one.
  pub qsort_order :
      (n seed : ℕ) (a : ℕ → A)
      → (seed' : ℕ) × (c : ℕ → A) × (qsort n less seed a ≡ ok (seed', c))
        × Rearranged n a c
        × InOrder c 0 n
  unfolding qsort
  qsort_order n seed a = by_run (qsort_lem n less seed a)
    where
      array_of : Run (ℕ × (ℕ → A)) → ℕ → A
      array_of (ok (seed', c)) = c
      array_of bug = a
      array_of running = a

      by_run :
          (seed' : ℕ) × (c : ℕ → A) × (qsort n less seed a ≡ ok (seed', c)) × Rearranged n a c
          → (seed' : ℕ) × (c : ℕ → A) × (qsort n less seed a ≡ ok (seed', c))
            × Rearranged n a c
            × InOrder c 0 n
      by_run (seed', c, run, kept) = elim (Bool-cases (ltb n 2)) [
        | inl e ↦ (
          seed',
          c,
          run,
          kept,
          λ x y p q r. let f : y ≡ x = ground arith in rw f (Before-refl (c x)),
        )
        | inr e ↦
            let b = (shuffle n seed a).1 in
            let (c', run', inside, order) =
              sort_order (n + 1) b 0 (n - 1) n (ground arith) (omega arith) (omega arith) in
            let whole : qsort n less seed a ≡ ok ((shuffle n seed a).0, c') =
              rw (qsort, e, run') refl in
            let same : c' ≡ c = ap array_of (sym whole ∙ run) in
            (seed', c, run, kept, subst (λ f. InOrder f 0 n) same order)
      ]
