-- ===== src/Sort/Ends.antt =====
-- The end of the recursion of src/kernel/lib/qsort.c, and what is in the array then.
use almeida_os.Base.{
  ℕ, zero, suc, ◌+◌, ◌-◌, ◌≤◌, ◌<◌, ◌≡◌, refl, ap, ◌∙◌, ◌≢◌, ◌⊎◌, inl, inr, Bool, true, false, ◌&&◌,
  not, arith, ltb, leb, ◌==◌, ==→eq, Bool-cases, ok, ◌>>=◌,
}
use almeida_os.Sort.{exch, scan_up, scan_down, partition_loop, partition, sort, qsort, shuffle}
use almeida_os.Sort.Rearrange.{
  Rearranged, Rearranged-refl, Rearranged-trans, Rearranged-exch, shuffle-Rearranged,
}

left_of : (x y : Bool) → x && y ≡ true → x ≡ true
left_of true y e = refl
left_of false y e = e

-- the place that a scan has just passed, and those after it
first_passed :
    (test : ℕ → Bool) (k place : ℕ) (other : Bool)
    → test place && other ≡ true
    → (place < k → test k ≡ true)
    → place ≤ k
    → test k ≡ true
first_passed test k place other e rest h = elim (Bool-cases (k == place)) [
  | inl f ↦ ap test (==→eq k place f) ∙ left_of (test place) other e
  | inr f ↦ rest (ground arith)
]

last_passed :
    (test : ℕ → Bool) (k place : ℕ) (other : Bool)
    → test place && other ≡ true
    → (k < place → test k ≡ true)
    → k ≤ place
    → test k ≡ true
last_passed test k place other e rest h = elim (Bool-cases (k == place)) [
  | inl f ↦ ap test (==→eq k place f) ∙ left_of (test place) other e
  | inr f ↦ rest (ground arith)
]

stopped : (x : Bool) (i end : ℕ) → x && not (i == end) ≡ false → (x ≡ false) ⊎ (i ≡ end)
stopped false i end e = inl refl
stopped true i end e = inr (ground arith)

module _ {ℓ} {A : Type ℓ} (less : A → A → Bool) where
  pub scan_up_lem :
      (fuel : ℕ) (a : ℕ → A) (lo hi i : ℕ)
      → i < hi
      → hi ≤ i + fuel
      → (i' : ℕ) × (scan_up fuel less a lo hi i ≡ ok i')
        × (i < i')
        × (i' ≤ hi)
        × ((k : ℕ) → i < k → k < i' → less (a k) (a lo) ≡ true)
        × ((less (a i') (a lo) ≡ false) ⊎ (i' ≡ hi))
  unfolding scan_up
  scan_up_lem zero a lo hi i p q = absurd (omega arith)
  scan_up_lem (suc fuel) a lo hi i p q =
      elim (Bool-cases (less (a (i + 1)) (a lo) && not (i + 1 == hi))) [
        | inl e ↦
            let more : i + 1 ≢ hi = λ w. ground arith in
            let (i', run, above, below, passed, stop) =
              scan_up_lem fuel a lo hi (i + 1) (omega arith) (omega arith) in
            (
              i',
              rw (scan_up, e) run,
              omega arith,
              below,
              λ k p q.
                  first_passed (λ b. less (a b) (a lo)) k (i + 1) _ e (λ r. passed k r q)
                    (omega arith),
              stop,
            )
        | inr e ↦ (
          i + 1,
          rw (scan_up, e) refl,
          omega arith,
          omega arith,
          λ k p q. absurd (omega arith),
          stopped (less (a (i + 1)) (a lo)) (i + 1) hi e,
        )
      ]

  pub scan_down_lem :
      (fuel : ℕ) (a : ℕ → A) (lo j : ℕ)
      → lo < j
      → j ≤ lo + fuel
      → (j' : ℕ) × (scan_down fuel less a lo j ≡ ok j')
        × (j' < j)
        × (lo ≤ j')
        × ((k : ℕ) → j' < k → k < j → less (a lo) (a k) ≡ true)
        × ((less (a lo) (a j') ≡ false) ⊎ (j' ≡ lo))
  unfolding scan_down
  scan_down_lem zero a lo j p q = absurd (omega arith)
  scan_down_lem (suc fuel) a lo j p q =
      elim (Bool-cases (less (a lo) (a (j - 1)) && not (j - 1 == lo))) [
        | inl e ↦
            let more : j - 1 ≢ lo = λ w. ground arith in
            let (j', run, below, above, passed, stop) =
              scan_down_lem fuel a lo (j - 1) (omega arith) (omega arith) in
            (
              j',
              rw (scan_down, e) run,
              omega arith,
              above,
              λ k p q.
                  last_passed (λ b. less (a lo) (a b)) k (j - 1) _ e (passed k p) (omega arith),
              stop,
            )
        | inr e ↦ (
          j - 1,
          rw (scan_down, e) refl,
          omega arith,
          omega arith,
          λ k p q. absurd (omega arith),
          stopped (less (a lo) (a (j - 1))) (j - 1) lo e,
        )
      ]

  partition_loop_lem :
      (fuel : ℕ) (a : ℕ → A) (n lo hi i j : ℕ)
      → hi < n
      → lo ≤ i
      → i < hi
      → lo < j
      → j ≤ hi + 1
      → hi < i + fuel
      → (k : ℕ) × (c : ℕ → A) × (partition_loop fuel less a lo hi i j ≡ ok (k, c))
        × (lo ≤ k)
        × (k ≤ hi)
        × Rearranged n a c
  unfolding partition_loop
  partition_loop_lem zero a n lo hi i j inside p q r s enough = absurd (omega arith)
  partition_loop_lem (suc fuel) a n lo hi i j inside p q r s enough =
      let (i', up, i_above, i_below, _, _) = scan_up_lem (hi + 1) a lo hi i q (omega arith) in
      let (j', down, j_below, j_above, _, _) = scan_down_lem (hi + 2) a lo j r (omega arith) in
      elim (Bool-cases (leb j' i')) [
        | inl e ↦ (
          j',
          exch a lo j',
          rw (partition_loop, up, ◌>>=◌, down, ◌>>=◌, e) refl,
          j_above,
          omega arith,
          Rearranged-exch n a lo j' (omega arith) (omega arith),
        )
        | inr e ↦
            let (k, c, run, k_above, k_below, kept) =
              partition_loop_lem fuel (exch a i' j') n lo hi i' j' inside (omega arith)
                (ground arith) (ground arith) (omega arith) (omega arith) in
            (
              k,
              c,
              rw (partition_loop, up, ◌>>=◌, down, ◌>>=◌, e) run,
              k_above,
              k_below,
              Rearranged-trans n a (exch a i' j') c
                  (Rearranged-exch n a i' j' (omega arith) (omega arith)) kept,
            )
      ]

  sort_lem :
      (fuel : ℕ) (a : ℕ → A) (n lo hi : ℕ)
      → hi < n
      → 1 ≤ fuel
      → hi < lo + fuel
      → (c : ℕ → A) × (sort fuel less a lo hi ≡ ok c) × Rearranged n a c
  unfolding sort partition
  sort_lem zero a n lo hi inside p q = absurd (omega arith)
  sort_lem (suc fuel) a n lo hi inside p q = elim (Bool-cases (leb hi lo)) [
    | inl e ↦ (a, rw (sort, e) refl, Rearranged-refl n a)
    | inr e ↦
        let apart : lo < hi = ground arith in
        let (j, b, split, above, below, parts) =
          partition_loop_lem (hi + 1) a n lo hi lo (hi + 1) inside (omega arith) apart (omega arith)
            (omega arith) (omega arith) in
        elim (Bool-cases (ltb 0 j)) [
          | inl f ↦
              let (c, left, kept) =
                sort_lem fuel b n lo (j - 1) (omega arith) (omega arith) (ground arith) in
              let (d, right, kept') =
                sort_lem fuel c n (j + 1) hi inside (omega arith) (omega arith) in
              (
                d,
                rw (sort, partition, e, split, f, left) right,
                Rearranged-trans n a b d parts (Rearranged-trans n b c d kept kept'),
              )
          | inr f ↦
              let (d, right, kept') =
                sort_lem fuel b n (j + 1) hi inside (omega arith) (omega arith) in
              (d, rw (sort, partition, e, split, f) right, Rearranged-trans n a b d parts kept')
        ]
  ]

-- `qsort` ends whatever the comparison answers, and leaves the elements of the array in some order:
-- none is lost or doubled, and nothing behind the array is touched.
pub qsort_lem {ℓ} :
    {A : Type ℓ} (n : ℕ) (less : A → A → Bool) (seed : ℕ) (a : ℕ → A)
    → (seed' : ℕ) × (c : ℕ → A) × (qsort n less seed a ≡ ok (seed', c)) × Rearranged n a c
unfolding qsort
qsort_lem n less seed a = elim (Bool-cases (ltb n 2)) [
  | inl e ↦ (seed, a, rw (qsort, e) refl, Rearranged-refl n a)
  | inr e ↦
      let b = (shuffle n seed a).1 in
      let (c, run, kept) =
        sort_lem less (n + 1) b n 0 (n - 1) (ground arith) (omega arith) (omega arith) in
      (
        (shuffle n seed a).0,
        c,
        rw (qsort, e, run) refl,
        Rearranged-trans n a b c (shuffle-Rearranged n seed a) kept,
      )
]
