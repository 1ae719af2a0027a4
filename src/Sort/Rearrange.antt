-- ===== src/Sort/Rearrange.antt =====
-- Arrays whose elements are exchanged by src/kernel/lib/qsort.c and src/kernel/lib/shuffle.c.
use native.Mathlib.Nat.{mod-lt}
use almeida_os.Base.{
  ℕ, zero, suc, ◌+◌, ◌-◌, ◌%◌, ◌≤◌, ◌<◌, ◌≡◌, refl, ap, ◌∙◌, inl, inr, arith, ltb, ◌==◌,
  if◌then◌else◌, ltb→le, Bool-cases,
}
use almeida_os.Maths.{rand}
use almeida_os.Sort.{exch, shuffle, shuffle_loop}

-- The array `c` has the first `n` elements of `a`, each as often as `a` has it, and the others where
-- they were: `to` and `from` are inverse and keep to the first `n` places.
abbrev pub Rearranged {ℓ} : {A : Type ℓ} → ℕ → (ℕ → A) → (ℕ → A) → Type ℓ
Rearranged n a c =
    (from to : ℕ → ℕ) × ((i : ℕ) → c i ≡ a (from i))
    × ((i : ℕ) → from (to i) ≡ i)
    × ((i : ℕ) → to (from i) ≡ i)
    × ((i : ℕ) → n ≤ i → from i ≡ i)

pub Rearranged-refl {ℓ} : {A : Type ℓ} (n : ℕ) (a : ℕ → A) → Rearranged n a a
Rearranged-refl n a = (λ i. i, λ i. i, λ i. refl, λ i. refl, λ i. refl, λ i h. refl)

pub Rearranged-trans {ℓ} :
    {A : Type ℓ} (n : ℕ) (a b c : ℕ → A) → Rearranged n a b → Rearranged n b c → Rearranged n a c
Rearranged-trans n a b c (f, g, p, q, r, s) (f', g', p', q', r', s') = (
  λ i. f (f' i),
  λ i. g' (g i),
  λ i. p' i ∙ p (f' i),
  λ i. ap f (q' (g i)) ∙ q i,
  λ i. ap g' (r (f' i)) ∙ r' i,
  λ i h. ap f (s' i h) ∙ s i h,
)

abbrev swapped : ℕ → ℕ → ℕ → ℕ
swapped i j k = if k == j then i else if k == i then j else k

swapped-swapped : (i j k : ℕ) → swapped i j (swapped i j k) ≡ k
swapped-swapped i j k = ground arith

pub Rearranged-exch {ℓ} :
    {A : Type ℓ} (n : ℕ) (a : ℕ → A) (i j : ℕ) → i < n → j < n → Rearranged n a (exch a i j)
unfolding exch
Rearranged-exch n a i j p q =
    (swapped i j, swapped i j, moved, swapped-swapped i j, swapped-swapped i j, λ k h. ground arith)
  where
    moved : (k : ℕ) → (if k == j then a i else if k == i then a j else a k) ≡ a (swapped i j k)
    moved k = elim (Bool-cases (k == j)) [
      | inl e ↦ rw e refl
      | inr e ↦ elim (Bool-cases (k == i)) [ inl f ↦ rw (e, f) refl | inr f ↦ rw (e, f) refl ]
    ]

shuffle_loop-Rearranged {ℓ} :
    {A : Type ℓ} (rounds i n seed : ℕ) (a : ℕ → A)
    → 2 ≤ n
    → i + rounds ≤ n
    → Rearranged n a (shuffle_loop rounds i n seed a).1
unfolding shuffle_loop
shuffle_loop-Rearranged zero i n seed a p q = Rearranged-refl n a
shuffle_loop-Rearranged (suc rounds) i n seed a p q =
    let (seed', value) = rand seed in
    let place = value % (n - 1) + 1 in
    let inside : place < n = omega (arith, mod-lt value {m = n - 1} (omega arith)) in
    Rearranged-trans n a (exch a i place) _ (Rearranged-exch n a i place (omega arith) inside)
      (shuffle_loop-Rearranged rounds (suc i) n seed' (exch a i place) p (omega arith))

-- `shuffle` leaves the elements of the array in some order: none is lost or doubled, and nothing
-- behind the array is touched.
pub shuffle-Rearranged {ℓ} :
    {A : Type ℓ} (n seed : ℕ) (a : ℕ → A) → Rearranged n a (shuffle n seed a).1
unfolding shuffle
shuffle-Rearranged n seed a = elim (Bool-cases (ltb n 2)) [
  | inl e ↦ rw (shuffle, e) (Rearranged-refl n a)
  | inr e ↦ rw (shuffle, e) (shuffle_loop-Rearranged n 0 n seed a (ltb→le _ _ e) (omega arith))
]
