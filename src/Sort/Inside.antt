-- ===== src/Sort/Inside.antt =====
-- Arrays that src/kernel/lib/qsort.c changes in a part only.
use native.Mathlib.Decide.{dec_lt}
use almeida_os.Base.{
  ℕ, ◌≤◌, ◌<◌, ◌≡◌, refl, ap, ◌∙◌, ◌≢◌, ◌⊎◌, inl, inr, true, false, arith, ◌==◌, ==→eq, eq→==,
  Bool-cases,
}
use almeida_os.Sort.{exch}

-- `c` has in the places from `lo` up to `end` elements that `a` has there, and the others of `a`.
abbrev pub Inside {ℓ} : {A : Type ℓ} → ℕ → ℕ → (ℕ → A) → (ℕ → A) → Type ℓ
Inside lo end a c =
    ((k : ℕ) → (k < lo) ⊎ (end ≤ k) → c k ≡ a k)
    × ((k : ℕ) → lo ≤ k → k < end → (m : ℕ) × (lo ≤ m) × (m < end) × (c k ≡ a m))

pub Inside-refl {ℓ} : {A : Type ℓ} (lo end : ℕ) (a : ℕ → A) → Inside lo end a a
Inside-refl lo end a = (λ k h. refl, λ k p q. (k, p, q, refl))

pub Inside-trans {ℓ} :
    {A : Type ℓ} (lo end : ℕ) (a b c : ℕ → A)
    → Inside lo end a b
    → Inside lo end b c
    → Inside lo end a c
Inside-trans lo end a b c (out, in_) (out', in') = (
  λ k h. out' k h ∙ out k h,
  λ k p q. let (m, r, s, e) = in' k p q in let (m', r', s', e') = in_ m r s in (m', r', s', e ∙ e'),
)

pub Inside-widen {ℓ} :
    {A : Type ℓ} (lo end lo' end' : ℕ) (a c : ℕ → A)
    → lo' ≤ lo
    → end ≤ end'
    → Inside lo end a c
    → Inside lo' end' a c
Inside-widen lo end lo' end' a c p q (out, in_) = (
  λ k h. out k (wider k h),
  λ k r s. elim (dec_lt k lo) [
    | yes before ↦ (k, r, s, out k (inl before))
    | no after ↦ elim (dec_lt k end) [
      | no behind ↦ (k, r, s, out k (inr (omega arith)))
      | yes there ↦ let (m, x, y, e) = in_ k (omega arith) there in (m, omega arith, omega arith, e)
    ]
  ],
)
  where
    wider : (k : ℕ) → (k < lo') ⊎ (end' ≤ k) → (k < lo) ⊎ (end ≤ k)
    wider k (inl h) = inl (omega arith)
    wider k (inr h) = inr (omega arith)

pub exch_right {ℓ} : {A : Type ℓ} (a : ℕ → A) (i j : ℕ) → exch a i j j ≡ a i
unfolding exch
exch_right a i j = let e : (j == j) ≡ true = eq→== j j refl in rw e refl

pub exch_left {ℓ} : {A : Type ℓ} (a : ℕ → A) (i j : ℕ) → exch a i j i ≡ a j
unfolding exch
exch_left a i j = elim (Bool-cases (i == j)) [
  | inl e ↦ rw e (ap a (==→eq i j e))
  | inr e ↦ let f : (i == i) ≡ true = eq→== i i refl in rw (e, f) refl
]

pub exch_other {ℓ} : {A : Type ℓ} (a : ℕ → A) (i j k : ℕ) → k ≢ i → k ≢ j → exch a i j k ≡ a k
unfolding exch
exch_other a i j k p q =
    let e : (k == j) ≡ false = ground arith in
    let f : (k == i) ≡ false = ground arith in rw (e, f) refl

pub Inside-exch {ℓ} :
    {A : Type ℓ} (lo end : ℕ) (a : ℕ → A) (i j : ℕ)
    → lo ≤ i
    → i < end
    → lo ≤ j
    → j < end
    → Inside lo end a (exch a i j)
Inside-exch lo end a i j p q r s = (
  λ k h. exch_other a i j k (apart k i h p q) (apart k j h r s),
  λ k x y. elim (Bool-cases (k == j)) [
    | inl e ↦ (i, p, q, ap (exch a i j) (==→eq k j e) ∙ exch_right a i j)
    | inr e ↦ elim (Bool-cases (k == i)) [
      | inl f ↦ (j, r, s, ap (exch a i j) (==→eq k i f) ∙ exch_left a i j)
      | inr f ↦ (k, x, y, exch_other a i j k (ground arith) (ground arith))
    ]
  ],
)
  where
    apart : (k m : ℕ) → (k < lo) ⊎ (end ≤ k) → lo ≤ m → m < end → k ≢ m
    apart k m (inl h) x y e = omega arith
    apart k m (inr h) x y e = omega arith
