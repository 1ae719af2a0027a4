-- ===== src/Sort.antt =====
-- src/kernel/lib/qsort.c and src/kernel/lib/shuffle.c, over an array that is a function from places
-- to elements. `less a b` is the test `cmp(a, b) < 0`.
pub mod Rearrange
pub mod Ends
pub mod Inside
pub mod Order
use almeida_os.Base.{
  ℕ, zero, suc, ◌+◌, ◌-◌, ◌%◌, Bool, true, false, ◌&&◌, not, ltb, leb, ◌==◌, if◌then◌else◌, Run, ok,
  running, ◌>>=◌,
}
use almeida_os.Maths.{rand}

-- EXCH
unfoldable pub exch {ℓ} : {A : Type ℓ} → (ℕ → A) → ℕ → ℕ → ℕ → A
exch a i j k = if k == j then a i else if k == i then a j else a k

-- the loop of `shuffle` from `i` on, with `rounds` elements left; it also leaves the seed
unfoldable pub shuffle_loop {ℓ} : {A : Type ℓ} → ℕ → ℕ → ℕ → ℕ → (ℕ → A) → ℕ × (ℕ → A)
shuffle_loop zero i arr_length seed a = (seed, a)
shuffle_loop (suc rounds) i arr_length seed a =
    let (seed', value) = rand seed in
    shuffle_loop rounds (suc i) arr_length seed' (exch a i (value % (arr_length - 1) + 1))

unfoldable pub shuffle {ℓ} : {A : Type ℓ} → ℕ → ℕ → (ℕ → A) → ℕ × (ℕ → A)
shuffle arr_length seed a =
    if ltb arr_length 2 then (seed, a) else shuffle_loop arr_length 0 arr_length seed a

-- The two inner loops of `partition`. Each starts with the step of its pointer.
unfoldable pub scan_up {ℓ} : {A : Type ℓ} → ℕ → (A → A → Bool) → (ℕ → A) → ℕ → ℕ → ℕ → Run ℕ
scan_up zero less a lo hi i = running
scan_up (suc fuel) less a lo hi i = elim (less (a (i + 1)) (a lo) && not (i + 1 == hi)) [
  | true ↦ scan_up fuel less a lo hi (i + 1)
  | false ↦ ok (i + 1)
]

unfoldable pub scan_down {ℓ} : {A : Type ℓ} → ℕ → (A → A → Bool) → (ℕ → A) → ℕ → ℕ → Run ℕ
scan_down zero less a lo j = running
scan_down (suc fuel) less a lo j = elim (less (a lo) (a (j - 1)) && not (j - 1 == lo)) [
  | true ↦ scan_down fuel less a lo (j - 1)
  | false ↦ ok (j - 1)
]

-- the outer loop of `partition`
unfoldable pub partition_loop {ℓ} :
    {A : Type ℓ} → ℕ → (A → A → Bool) → (ℕ → A) → ℕ → ℕ → ℕ → ℕ → Run (ℕ × (ℕ → A))
partition_loop zero less a lo hi i j = running
partition_loop (suc fuel) less a lo hi i j = do
  i' ← scan_up (hi + 1) less a lo hi i
  j' ← scan_down (hi + 2) less a lo j
  elim (leb j' i') [
    | true ↦ ok (j', exch a lo j')
    | false ↦ partition_loop fuel less (exch a i' j') lo hi i' j'
  ]

unfoldable pub partition {ℓ} : {A : Type ℓ} → (A → A → Bool) → (ℕ → A) → ℕ → ℕ → Run (ℕ × (ℕ → A))
partition less a lo hi = partition_loop (hi + 1) less a lo hi lo (hi + 1)

-- `sort`, on the depth of its calls
unfoldable pub sort {ℓ} : {A : Type ℓ} → ℕ → (A → A → Bool) → (ℕ → A) → ℕ → ℕ → Run (ℕ → A)
sort zero less a lo hi = running
sort (suc fuel) less a lo hi = elim (leb hi lo) [
  | true ↦ ok a
  | false ↦ do
    (j, b) ← partition less a lo hi
    c ← elim (ltb 0 j) [ true ↦ sort fuel less b lo (j - 1) | false ↦ ok b ]
    sort fuel less c (j + 1) hi
]

-- The pivot leaves both parts, so that no call is deeper than the number of the elements.
unfoldable pub qsort {ℓ} : {A : Type ℓ} → ℕ → (A → A → Bool) → ℕ → (ℕ → A) → Run (ℕ × (ℕ → A))
qsort num_elems less seed a = elim (ltb num_elems 2) [
  | true ↦ ok (seed, a)
  | false ↦ do
    let (seed', b) = shuffle num_elems seed a
    c ← sort (num_elems + 1) less b 0 (num_elems - 1)
    ok (seed', c)
]
