-- ===== src/MemMap/Squashed.antt =====
-- What `squash_mem_regions` of src/kernel/arch/mem.c leaves in the map.
use almeida_os.Base.{
  ℕ, zero, suc, ◌+◌, ◌-◌, ◌≤◌, ◌<◌, ◌≡◌, refl, sym, ap, ◌∙◌, subst, inl, inr, true, false, Option,
  none, some, arith, leb, ◌==◌, ==→eq, Bool-cases,
}
use almeida_os.MemMap.{Region, put, zero_region, mem_is_entry_empty}
use almeida_os.MemMap.Combine.{next_entry, squash_loop}
use almeida_os.MemMap.Kept.{bytes_of, usable_bytes, put_self, put_ne, usable_bytes-put}

-- no entry stands behind an empty one
abbrev pub Compact : ℕ → (ℕ → Region) → Type 0
Compact n rs =
    (i j : ℕ) → i < j → j < n → mem_is_entry_empty (rs i) ≡ true → mem_is_entry_empty (rs j) ≡ true

pub bytes_of_empty : (r : Region) → mem_is_entry_empty r ≡ true → bytes_of r ≡ 0
bytes_of_empty r h = ground arith

abbrev Next : ℕ → ℕ → (ℕ → Region) → Option ℕ → Type 0
Next i n rs none = (j : ℕ) → i ≤ j → j < n → mem_is_entry_empty (rs j) ≡ true
Next i n rs (some j) = (i ≤ j) × (j < n) × (mem_is_entry_empty (rs j) ≡ false)

next_entry_lem :
    (rounds i n : ℕ) (rs : ℕ → Region) → i + rounds ≡ n → Next i n rs (next_entry rounds i rs)
unfolding next_entry
next_entry_lem zero i n rs e = λ j le lt. absurd (omega arith)
next_entry_lem (suc rounds) i n rs e = elim (Bool-cases (mem_is_entry_empty (rs i))) [
  | inr f ↦ rw (next_entry, f) (omega arith, omega arith, f)
  | inl t ↦
      rw (next_entry, t)
        (later (next_entry rounds (suc i) rs) (next_entry_lem rounds (suc i) n rs (omega arith)) t)
]
  where
    later : (o : Option ℕ) → Next (suc i) n rs o → mem_is_entry_empty (rs i) ≡ true → Next i n rs o
    later none all t = λ j le lt. elim (Bool-cases (i == j)) [
      | inl same ↦ subst (λ k. mem_is_entry_empty (rs k) ≡ true) (==→eq i j same) t
      | inr apart ↦ all j (ground arith) lt
    ]
    later (some j) (le, lt, f) t = (omega arith, lt, f)

-- the usable bytes stay, and what is left is compact
abbrev pub Squashes : ℕ → (ℕ → Region) → (ℕ → Region) → Type 0
Squashes n rs rs' = (usable_bytes n rs' ≡ usable_bytes n rs) × Compact n rs'

-- the entries before a place are in use
abbrev pub Filled : ℕ → (ℕ → Region) → Type 0
Filled n rs = (i : ℕ) → i < n → mem_is_entry_empty (rs i) ≡ false

-- an entry in use moves to an empty place before it
move_keeps :
    (n i j : ℕ) (rs : ℕ → Region)
    → i < j
    → j < n
    → mem_is_entry_empty (rs i) ≡ true
    → usable_bytes n (put (put rs i (rs j)) j zero_region) ≡ usable_bytes n rs
move_keeps n i j rs lt below t =
    let one = usable_bytes-put n i rs (rs j) (omega arith) in
    let two = usable_bytes-put n j (put rs i (rs j)) zero_region below in
    let none_here = bytes_of_empty (rs i) t in
    let there : bytes_of (put rs i (rs j) j) ≡ bytes_of (rs j) =
      ap bytes_of (put_ne rs i j (rs j) (λ e. omega arith)) in
    omega arith

move_fills :
    (i j : ℕ) (rs : ℕ → Region)
    → i < j
    → mem_is_entry_empty (rs j) ≡ false
    → Filled i rs
    → Filled (suc i) (put (put rs i (rs j)) j zero_region)
move_fills i j rs lt f filled a below =
    let outer = put_ne (put rs i (rs j)) j a zero_region (λ e. omega arith) in
    elim (Bool-cases (a == i)) [
      | inl same ↦
          let e : a ≡ i = ==→eq a i same in
          let inner : put rs i (rs j) a ≡ rs j =
            subst (λ k. put rs i (rs j) k ≡ rs j) (sym e) (put_self rs i (rs j)) in
          ap mem_is_entry_empty (outer ∙ inner) ∙ f
      | inr apart ↦
          ap mem_is_entry_empty (outer ∙ put_ne rs i a (rs j) (λ e. ground arith))
          ∙ filled a (ground arith)
    ]

module _ (i n : ℕ) (rs : ℕ → Region) (filled : Filled i rs) where
  more : mem_is_entry_empty (rs i) ≡ false → Filled (suc i) rs
  more f a lt = elim (Bool-cases (i == a)) [
    | inl same ↦ subst (λ k. mem_is_entry_empty (rs k) ≡ false) (==→eq i a same) f
    | inr apart ↦ filled a (ground arith)
  ]

  -- the round at an empty place
  moved :
      (rounds : ℕ)
      → ((rs' : ℕ → Region)
          → Filled (suc i) rs'
          → Squashes n rs' (squash_loop rounds (suc i) n rs'))
      → mem_is_entry_empty (rs i) ≡ true
      → (o : Option ℕ) → next_entry (n - (i + 1)) (i + 1) rs ≡ o
      → Next (i + 1) n rs o
      → Squashes n rs (squash_loop (suc rounds) i n rs)
  unfolding squash_loop
  moved rounds again t none q all =
      rw (squash_loop, t, q)
        (
          refl,
          λ a b lt below x. elim (Bool-cases (leb (i + 1) b)) [
            | inl h ↦ all b (ground arith) below
            | inr h ↦ absurd (let f = filled a (ground arith) in cc)
          ],
        )
  moved rounds again t (some j) q (le, below, f) =
      let after =
        again (put (put rs i (rs j)) j zero_region) (move_fills i j rs (omega arith) f filled) in
      rw (squash_loop, t, q) (after.0 ∙ move_keeps n i j rs (omega arith) below t, after.1)

pub squash_loop_lem :
    (rounds i n : ℕ) (rs : ℕ → Region)
    → suc (i + rounds) ≡ n
    → Filled i rs
    → Squashes n rs (squash_loop rounds i n rs)
unfolding squash_loop
squash_loop_lem zero i n rs e filled =
    (refl, λ a b lt in_range t. absurd (let f = filled a (omega arith) in cc))
squash_loop_lem (suc rounds) i n rs e filled =
    let again : (rs' : ℕ → Region)
        → Filled (suc i) rs'
        → Squashes n rs' (squash_loop rounds (suc i) n rs') =
      λ rs'. squash_loop_lem rounds (suc i) n rs' (omega arith) in
    elim (Bool-cases (mem_is_entry_empty (rs i))) [
      | inr f ↦ rw (squash_loop, f) (again rs (more i n rs filled f))
      | inl t ↦
          moved i n rs filled rounds again t (next_entry (n - (i + 1)) (i + 1) rs) refl
            (next_entry_lem (n - (i + 1)) (i + 1) n rs (omega arith))
    ]
