-- ===== src/MemMap/Kept.antt =====
-- What merging and squashing in src/kernel/arch/mem.c do to the usable memory.
use almeida_os.Base.{
  ℕ, zero, suc, ◌+◌, ◌%◌, ◌^◌, ◌≤◌, ◌<◌, ◌≡◌, refl, ap, ap₂, ◌∙◌, subst, ◌≢◌, inl, inr, true, false,
  arith, ltb, ◌==◌, if◌then◌else◌, ==→eq, eq→==, Bool-cases,
}
use almeida_os.Word.{add64}
use almeida_os.MemMap.{Region, Blocks, put, usable, zero_region}
use almeida_os.MemMap.Combine.{settle_type, mergeable, combine_loop, combine_mergeable_regions}

-- the usable bytes of a region
abbrev pub bytes_of : Region → ℕ
bytes_of r = if r.type == usable then r.length else 0

-- the usable bytes of the first entries
abbrev pub usable_bytes : ℕ → (ℕ → Region) → ℕ
usable_bytes zero rs = 0
usable_bytes (suc n) rs = usable_bytes n rs + bytes_of (rs n)

pub put_self : (rs : ℕ → Region) (i : ℕ) (r : Region) → put rs i r i ≡ r
unfolding put
put_self rs i r = rw (eq→== i i refl) refl

pub put_ne : (rs : ℕ → Region) (i j : ℕ) (r : Region) → j ≢ i → put rs i r j ≡ rs j
unfolding put
put_ne rs i j r n = let f : (j == i) ≡ false = ground arith in rw f refl

usable_bytes-put_above :
    (n i : ℕ) (rs : ℕ → Region) (r : Region)
    → n ≤ i
    → usable_bytes n (put rs i r) ≡ usable_bytes n rs
usable_bytes-put_above zero i rs r h = refl
usable_bytes-put_above (suc n) i rs r h =
    ap₂ (λ a b. a + bytes_of b) (usable_bytes-put_above n i rs r (omega arith))
      (put_ne rs i n r (λ e. omega arith))

-- An entry that is replaced takes its bytes with it.
pub usable_bytes-put :
    (n i : ℕ) (rs : ℕ → Region) (r : Region)
    → i < n
    → usable_bytes n (put rs i r) + bytes_of (rs i) ≡ usable_bytes n rs + bytes_of r
usable_bytes-put zero i rs r h = absurd (omega arith)
usable_bytes-put (suc n) i rs r h = elim (Bool-cases (i == n)) [
  | inl e ↦
      let same : i ≡ n = ==→eq i n e in
      let here : bytes_of (put rs i r n) ≡ bytes_of r =
        ap bytes_of (subst (λ k. put rs i r k ≡ r) same (put_self rs i r)) in
      let old : bytes_of (rs i) ≡ bytes_of (rs n) = ap (λ k. bytes_of (rs k)) same in
      let above = usable_bytes-put_above n i rs r (omega arith) in omega arith
  | inr e ↦
      let apart : n ≢ i = λ q. ground arith in
      let here : bytes_of (put rs i r n) ≡ bytes_of (rs n) = ap bytes_of (put_ne rs i n r apart) in
      let rest = usable_bytes-put n i rs r (ground arith) in omega arith
]

bytes_of-settle_type : (r : Region) → bytes_of (settle_type r) ≡ bytes_of r
unfolding settle_type
bytes_of-settle_type r = ground arith

bytes_of-merged :
    (a b : Region)
    → mergeable a b ≡ true
    → bytes_of (record a { length = add64 a.length b.length }) % 2 ^ 64
      ≡ (bytes_of a + bytes_of b) % 2 ^ 64
unfolding mergeable
bytes_of-merged a b h = ground arith

-- one round that merges two entries
merge_keeps :
    (n ptr_1 ptr_2 : ℕ) (rs : ℕ → Region) (first : Region)
    → ptr_1 < ptr_2
    → ptr_2 < n
    → bytes_of first ≡ bytes_of (rs ptr_1)
    → mergeable first (rs ptr_2) ≡ true
    → usable_bytes n (
          put
            (put
              (put rs ptr_1 first)
              ptr_1
              (record first { length = add64 first.length (rs ptr_2).length }))
            ptr_2
            zero_region)
        % 2 ^ 64
      ≡ usable_bytes n rs % 2 ^ 64
merge_keeps n ptr_1 ptr_2 rs first lt below same m =
    let grown : Region = record first { length = add64 first.length (rs ptr_2).length } in
    let settled : ℕ → Region = put rs ptr_1 first in
    let merged : ℕ → Region = put settled ptr_1 grown in
    let one = usable_bytes-put n ptr_1 rs first (omega arith) in
    let two = usable_bytes-put n ptr_1 settled grown (omega arith) in
    let three = usable_bytes-put n ptr_2 merged zero_region below in
    let sum = bytes_of-merged first (rs ptr_2) m in
    let here : bytes_of (settled ptr_1) ≡ bytes_of first = ap bytes_of (put_self rs ptr_1 first) in
    let there : bytes_of (merged ptr_2) ≡ bytes_of (rs ptr_2) = ap bytes_of (
      put_ne settled ptr_1 ptr_2 grown (λ e. omega arith)
      ∙ put_ne rs ptr_1 ptr_2 first (λ e. omega arith)) in
    omega arith

combine_loop_keeps :
    (rounds ptr_1 ptr_2 n : ℕ) (rs : ℕ → Region)
    → ptr_1 < ptr_2
    → ptr_2 + rounds ≡ n
    → usable_bytes n (combine_loop rounds ptr_1 ptr_2 rs) % 2 ^ 64 ≡ usable_bytes n rs % 2 ^ 64
unfolding combine_loop
combine_loop_keeps zero ptr_1 ptr_2 n rs lt e = refl
combine_loop_keeps (suc rounds) ptr_1 ptr_2 n rs lt e =
    let first : Region = settle_type (rs ptr_1) in
    let same = bytes_of-settle_type (rs ptr_1) in
    elim (Bool-cases (mergeable first (rs ptr_2))) [
      | inl m ↦
          rw (combine_loop, m)
            (combine_loop_keeps rounds ptr_1 (suc ptr_2) n _ (omega arith) (omega arith)
              ∙ merge_keeps n ptr_1 ptr_2 rs first lt (omega arith) same m)
      | inr m ↦
          let one = usable_bytes-put n ptr_1 rs first (omega arith) in
          rw (combine_loop, m)
            (combine_loop_keeps rounds ptr_2 (suc ptr_2) n _ (omega arith) (omega arith)
              ∙ ap (λ x. x % 2 ^ 64) (omega arith))
    ]

-- `combine_mergeable_regions` changes neither the number of entries nor how many bytes the usable
-- entries have together, modulo 2 ^ 64; both counts include the place past the last entry, which the
-- loop reads and may clear.
pub combine_mergeable_regions_lem :
    (b : Blocks)
    → (usable_bytes (suc b.num_entries) (combine_mergeable_regions b).mem_region % 2 ^ 64
        ≡ usable_bytes (suc b.num_entries) b.mem_region % 2 ^ 64)
      × ((combine_mergeable_regions b).num_entries ≡ b.num_entries)
unfolding combine_mergeable_regions
combine_mergeable_regions_lem b = elim (Bool-cases (ltb b.num_entries 2)) [
  | inl e ↦ rw e (refl, refl)
  | inr e ↦ rw e (
    combine_loop_keeps b.num_entries 0 1 (suc b.num_entries) b.mem_region (omega arith)
        (omega arith),
    refl,
  )
]
