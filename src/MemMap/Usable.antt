-- ===== src/MemMap/Usable.antt =====
-- The usable memory over `combine_mergeable_regions` and `squash_mem_regions` of
-- src/kernel/arch/mem.c together.
use almeida_os.Base.{
  ℕ, zero, suc, ◌+◌, ◌-◌, ◌%◌, ◌^◌, ◌≤◌, ◌<◌, ◌≡◌, refl, sym, ap, ◌∙◌, subst, inl, inr, true, false,
  arith, ltb, ◌==◌, ==→eq, Bool-cases,
}
use almeida_os.Word.{add64}
use almeida_os.MemMap.{Region, Blocks, put, zero_region, mem_is_entry_empty}
use almeida_os.MemMap.Combine.{
  squash_loop, count_loop, squash_mem_regions, combine_loop, combine_mergeable_regions, mergeable,
  settle_type,
}
use almeida_os.MemMap.Kept.{bytes_of, usable_bytes, put_self, put_ne, combine_mergeable_regions_lem}
use almeida_os.MemMap.Squashed.{bytes_of_empty, Filled, squash_loop_lem}

-- the place of the first empty entry, or the number of entries
abbrev Counts : ℕ → (ℕ → Region) → ℕ → Type 0
Counts n rs c = (c ≤ n) × Filled c rs × (c < n → mem_is_entry_empty (rs c) ≡ true)

count_loop_lem :
    (rounds i n : ℕ) (rs : ℕ → Region)
    → i + rounds ≡ n
    → Filled i rs
    → Counts n rs (count_loop rounds i n rs)
unfolding count_loop
count_loop_lem zero i n rs e filled =
    (omega arith, λ a lt. filled a (omega arith), λ lt. absurd (omega arith))
count_loop_lem (suc rounds) i n rs e filled = elim (Bool-cases (mem_is_entry_empty (rs i))) [
  | inl t ↦ rw (count_loop, t) (omega arith, filled, λ lt. t)
  | inr f ↦
      rw (count_loop, f)
        (count_loop_lem rounds (suc i) n rs (omega arith) (λ a lt. elim (Bool-cases (i == a)) [
          | inl same ↦ subst (λ k. mem_is_entry_empty (rs k) ≡ false) (==→eq i a same) f
          | inr apart ↦ filled a (ground arith)
        ]))
]

-- empty entries add nothing
usable_bytes-tail :
    (k c : ℕ) (rs : ℕ → Region)
    → c ≤ k
    → ((j : ℕ) → c ≤ j → j < k → mem_is_entry_empty (rs j) ≡ true)
    → usable_bytes k rs ≡ usable_bytes c rs
usable_bytes-tail zero c rs h all = let e : 0 ≡ c = omega arith in ap (λ x. usable_bytes x rs) e
usable_bytes-tail (suc k) c rs h all = elim (Bool-cases (c == suc k)) [
  | inl e ↦ ap (λ x. usable_bytes x rs) (sym (==→eq c (suc k) e))
  | inr e ↦
      let rest = usable_bytes-tail k c rs (ground arith) (λ j le lt. all j le (omega arith)) in
      let last = bytes_of_empty (rs k) (all k (ground arith) (omega arith)) in omega arith
]

-- After `squash_mem_regions`, of two entries at least, no entry that counts is empty; at most as many
-- count as before; and the usable bytes of those that count are as many as before.
squash_mem_regions_lem :
    (b : Blocks)
    → (usable_bytes (squash_mem_regions b).num_entries (squash_mem_regions b).mem_region
        ≡ usable_bytes b.num_entries b.mem_region)
      × ((squash_mem_regions b).num_entries ≤ b.num_entries)
      × (2 ≤ b.num_entries
          → Filled (squash_mem_regions b).num_entries (squash_mem_regions b).mem_region)
unfolding squash_mem_regions
squash_mem_regions_lem b = elim (Bool-cases (ltb b.num_entries 2)) [
  | inl e ↦ rw e (refl, omega arith, λ h. absurd (ground arith))
  | inr e ↦
      let n : ℕ = b.num_entries in
      let rs : ℕ → Region = squash_loop (n - 1) 0 n b.mem_region in
      let c : ℕ = count_loop n 0 n rs in
      let (kept, compact) =
        squash_loop_lem (n - 1) 0 n b.mem_region (ground arith) (λ a lt. absurd (omega arith)) in
      let (le, filled, stop) =
        count_loop_lem n 0 n rs (omega arith) (λ a lt. absurd (omega arith)) in
      let tail : (j : ℕ) → c ≤ j → j < n → mem_is_entry_empty (rs j) ≡ true = λ j h lt.
        elim (Bool-cases (c == j)) [
          | inl same ↦
              subst (λ k. mem_is_entry_empty (rs k) ≡ true) (==→eq c j same) (stop (omega arith))
          | inr apart ↦ compact c j (ground arith) lt (stop (omega arith))
        ] in
      rw e (sym (usable_bytes-tail n c rs le tail) ∙ kept, le, λ h. filled)
]

-- the place past the last entry has no usable bytes after the merging either
past_end :
    (rounds ptr_1 ptr_2 n : ℕ) (rs : ℕ → Region)
    → ptr_1 < ptr_2
    → ptr_2 + rounds ≡ suc n
    → bytes_of (rs n) ≡ 0
    → bytes_of (combine_loop rounds ptr_1 ptr_2 rs n) ≡ 0
unfolding combine_loop
past_end zero ptr_1 ptr_2 n rs lt e z = z
past_end (suc rounds) ptr_1 ptr_2 n rs lt e z =
    let first : Region = settle_type (rs ptr_1) in
    let grown : Region = record first { length = add64 first.length (rs ptr_2).length } in
    let settled : ℕ → Region = put rs ptr_1 first in
    let here = put_ne rs ptr_1 n first (λ q. omega arith) in
    let again = put_ne settled ptr_1 n grown (λ q. omega arith) in
    elim (Bool-cases (mergeable first (rs ptr_2))) [
      | inr m ↦
          rw (combine_loop, m)
            (elim (Bool-cases (rounds == 0)) [
              | inl last ↦ rw (==→eq rounds 0 last) (ap bytes_of here ∙ z)
              | inr more ↦
                  past_end rounds ptr_2 (suc ptr_2) n settled (omega arith) (omega arith)
                    (ap bytes_of here ∙ z)
            ])
      | inl m ↦
          rw (combine_loop, m)
            (past_end rounds ptr_1 (suc ptr_2) n (put (put settled ptr_1 grown) ptr_2 zero_region)
              (omega arith) (omega arith)
              (elim (Bool-cases (n == ptr_2)) [
                | inl same ↦ ap bytes_of (
                    subst (λ k. put (put settled ptr_1 grown) ptr_2 zero_region k ≡ zero_region)
                      (sym (==→eq n ptr_2 same))
                      (put_self (put settled ptr_1 grown) ptr_2 zero_region))
                | inr apart ↦
                    ap bytes_of (
                      put_ne (put settled ptr_1 grown) ptr_2 n zero_region (λ q. ground arith)
                      ∙ again
                      ∙ here)
                    ∙ z
              ]))
    ]

past_end_combined :
    (b : Blocks)
    → bytes_of (b.mem_region b.num_entries) ≡ 0
    → bytes_of ((combine_mergeable_regions b).mem_region b.num_entries) ≡ 0
unfolding combine_mergeable_regions
past_end_combined b z = elim (Bool-cases (ltb b.num_entries 2)) [
  | inl e ↦ rw e z
  | inr e ↦
      rw e (past_end b.num_entries 0 1 b.num_entries b.mem_region (omega arith) (omega arith) z)
]

-- Where the place past the last entry is empty, merging the regions and then squashing the map keeps
-- how many bytes the usable entries have together, modulo 2 ^ 64. No more entries count than before,
-- and of two entries at least, none that counts afterwards is empty.
pub squash_mem_regions-combine_mergeable_regions :
    (b : Blocks)
    → mem_is_entry_empty (b.mem_region b.num_entries) ≡ true
    → (usable_bytes
            (squash_mem_regions (combine_mergeable_regions b)).num_entries
            (squash_mem_regions (combine_mergeable_regions b)).mem_region
          % 2 ^ 64
        ≡ usable_bytes b.num_entries b.mem_region % 2 ^ 64)
      × ((squash_mem_regions (combine_mergeable_regions b)).num_entries ≤ b.num_entries)
      × (2 ≤ b.num_entries
          → Filled
              (squash_mem_regions (combine_mergeable_regions b)).num_entries
              (squash_mem_regions (combine_mergeable_regions b)).mem_region)
squash_mem_regions-combine_mergeable_regions b h =
    let c : Blocks = combine_mergeable_regions b in
    let z = bytes_of_empty (b.mem_region b.num_entries) h in
    let after = past_end_combined b z in
    let (merged, count) = combine_mergeable_regions_lem b in
    let (kept, le, filled) = squash_mem_regions_lem c in
    let whole : usable_bytes c.num_entries c.mem_region ≡ usable_bytes b.num_entries c.mem_region =
      ap (λ n. usable_bytes n c.mem_region) count in
    (omega arith, omega arith, λ two. filled (omega arith))
