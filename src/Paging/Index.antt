-- ===== src/Paging/Index.antt =====
-- The parts of a virtual address, by the macros of src/kernel/mm/page.c.
use almeida_os.Base.{
  ℕ, ◌+◌, ◌*◌, ◌/◌, ◌%◌, ◌^◌, ◌≤◌, ◌<◌, ◌≡◌, ◌≢◌, inl, inr, arith, ◌==◌, ==→eq, eq→==, Bool-cases,
}
use almeida_os.BitOps.Laws.{extract_bit_chunk_lem}
use almeida_os.Paging.{pml4e, pdpte, pde, pte, paging_calc_space_needed}

-- The four indices and the offset in the page make up the low 48 bits of an address, and each index
-- is one of the 512 of a table.
pub index_lem :
    (a : ℕ)
    → (a % 2 ^ 48
        ≡ pml4e a * 2 ^ 39 + pdpte a * 2 ^ 30 + pde a * 2 ^ 21 + pte a * 2 ^ 12 + a % 2 ^ 12)
      × (pml4e a < 512)
      × (pdpte a < 512)
      × (pde a < 512)
      × (pte a < 512)
index_lem a =
    let p = extract_bit_chunk_lem 39 47 a (omega arith) (omega arith) in
    let q = extract_bit_chunk_lem 30 38 a (omega arith) (omega arith) in
    let r = extract_bit_chunk_lem 21 29 a (omega arith) (omega arith) in
    let s = extract_bit_chunk_lem 12 20 a (omega arith) (omega arith) in
    (
      omega (arith, p, q, r, s),
      omega (arith, p),
      omega (arith, q),
      omega (arith, r),
      omega (arith, s),
    )

-- For up to 511 tables of the lowest level, 2 MiB each, the space that is asked for is that of those
-- tables and of one more page: none is counted for the two levels between the root and them.
pub paging_calc_space_needed_lem :
    (bytes : ℕ)
    → bytes ≤ 511 * 2097152
    → paging_calc_space_needed bytes ≡ 4096 * (1 + (bytes + 2097151) / 2097152)
unfolding paging_calc_space_needed
paging_calc_space_needed_lem bytes h =
    let directories : (n : ℕ) → n ≤ 511 → n / 512 ≡ 0 = λ n b. omega arith in
    elim (Bool-cases (bytes % 2097152 == 0)) [
      | inl e ↦
          let whole = ==→eq _ _ e in
          let count : bytes / 2097152 % 2 ^ 32 ≡ bytes / 2097152 = omega arith in
          let none_counted = directories (bytes / 2097152) (omega arith) in
          rw (paging_calc_space_needed, e, count, none_counted) (omega arith)
      | inr e ↦
          let part : bytes % 2097152 ≢ 0 = λ w. cc (e, eq→== (bytes % 2097152) 0 w) in
          let count : (bytes / 2097152 % 2 ^ 32 + 1) % 2 ^ 32 ≡ bytes / 2097152 + 1 = omega arith in
          let none_counted = directories (bytes / 2097152 + 1) (omega arith) in
          rw (paging_calc_space_needed, e, count, none_counted) (omega arith)
    ]
