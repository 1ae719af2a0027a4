-- ===== src/Paging/Release.antt =====
-- `page_free` of src/kernel/mm/page.c.
use almeida_os.Base.{
  ℕ, zero, suc, ◌+◌, ◌*◌, ◌%◌, ◌^◌, Bool, true, false, ◌==◌, if◌then◌else◌, Run, ok, ◌>>=◌,
}
use almeida_os.BitOps.{extract_bit_chunk}
use almeida_os.Address.{va}
use almeida_os.PageFrame.{pageframe_free}
use almeida_os.Paging.{PageTable, pml4e, pdpte, pde, pte, write_entry}

-- The loop reads the first byte of the table 512 times.
unfoldable pub is_pagetable_empty : ℕ → (ℕ → ℕ) → Bool
is_pagetable_empty table memory = memory table % 256 == 0

-- the index of a level from 1 to 4
unfoldable pub index_of : ℕ → ℕ → ℕ
index_of level v_addr =
    if level == 4
    then pml4e v_addr
    else if level == 3
    then pdpte v_addr
    else if level == 2
    then pde v_addr
    else pte v_addr

unfoldable pub page_free_resources : ℕ → ℕ → ℕ → PageTable → Run (Bool × PageTable)
page_free_resources zero table v_addr t = ok (true, t)
page_free_resources (suc level) table v_addr t = do
  here ← va table
  let at : ℕ = table + 8 * index_of (suc level) v_addr
  entry ← va at
  (freed, t') ← page_free_resources level (extract_bit_chunk 12 51 (t.memory at) * 2 ^ 12) v_addr t
  elim freed [
    | false ↦ ok (false, t')
    | true ↦
        let cleared : ℕ → ℕ = write_entry at 0 t'.memory in
        elim (is_pagetable_empty table cleared) [
          | false ↦ ok (false, record t' { memory = cleared })
          | true ↦ do
            pfdb ← pageframe_free t'.pfdb table
            ok (true, record t' { pfdb = pfdb; memory = cleared })
        ]
  ]

unfoldable pub page_free : ℕ → PageTable → Run PageTable
page_free v_addr t = do (freed, t') ← page_free_resources 4 t.phys_root v_addr t; ok t'
