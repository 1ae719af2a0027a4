-- ===== src/Kmem/Obtain.antt =====
-- `kmalloc` of src/kernel/mm/kmem.c: a block, and the map of its pages.
use native.Mathlib.Nat.{mul_left_comm}
use almeida_os.Base.{
  ℕ, ◌+◌, ◌-◌, ◌*◌, ◌/◌, ◌%◌, ◌^◌, ◌≤◌, ◌<◌, ◌≡◌, refl, sym, ap, ◌∙◌, ◌⊎◌, inl, inr, true, some,
  arith, ◌==◌, eq→==, length, Run, ok, bug, running,
}
use Prim.Native.Nat.{bit_and}
use almeida_os.Word.Bits.{two-pow_add}
use almeida_os.Address.{virt_addr_kernel_start}
use almeida_os.Address.Laws.{va_low}
use almeida_os.Buddy.{Slots, BuddyRef}
use almeida_os.Buddy.Coords.{IsRef, InRange}
use almeida_os.Buddy.Valid.{IsValid, IsFree, block-le}
use almeida_os.Buddy.AllocLaws.{Allocated, Outcome}
use almeida_os.Buddy.Promise.{buddy_alloc_lem, order_of_lem}
use almeida_os.Buddy.Alloc.{order_of, buddy_alloc}
use almeida_os.Paging.{PageTable}
use almeida_os.Paging.Walk.{translate}
use almeida_os.Kmem.Mapping.{IsKernelTable, direct_map_lem}
use almeida_os.Kmem.{kmalloc, kmem_raw_alloc, kmem_zero, page_std_bits, zero_block}

pub block_aligned :
    (base place k : ℕ) → base % 4096 ≡ 0 → 12 ≤ k → (base + place * 2 ^ k) % 4096 ≡ 0
block_aligned base place k a b =
    let large : 12 + (k - 12) ≡ k = omega arith in
    let size : 2 ^ k ≡ 4096 * 2 ^ (k - 12) =
      ap (λ j. 2 ^ j) (sym large) ∙ two-pow_add 12 (k - 12) in
    let pages : place * 2 ^ k ≡ 4096 * (place * 2 ^ (k - 12)) =
      ap (λ j. place * j) size ∙ mul_left_comm place 4096 (2 ^ (k - 12)) in
    omega (arith, pages)

-- What `kmalloc` without KMEM_RAW_ALLOC and KMEM_ZERO comes to: a block that was not given out, every
-- byte of which has a translation, to the block itself.
pub record Obtained (ref : BuddyRef) (m : Slots) (t : PageTable) (bytes v : ℕ) (m' : Slots)
    (t' : PageTable) : Type 0 where
  pub ptr : ℕ
  pub address : v ≡ virt_addr_kernel_start + ptr
  pub block : Allocated ref m (order_of ref bytes) ptr m'
  pub table : IsKernelTable t'
  pub there : (x : ℕ) → x < bytes → translate t' (v + x) ≡ some ((ptr + x) / 4096 * 4096)
  pub kept : (w q : ℕ) → translate t w ≡ some q → translate t' w ≡ some q

abbrev pub Obtains : BuddyRef → Slots → PageTable → ℕ → Run (ℕ × Slots × PageTable) → Type 0
Obtains ref m t bytes (ok (v, m', t')) = Obtained ref m t bytes v m' t'
Obtains ref m t bytes bug =
    ((l q : ℕ) → order_of ref bytes ≤ l → InRange ref l q → ¬ IsFree ref m l q)
    ⊎ (length t.pfdb.free < 3 * (bytes / 4096 + 1))
Obtains ref m t bytes running = ⊥

module _ (ref : BuddyRef) (m : Slots) (t : PageTable) (bytes flags : ℕ) (r : IsRef ref)
    (some_ : 0 < bytes) (within : bytes ≤ ref.content_mem_reg.length)
    (pages : 12 ≤ ref.min_pow_order) (aligned : ref.content_mem_reg.base_addr % 4096 ≡ 0)
    (low : ref.content_mem_reg.base_addr + 2 ^ ref.max_pow_order + 4096 ≤ 2 ^ 40)
    (k : IsKernelTable t) (mapped : bit_and flags kmem_raw_alloc ≡ 0)
    (raw : bit_and flags kmem_zero ≡ 0) where
  after_block :
      (ptr : ℕ) (m' : Slots)
      → buddy_alloc ref bytes m ≡ ok (ptr, m')
      → Allocated ref m (order_of ref bytes) ptr m'
      → bytes ≤ 2 ^ order_of ref bytes
      → Obtains ref m t bytes (kmalloc ref bytes flags m t)
  unfolding kmalloc zero_block
  after_block ptr m' run a size =
      let order = order_of ref bytes in
      let end = block-le order a.place a.in_range in
      let top : ptr + bytes + 4096 ≤ 2 ^ 40 = omega (arith, a.address, end) in
      let bound : ptr < 2 ^ 47 = omega arith in
      let sum : (ptr + bytes) % 2 ^ 64 ≡ ptr + bytes = omega arith in
      let e1 : (bit_and flags kmem_raw_alloc == 0) ≡ true = eq→== _ _ mapped in
      let e2 : (bit_and flags kmem_zero == 0) ≡ true = eq→== _ _ raw in
      let page : ptr % 4096 ≡ 0 =
        ap (λ x. x % 4096) a.address
        ∙ block_aligned ref.content_mem_reg.base_addr a.place order aligned
            (omega (arith, a.in_range.lower)) in
      elim (direct_map_lem t ptr bytes k top page_std_bits refl (omega (arith, page))) [
        | inr (f, few) ↦ rw (kmalloc, run, va_low ptr bound, e1, sum, f) (inr few)
        | inl (t', f, d) ↦
            rw (kmalloc, run, va_low ptr bound, e1, sum, f, e2)
              (record {
                ptr = ptr;
                address = refl;
                block = a;
                table = d.table;
                there = λ x h.
                    let same : virt_addr_kernel_start + ptr + x
                        ≡ virt_addr_kernel_start + (ptr + x) =
                      omega arith in
                    ap (λ y. translate t' y) same ∙ d.there (ptr + x) (omega arith) (omega arith);
                kept = d.kept;
              })
      ]

  pub kmalloc_lem : IsValid ref m → Obtains ref m t bytes (kmalloc ref bytes flags m t)
  unfolding kmalloc
  kmalloc_lem valid =
      by_block (buddy_alloc ref bytes m) refl (buddy_alloc_lem bytes r valid some_ within)
    where
      by_block :
          (res : Run (ℕ × Slots))
          → buddy_alloc ref bytes m ≡ res
          → Outcome ref m (order_of ref bytes) res
          → Obtains ref m t bytes (kmalloc ref bytes flags m t)
      by_block (ok (ptr, m')) run a = after_block ptr m' run a (order_of_lem bytes r some_ within).2
      by_block bug run a = rw (kmalloc, run) (inl a)
      by_block running run a = absurd a
