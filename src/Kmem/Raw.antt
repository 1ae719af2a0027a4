-- ===== src/Kmem/Raw.antt =====
-- `kmalloc` with KMEM_RAW_ALLOC (src/kernel/mm/kmem.c) over blocks of whole pages.
use almeida_os.Base.{ℕ, ◌+◌, ◌%◌, ◌^◌, ◌≤◌, ◌<◌, ◌≡◌, refl, ap, ◌∙◌, arith, Run, ok, bug, running}
use almeida_os.Address.{virt_addr_kernel_start, pa}
use almeida_os.Address.Laws.{va_low}
use almeida_os.Buddy.{Slots, BuddyRef}
use almeida_os.Buddy.Coords.{IsRef, InRange}
use almeida_os.Buddy.Valid.{IsValid, IsFree, block-le}
use almeida_os.Buddy.AllocLaws.{Outcome}
use almeida_os.Buddy.Promise.{buddy_alloc_lem, order_of_lem}
use almeida_os.Buddy.Alloc.{order_of, buddy_alloc}
use almeida_os.Paging.{PageTable}
use almeida_os.Kmem.{kmalloc, kmem_raw_alloc}
use almeida_os.Kmem.Obtain.{block_aligned}
use almeida_os.Kmem.Cycle.{low_addresses}

-- What is asked of the allocator: its blocks are whole pages below 2 ^ 40.
pub record IsPaged (ref : BuddyRef) : Type 0 where
  pub shape : IsRef ref
  pub pages : 12 ≤ ref.min_pow_order
  pub aligned : ref.content_mem_reg.base_addr % 4096 ≡ 0
  pub low : ref.content_mem_reg.base_addr + 2 ^ ref.max_pow_order + 4096 ≤ 2 ^ 40

abbrev pub NoBlock : BuddyRef → Slots → ℕ → Type 0
NoBlock ref m bytes = (l q : ℕ) → order_of ref bytes ≤ l → InRange ref l q → ¬ IsFree ref m l q

-- A block of `kmalloc` with KMEM_RAW_ALLOC.
pub record RawBlock (ref : BuddyRef) (bytes v : ℕ) (m' : Slots) (t t' : PageTable) : Type 0 where
  pub ptr : ℕ
  pub address : v ≡ virt_addr_kernel_start + ptr
  pub physical : pa v ≡ ok ptr
  pub page : ptr % 4096 ≡ 0
  pub end : ptr + bytes + 4096 ≤ 2 ^ 40
  pub valid : IsValid ref m'
  pub same : t' ≡ t

abbrev pub RawObtains : BuddyRef → Slots → PageTable → ℕ → Run (ℕ × Slots × PageTable) → Type 0
RawObtains ref m t bytes (ok (v, m', t')) = RawBlock ref bytes v m' t t'
RawObtains ref m t bytes bug = NoBlock ref m bytes
RawObtains ref m t bytes running = ⊥

pub raw_lem :
    (ref : BuddyRef) (m : Slots) (t : PageTable) (bytes : ℕ)
    → IsPaged ref
    → IsValid ref m
    → 0 < bytes
    → bytes ≤ ref.content_mem_reg.length
    → RawObtains ref m t bytes (kmalloc ref bytes kmem_raw_alloc m t)
unfolding kmalloc
raw_lem ref m t bytes p valid some_ within =
    by_block (buddy_alloc ref bytes m) refl (buddy_alloc_lem bytes p.shape valid some_ within)
  where
    by_block :
        (res : Run (ℕ × Slots))
        → buddy_alloc ref bytes m ≡ res
        → Outcome ref m (order_of ref bytes) res
        → RawObtains ref m t bytes (kmalloc ref bytes kmem_raw_alloc m t)
    by_block (ok (ptr, m')) run a =
        let order = order_of ref bytes in
        let size = (order_of_lem bytes p.shape some_ within).2 in
        let end = block-le order a.place a.in_range in
        let top : ptr + bytes + 4096 ≤ 2 ^ 40 = omega (arith, a.address, end, size, p.low) in
        let bound : ptr < 2 ^ 47 = omega arith in
        let page : ptr % 4096 ≡ 0 =
          ap (λ x. x % 4096) a.address
          ∙ block_aligned ref.content_mem_reg.base_addr a.place order p.aligned
              (omega (arith, a.in_range.lower, p.pages)) in
        rw (kmalloc, run, va_low ptr bound)
          (record {
            ptr = ptr;
            address = refl;
            physical = (low_addresses ptr bound).1;
            page = page;
            end = top;
            valid = a.valid;
            same = refl;
          })
    by_block bug run a = rw (kmalloc, run) a
    by_block running run a = absurd a
