-- ===== src/Kmem/Cycle.antt =====
-- `kmalloc` with KMEM_RAW_ALLOC and `kfree` of src/kernel/mm/kmem.c.
use almeida_os.Base.{
  ℕ, zero, suc, ◌+◌, ◌^◌, ◌≤◌, ◌<◌, ◌≡◌, sym, ap, ◌∙◌, subst, ◌⊎◌, inl, inr, arith, Run, ok, bug,
  running, ◌>>=◌,
}
use almeida_os.Word.Bits.{two-pow_pos}
use almeida_os.Address.{va, pa, virt_addr_kernel_start}
use almeida_os.Address.Laws.{va-cases}
use almeida_os.Buddy.{Slots, BuddyRef}
use almeida_os.Buddy.Coords.{IsRef, InRange}
use almeida_os.Buddy.Valid.{IsValid, IsFree, block-le}
use almeida_os.Buddy.AllocLaws.{Allocated, Outcome}
use almeida_os.Buddy.Promise.{buddy_alloc_lem}
use almeida_os.Buddy.FreeLaws.{Settles}
use almeida_os.Buddy.Cycle.{settle, null_free}
use almeida_os.Buddy.Alloc.{order_of, buddy_alloc}
use almeida_os.Buddy.Free.{buddy_free}
use almeida_os.Kmem.{kmalloc_raw, kfree}

-- What `kmalloc_raw` followed by `kfree` of its result comes to: the same blocks are given out as before,
-- unless the block starts at physical address 0. An allocation that halts found no free block of the
-- order `k` or a larger one.
abbrev pub Returned : BuddyRef → Slots → ℕ → Run (ℕ × Slots) → Type 0
Returned ref m k (ok (v, m')) =
    Settles ref m (kfree ref v m') ⊎ ((v ≡ virt_addr_kernel_start) × (kfree ref v m' ≡ bug))
Returned ref m k bug = (l q : ℕ) → k ≤ l → InRange ref l q → ¬ IsFree ref m l q
Returned ref m k running = ⊥

pub low_addresses :
    (p : ℕ)
    → p < 2 ^ 47
    → (va p ≡ ok (virt_addr_kernel_start + p)) × (pa (virt_addr_kernel_start + p) ≡ ok p)
low_addresses p h = elim (va-cases p) [
  | inl (_, e, f) ↦ (e, sym (ap (λ t. t >>= pa) e) ∙ f)
  | inr (inl (a, _, _, _)) ↦ absurd (omega arith)
  | inr (inr (a, _)) ↦ absurd (omega arith)
]

pub block_low :
    {ref : BuddyRef} {m m' : Slots} (k ptr : ℕ)
    → IsRef ref
    → ref.content_mem_reg.base_addr + 2 ^ ref.max_pow_order ≤ 2 ^ 47
    → Allocated ref m k ptr m'
    → ptr < 2 ^ 47
block_low k ptr r low t = omega (arith, t.address, block-le k t.place t.in_range, two-pow_pos k)

pub kfree_lem :
    (ref : BuddyRef) (m : Slots) (ptr : ℕ)
    → ptr < 2 ^ 47
    → kfree ref (virt_addr_kernel_start + ptr) m ≡ buddy_free ref ptr m
unfolding kfree
kfree_lem ref m ptr h = ap (λ t. t >>= λ p. buddy_free ref p m) (low_addresses ptr h).1

given_back :
    (ref : BuddyRef) (m : Slots) (k ptr : ℕ) (m' : Slots)
    → IsRef ref
    → ptr < 2 ^ 47
    → Allocated ref m k ptr m'
    → Returned ref m k (ok (virt_addr_kernel_start + ptr, m'))
given_back ref m k zero m' r h t = inr (omega arith, kfree_lem ref m' zero h ∙ null_free ref m')
given_back ref m k (suc ptr) m' r h t = inl (
    subst (λ x. Settles ref m x) (sym (kfree_lem ref m' (suc ptr) h))
      (settle ref m k (suc ptr) m' r (omega arith) t))

return :
    (ref : BuddyRef) (m : Slots) (k : ℕ)
    → IsRef ref
    → ref.content_mem_reg.base_addr + 2 ^ ref.max_pow_order ≤ 2 ^ 47
    → (res : Run (ℕ × Slots)) → Outcome ref m k res
    → Returned ref m k (res >>= λ x. va x.0 >>= λ v. ok (v, x.1))
return ref m k r low running t = t
return ref m k r low bug t = t
return ref m k r low (ok (ptr, m')) t =
    let h = block_low k ptr r low t in
    subst (λ x. Returned ref m k (x >>= λ v. ok (v, m'))) (sym (low_addresses ptr h).0)
      (given_back ref m k ptr m' r h t)

-- Over a well-formed tree in a region below 2 ^ 47, a request of at least one byte and at most the
-- region's length either halts, and then no block of its order or a larger one is free, or it gets a
-- virtual address. `kfree` of that address ends without a halt in a well-formed tree that gives out
-- the same blocks as before the request; if the block starts at physical address 0, it halts instead.
pub kfree-kmalloc_raw :
    {ref : BuddyRef} {m : Slots} (bytes : ℕ)
    → IsRef ref
    → IsValid ref m
    → 0 < bytes
    → bytes ≤ ref.content_mem_reg.length
    → ref.content_mem_reg.base_addr + 2 ^ ref.max_pow_order ≤ 2 ^ 47
    → Returned ref m (order_of ref bytes) (kmalloc_raw ref bytes m)
unfolding kmalloc_raw
kfree-kmalloc_raw {ref} {m} bytes r h a b low =
    return ref m (order_of ref bytes) r low (buddy_alloc ref bytes m)
      (buddy_alloc_lem bytes r h a b)
