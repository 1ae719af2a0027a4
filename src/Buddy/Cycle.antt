-- ===== src/Buddy/Cycle.antt =====
-- `buddy_alloc` followed by `buddy_free` of its result (src/kernel/mm/buddy.c).
use almeida_os.Base.{
  ℕ, zero, suc, ◌≤◌, ◌<◌, ◌≡◌, refl, subst, ◌⊎◌, inl, inr, arith, Run, ok, bug, running,
}
use almeida_os.Word.Bits.{two-pow_pos}
use almeida_os.Buddy.{Slots, BuddyRef}
use almeida_os.Buddy.Coords.{IsRef, InRange}
use almeida_os.Buddy.Valid.{IsValid, IsFree, IsUsed}
use almeida_os.Buddy.AllocLaws.{Allocated, Outcome}
use almeida_os.Buddy.Promise.{buddy_alloc_lem}
use almeida_os.Buddy.Release.{buddy_free_lem}
use almeida_os.Buddy.FreeLaws.{Settles}
use almeida_os.Buddy.Alloc.{order_of, buddy_alloc}
use almeida_os.Buddy.Free.{buddy_free}

-- What an allocation followed by the freeing of its result comes to: the same blocks are given out as
-- before, unless the block starts at address 0, which `buddy_free` refuses. An allocation that halts
-- found no free block of the order `k` or a larger one.
abbrev pub Undone : BuddyRef → Slots → ℕ → Run (ℕ × Slots) → Type 0
Undone ref m k (ok (ptr, m')) =
    Settles ref m (buddy_free ref ptr m') ⊎ ((ptr ≡ 0) × (buddy_free ref ptr m' ≡ bug))
Undone ref m k bug = (l q : ℕ) → k ≤ l → InRange ref l q → ¬ IsFree ref m l q
Undone ref m k running = ⊥

pub settle :
    (ref : BuddyRef) (m : Slots) (k ptr : ℕ) (m' : Slots)
    → IsRef ref
    → 0 < ptr
    → Allocated ref m k ptr m'
    → Settles ref m (buddy_free ref ptr m')
settle ref m k ptr m' r positive t =
    let done =
      buddy_free_lem r t.valid k t.place t.in_range t.taken ptr (omega (arith, t.address))
        (omega (arith, t.address)) (omega (arith, t.address, two-pow_pos k)) in
    (
      done.slots,
      done.ends,
      done.valid,
      λ l q w. (
        λ u.
            done.keeps l q w
              (λ x y.
                t.fresh (subst (λ i. IsUsed ref m i t.place) x (subst (λ i. IsUsed ref m l i) y u)))
              (t.keeps l q w u),
        λ u. elim (t.only l q w (done.only l q w u)) [
          | inl x ↦ x
          | inr (x, y) ↦ absurd (
              done.gone (
                subst (λ i. IsUsed ref done.slots i t.place) x
                  (subst (λ i. IsUsed ref done.slots l i) y u)))
        ],
      ),
    )

pub null_free : (ref : BuddyRef) (m : Slots) → buddy_free ref 0 m ≡ bug
unfolding buddy_free
null_free ref m = refl

undo :
    (ref : BuddyRef) (m : Slots) (k : ℕ)
    → IsRef ref
    → (res : Run (ℕ × Slots)) → Outcome ref m k res
    → Undone ref m k res
undo ref m k r running t = t
undo ref m k r bug t = t
undo ref m k r (ok (zero, m')) t = inr (refl, null_free ref m')
undo ref m k r (ok (suc ptr, m')) t = inl (settle ref m k (suc ptr) m' r (omega arith) t)

-- Over a well-formed tree, a request of at least one byte and at most the region's length either
-- halts, and then no block of its order or a larger one is free, or it gets an address. Freeing that
-- address ends without a halt in a well-formed tree that gives out the same blocks as before the
-- request; if the address is 0, freeing it halts instead.
pub buddy_free-buddy_alloc :
    {ref : BuddyRef} {m : Slots} (bytes : ℕ)
    → IsRef ref
    → IsValid ref m
    → 0 < bytes
    → bytes ≤ ref.content_mem_reg.length
    → Undone ref m (order_of ref bytes) (buddy_alloc ref bytes m)
buddy_free-buddy_alloc {ref} {m} bytes r h a b =
    undo ref m (order_of ref bytes) r (buddy_alloc ref bytes m) (buddy_alloc_lem bytes r h a b)
