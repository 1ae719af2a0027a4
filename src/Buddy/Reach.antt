-- ===== src/Buddy/Reach.antt =====
-- The states that src/kernel/mm/buddy.c gets into by initialising, allocating and freeing.
use almeida_os.Base.{
  ℕ, ◌+◌, ◌-◌, ◌*◌, ◌^◌, ◌≤◌, ◌<◌, ◌≡◌, refl, sym, ap, ◌∙◌, subst, ◌≢◌, ◌⊎◌, inl, inr, Bool, true,
  false, ◌||◌, arith, ltb, ◌==◌, Bool-cases, Run, ok, bug, running,
}
use almeida_os.MemMap.{Region}
use almeida_os.Buddy.{Slots, BuddyRef, make_ref, buddy_init, write}
use almeida_os.Buddy.Coords.{IsRef, InRange}
use almeida_os.Buddy.Valid.{IsValid, IsUsed, block_addr}
use almeida_os.Buddy.AllocLaws.{Outcome}
use almeida_os.Buddy.Promise.{buddy_alloc_lem}
use almeida_os.Buddy.Release.{buddy_free_lem}
use almeida_os.Buddy.Disjoint.{used_disjoint}
use almeida_os.Buddy.Init.{make_ref-IsRef, buddy_init_lem}
use almeida_os.Buddy.Alloc.{order_of, buddy_alloc}
use almeida_os.Buddy.Free.{buddy_free}

-- Allocations of any size that do not halt, and frees of addresses in blocks that are given out, in
-- any order.
pub data Reachable (header content : Region) (ref : BuddyRef) : Slots → Type 0 where
  initialised :
      (m m' : Slots) → buddy_init header content m ≡ ok (ref, m') → Reachable header content ref m'
  allocated :
      (bytes ptr : ℕ) (m m' : Slots)
      → Reachable header content ref m
      → buddy_alloc ref bytes m ≡ ok (ptr, m')
      → Reachable header content ref m'
  freed :
      (k p ptr : ℕ) (m m' : Slots)
      → Reachable header content ref m
      → InRange ref k p
      → IsUsed ref m k p
      → 0 < ptr
      → block_addr ref k p ≤ ptr
      → ptr < block_addr ref k p + 2 ^ k
      → buddy_free ref ptr m ≡ ok m'
      → Reachable header content ref m'

-- No two blocks that are given out share an address.
abbrev pub AllApart : BuddyRef → Slots → Type 0
AllApart ref m =
    (k p l q : ℕ)
    → InRange ref k p
    → InRange ref l q
    → IsUsed ref m k p
    → IsUsed ref m l q
    → (k ≡ l → p ≢ q)
    → (block_addr ref k p + 2 ^ k ≤ block_addr ref l q)
      ⊎ (block_addr ref l q + 2 ^ l ≤ block_addr ref k p)

no_result {ℓ} : {A : Type ℓ} (a : A) → bug ≡ ok a → ⊥
no_result {A = A} a e = let bad : true ≡ false = ap is_bug e in cc
  where
    is_bug : Run A → Bool
    is_bug (ok x) = false
    is_bug bug = true
    is_bug running = false

refused :
    (ref : BuddyRef) (bytes : ℕ) (m : Slots)
    → (bytes == 0 || ltb ref.content_mem_reg.length bytes) ≡ true
    → buddy_alloc ref bytes m ≡ bug
unfolding buddy_alloc
refused ref bytes m f = rw (buddy_alloc, f) refl

-- A request that does not halt is of at least one byte and no more than the region.
accepted :
    (ref : BuddyRef) (bytes ptr : ℕ) (m m' : Slots)
    → buddy_alloc ref bytes m ≡ ok (ptr, m')
    → (bytes == 0 || ltb ref.content_mem_reg.length bytes) ≡ false
accepted ref bytes ptr m m' e =
    elim (Bool-cases (bytes == 0 || ltb ref.content_mem_reg.length bytes)) [
      | inr f ↦ f
      | inl f ↦ absurd (no_result (ptr, m') (sym (refused ref bytes m f) ∙ e))
    ]

-- the slots of a result that is known
slots_of : Slots → Run (BuddyRef × Slots) → Slots
slots_of d (ok (r, m)) = m
slots_of d bug = d
slots_of d running = d

module _ (header content : Region) (n : ℕ) (low : 12 ≤ n) (high : n < 64)
    (extent : content.length ≡ 2 ^ n) (fits : content.base_addr + 2 ^ n ≤ 2 ^ 64)
    (space : 2 ^ (n - 11) * 16 ≤ header.length) where
  abbrev ref : BuddyRef
  ref = make_ref header content

  r : IsRef ref
  r = make_ref-IsRef header content n low high extent fits

  Reachable-IsValid : (m : Slots) → Reachable header content ref m → IsValid ref m
  unfolding slots_of write
  Reachable-IsValid m (initialised m0 m1 e) =
      let first = buddy_init_lem header content n low high extent fits m0 space in
      subst (λ t. IsValid ref t) (ap (slots_of m0) (sym first.1 ∙ e)) first.3
  Reachable-IsValid m (allocated bytes ptr m0 m1 s e) =
      let ok_request = accepted ref bytes ptr m0 m1 e in
      let t =
        subst (λ res. Outcome ref m0 (order_of ref bytes) res) e
          (buddy_alloc_lem bytes r (Reachable-IsValid m0 s) (ground arith) (ground arith)) in
      t.valid
  Reachable-IsValid m (freed k p ptr m0 m1 s v u a b c e) =
      let done = buddy_free_lem r (Reachable-IsValid m0 s) k p v u ptr a b c in
      subst (λ t. IsValid ref t) (ap (freed_of m0) (sym done.ends ∙ e)) done.valid
    where
      freed_of : Slots → Run Slots → Slots
      freed_of d (ok x) = x
      freed_of d bug = d
      freed_of d running = d

  -- Over a region of `2 ^ n` bytes with `n` from 12 to 63 that does not wrap, and a header of the size
  -- that `buddy_calc_header_space` asks for, after `buddy_init` and any sequence of allocations that
  -- do not halt and of frees of addresses in blocks that are given out, the slots form a tree of
  -- blocks, and no two blocks that are given out share an address.
  pub Reachable-AllApart :
      (m : Slots) → Reachable header content ref m → IsValid ref m × AllApart ref m
  Reachable-AllApart m s = let h = Reachable-IsValid m s in (h, used_disjoint r h)
