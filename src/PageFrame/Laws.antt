-- ===== src/PageFrame/Laws.antt =====
-- Frames are neither lost nor made by src/kernel/mm/pageframe.c.
use almeida_os.Base.{
  ℕ, suc, ◌≡◌, refl, sym, ap, ◌∙◌, subst, ◌≢◌, ◌⊎◌, inl, inr, true, false, some, List, [], ◌∷◌,
  ◌++◌, ◌==◌, ==→eq, eq→==, Bool-cases, Run, ok, bug, running, ◌>>=◌,
}
use almeida_os.PageFrame.{
  PageFrame, PageFrameDatabase, pageframe_alloc, pageframe_free, predecessor_loop, find_predecessor,
  unlink_after, unlink, delete_node,
}

-- no frame of the list has this address
abbrev pub Absent : List PageFrame → ℕ → Type 0
Absent [] v = Unit {0}
Absent (x ∷ xs) v = (x.phy_addr ≢ v) × Absent xs v

-- The first frame with the address leaves the list, or there is none and the kernel halts.
abbrev pub Removal : List PageFrame → ℕ → Run (PageFrame × List PageFrame) → Type 0
Removal xs v res =
    ((before : List PageFrame) × (pf : PageFrame) × (after : List PageFrame) × (xs
        ≡ before ++ pf ∷ after)
      × (pf.phy_addr ≡ v)
      × Absent before v
      × (res ≡ ok (pf, before ++ after)))
    ⊎ (Absent xs v × (res ≡ bug))

loop_shift :
    (xs : List PageFrame) (v n : ℕ)
    → predecessor_loop xs v (suc n) ≡ (predecessor_loop xs v n >>= λ i. ok (suc i))
unfolding predecessor_loop
loop_shift [] v n = refl
loop_shift (x ∷ []) v n = refl
loop_shift (x ∷ y ∷ rest) v n = elim (Bool-cases (y.phy_addr == v)) [
  | inl e ↦ rw (predecessor_loop, e) refl
  | inr e ↦ rw (predecessor_loop, e) (loop_shift (y ∷ rest) v (suc n))
]

-- A node before the search and the unlinking stays at the front.
unlink_shift :
    (x y : PageFrame) (rest : List PageFrame) (q : Run ℕ)
    → ((q >>= λ i. ok (suc i)) >>= unlink_after (x ∷ y ∷ rest))
      ≡ ((q >>= unlink_after (y ∷ rest)) >>= λ r. ok (r.0, x ∷ r.1))
unfolding unlink_after
unlink_shift x y rest (ok i) = refl
unlink_shift x y rest bug = refl
unlink_shift x y rest running = refl

Removal-grow :
    (x : PageFrame) (xs : List PageFrame) (v : ℕ) (res : Run (PageFrame × List PageFrame))
    → x.phy_addr ≢ v
    → Removal xs v res
    → Removal (x ∷ xs) v (res >>= λ r. ok (r.0, x ∷ r.1))
Removal-grow x xs v res n (inl (before, pf, after, split, found, absent, e)) = inl (
  x ∷ before,
  pf,
  after,
  ap (λ l. x ∷ l) split,
  found,
  (n, absent),
  ap (λ t. t >>= λ r. ok (r.0, x ∷ r.1)) e,
)
Removal-grow x xs v res n (inr (absent, e)) =
    inr ((n, absent), ap (λ t. t >>= λ r. ok (r.0, x ∷ r.1)) e)

-- From a node that is not the one looked for, the search and the unlinking.
after_node :
    (x : PageFrame) (xs : List PageFrame) (v : ℕ)
    → x.phy_addr ≢ v
    → Removal (x ∷ xs) v (predecessor_loop (x ∷ xs) v 0 >>= unlink_after (x ∷ xs))
unfolding predecessor_loop unlink_after
after_node x [] v n = inr ((n, tt), refl)
after_node x (y ∷ rest) v n = elim (Bool-cases (y.phy_addr == v)) [
  | inl e ↦ inl (x ∷ [], y, rest, refl, ==→eq _ _ e, (n, tt), rw (predecessor_loop, e) refl)
  | inr e ↦
      let other : y.phy_addr ≢ v = λ z. let bad : true ≡ false = sym (eq→== _ _ z) ∙ e in cc in
      let run : predecessor_loop (x ∷ y ∷ rest) v 0
          ≡ (predecessor_loop (y ∷ rest) v 0 >>= λ i. ok (suc i)) =
        rw (predecessor_loop, e) (loop_shift (y ∷ rest) v 0) in
      subst (λ t. Removal (x ∷ y ∷ rest) v t)
        (sym (
          ap (λ t. t >>= unlink_after (x ∷ y ∷ rest)) run
          ∙ unlink_shift x y rest (predecessor_loop (y ∷ rest) v 0)))
        (Removal-grow x (y ∷ rest) v _ n (after_node y rest v other))
]

some_place :
    (v : ℕ) (xs : List PageFrame) (q : Run ℕ)
    → ((q >>= λ place. ok (some place)) >>= unlink v xs) ≡ (q >>= unlink_after xs)
unfolding unlink
some_place v xs (ok i) = refl
some_place v xs bug = refl
some_place v xs running = refl

delete_head :
    (x : PageFrame) (xs : List PageFrame) (v : ℕ)
    → x.phy_addr ≡ v
    → delete_node (x ∷ xs) v ≡ ok (x, xs)
unfolding delete_node find_predecessor unlink
delete_head x xs v h = let e = eq→== _ _ h in rw (find_predecessor, e, unlink, e) refl

delete_node-Removal :
    (x : PageFrame) (xs : List PageFrame) (v : ℕ) → Removal (x ∷ xs) v (delete_node (x ∷ xs) v)
unfolding delete_node find_predecessor unlink
delete_node-Removal x xs v = elim (Bool-cases (x.phy_addr == v)) [
  | inl e ↦ inl ([], x, xs, refl, ==→eq _ _ e, tt, delete_head x xs v (==→eq _ _ e))
  | inr e ↦
      let other : x.phy_addr ≢ v = λ z. let bad : true ≡ false = sym (eq→== _ _ z) ∙ e in cc in
      subst (λ t. Removal (x ∷ xs) v t)
        (sym (rw (find_predecessor, e) (some_place v (x ∷ xs) (predecessor_loop (x ∷ xs) v 0))))
        (after_node x xs v other)
]

-- What freeing the frame at an address does: the first used frame with the address goes to the front
-- of the free frames, and all others stay in their order; without one the kernel halts.
abbrev pub Given : PageFrameDatabase → ℕ → Run PageFrameDatabase → Type 0
Given pfdb v res =
    ((before : List PageFrame) × (pf : PageFrame) × (after : List PageFrame) × (pfdb.used
        ≡ before ++ pf ∷ after)
      × (pf.phy_addr ≡ v)
      × Absent before v
      × (res ≡ ok (record { free = pf ∷ pfdb.free; used = before ++ after })))
    ⊎ (Absent pfdb.used v × (res ≡ bug))

-- `pageframe_free` moves the first used frame with the address to the front of the free frames and
-- keeps all others in their order; it halts exactly when no used frame has the address.
pub pageframe_free_lem : (pfdb : PageFrameDatabase) (v : ℕ) → Given pfdb v (pageframe_free pfdb v)
unfolding pageframe_free
pageframe_free_lem pfdb v = by_used pfdb.free pfdb.used
  where
    by_used :
        (free used : List PageFrame)
        → Given
            (record { free = free; used = used })
            v
            (pageframe_free (record { free = free; used = used }) v)
    by_used free [] = inr (tt, refl)
    by_used free (x ∷ xs) = by_removal (delete_node-Removal x xs v)
      where
        by_removal :
            Removal (x ∷ xs) v (delete_node (x ∷ xs) v)
            → Given
                (record { free = free; used = x ∷ xs })
                v
                (pageframe_free (record { free = free; used = x ∷ xs }) v)
        by_removal (inl (before, pf, after, split, found, absent, e)) =
            inl (before, pf, after, split, found, absent, rw e refl)
        by_removal (inr (absent, e)) = inr (absent, rw e refl)

-- An allocation halts when no frame is free, and else can be undone.
abbrev pub Undoes : PageFrameDatabase → Type 0
Undoes pfdb =
    ((pfdb.free ≡ []) × (pageframe_alloc pfdb ≡ bug))
    ⊎ ((addr : ℕ) × (after : PageFrameDatabase) × (pageframe_alloc pfdb ≡ ok (addr, after))
        × (pageframe_free after addr ≡ ok pfdb))

-- Either no frame is free and `pageframe_alloc` halts, or freeing its result gives back the database
-- as it was before.
pub pageframe_free-pageframe_alloc : (pfdb : PageFrameDatabase) → Undoes pfdb
unfolding pageframe_alloc pageframe_free
pageframe_free-pageframe_alloc pfdb = by_free pfdb.free pfdb.used
  where
    by_free : (free used : List PageFrame) → Undoes (record { free = free; used = used })
    by_free [] used = inl (refl, refl)
    by_free (x ∷ rest) used = inr (
      x.phy_addr,
      record { free = rest; used = x ∷ used },
      refl,
      rw (delete_head x used x.phy_addr refl) refl,
    )
