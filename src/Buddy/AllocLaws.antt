-- ===== src/Buddy/AllocLaws.antt =====
-- `buddy_alloc` of src/kernel/mm/buddy.c: what it returns, when it halts, and that it ends.
use native.Mathlib.Decide.{ℕ_discrete, dec_lt}
use almeida_os.Base.{
  ℕ, zero, suc, ◌+◌, ◌-◌, ◌*◌, ◌≤◌, ◌<◌, ◌≡◌, ◌≢◌, refl, sym, ap₂, ◌∙◌, ◌⊎◌, inl, inr, true, false,
  ◌==◌, ltb, eq→==, lt→ltb, le→ltb, none, some, subst, Run, ok, bug, running, arith,
}
use almeida_os.Word.{u8}
use almeida_os.Buddy.{unused, split, used, Slots, BuddyRef, set_type, pred8, split_slot}
use almeida_os.Buddy.Coords.{IsRef, InRange, at, left-InRange}
use almeida_os.Buddy.Valid.{IsLive, IsValid, IsFree, IsUsed, block_addr, live-base}
use almeida_os.Buddy.SplitValid.{halved, halved-IsValid, used-halved, halved-used, halved-IsFree}
use almeida_os.Buddy.Retype.{retyped, retyped-IsValid, retyped-here, retyped-other}
use almeida_os.Buddy.Search.{find_free_slot-Found}
use almeida_os.Buddy.Alloc.{alloc_loop, find_free_slot}

-- What an allocation of order `k` does: one block of that order, which no block given out before
-- was, becomes used; no other block does or ceases to.
pub record Allocated (ref : BuddyRef) (m : Slots) (k : ℕ) (ptr : ℕ) (m' : Slots) : Type 0 where
  pub place : ℕ
  pub in_range : InRange ref k place
  pub address : ptr ≡ block_addr ref k place
  pub fresh : ¬ IsUsed ref m k place
  pub taken : IsUsed ref m' k place
  pub keeps : (l q : ℕ) → InRange ref l q → IsUsed ref m l q → IsUsed ref m' l q
  pub only :
      (l q : ℕ) → InRange ref l q → IsUsed ref m' l q → IsUsed ref m l q ⊎ ((l ≡ k) × (q ≡ place))
  pub valid : IsValid ref m'

-- The result of a run, with every case in which the kernel halts.
abbrev pub Outcome : BuddyRef → Slots → ℕ → Run (ℕ × Slots) → Type 0
Outcome ref m k (ok (ptr, m')) = Allocated ref m k ptr m'
Outcome ref m k bug = (l q : ℕ) → k ≤ l → InRange ref l q → ¬ IsFree ref m l q
Outcome ref m k running = ⊥

module _ {ref : BuddyRef} (r : IsRef ref) where
  -- Taking a free block of the order asked for.
  module _ {m : Slots} (h : IsValid ref m) (k p : ℕ) (v : InRange ref k p)
      (free : IsFree ref m k p) where
    whole : (m (at ref k p)).type ≢ split
    whole e = let bad : unused ≡ split = sym free.1 ∙ e in cc

    now_used : used ≢ split
    now_used e = cc

    taken_slots : Slots
    taken_slots = retyped r h k p v free.0 whole used now_used

    Kept' : ℕ → ℕ → Type 0
    Kept' l q =
        ((l ≡ k) × (q ≡ p)) ⊎ ((l ≡ k → q ≢ p) × (taken_slots (at ref l q) ≡ m (at ref l q)))

    take-Allocated : Allocated ref m k (m (at ref k p)).base_addr (set_type m (at ref k p) used)
    take-Allocated = record {
      place = p;
      in_range = v;
      address = live-base r h k p v free.0;
      fresh = λ u. let bad : unused ≡ used = sym free.1 ∙ u.1 in cc;
      taken = rw (retyped-here r h k p v free.0 whole used now_used) (free.0, refl);
      keeps = λ l q w u.
          let away : l ≡ k → q ≢ p = λ a b.
            let bad : unused ≡ used =
              sym free.1 ∙ ap₂ (λ s t. (m (at ref s t)).type) (sym a) (sym b) ∙ u.1 in
            cc in
          rw (retyped-other r h k p v free.0 whole used now_used l q w away) u;
      only = λ l q w u. elim (ℕ_discrete l k) [
        | no a ↦
            let away : l ≡ k → q ≢ p = λ e. absurd (a e) in
            inl (rw (retyped-other r h k p v free.0 whole used now_used l q w away) at u)
        | yes a ↦ elim (ℕ_discrete q p) [
          | yes b ↦ inr (a, b)
          | no b ↦
              let away : l ≡ k → q ≢ p = λ e. b in
              inl (rw (retyped-other r h k p v free.0 whole used now_used l q w away) at u)
        ]
      ];
      valid = retyped-IsValid r h k p v free.0 whole used now_used;
    }

  -- What an allocation does to the slots after a split, it does to those before.
  Allocated-halved :
      {m : Slots} (h : IsValid ref m) (k l p : ℕ) (v : InRange ref l p) (free : IsFree ref m l p)
      (big : ref.min_pow_order < l) (ptr : ℕ) (m' : Slots)
      → Allocated ref (halved r h l p v free.0 free.1 big) k ptr m'
      → Allocated ref m k ptr m'
  Allocated-halved h k l p v free big ptr m' a = record {
    place = a.place;
    in_range = a.in_range;
    address = a.address;
    fresh = λ u. a.fresh (used-halved r h l p v free.0 free.1 big k a.place a.in_range u);
    taken = a.taken;
    keeps = λ j q w u. a.keeps j q w (used-halved r h l p v free.0 free.1 big j q w u);
    only = λ j q w u. elim (a.only j q w u) [
      | inl x ↦ inl (halved-used r h l p v free.0 free.1 big j q w x)
      | inr x ↦ inr x
    ];
    valid = a.valid;
  }

  abbrev Succeeds : Slots → ℕ → Run (ℕ × Slots) → Type 0
  Succeeds m k res = (ptr : ℕ) × (m' : Slots) × (res ≡ ok (ptr, m')) × Allocated ref m k ptr m'

  -- The rounds of the loop.
  stop_step :
      (fuel k p : ℕ) (m : Slots)
      → IsLive ref m k p
      → find_free_slot ref m k ≡ some (at ref k p)
      → alloc_loop (suc fuel) ref k k m
        ≡ ok ((m (at ref k p)).base_addr, set_type m (at ref k p) used)
  unfolding alloc_loop
  stop_step fuel k p m live e =
      let same : ltb k (m (at ref k p)).pow_order ≡ false = rw live (le→ltb k k (omega arith)) in
      rw (e, alloc_loop, same)

  split_step :
      (fuel k l p : ℕ) (m : Slots)
      → InRange ref l p
      → IsLive ref m l p
      → k < l
      → find_free_slot ref m l ≡ some (at ref l p)
      → alloc_loop (suc fuel) ref k l m
        ≡ alloc_loop fuel ref k (l - 1) (split_slot ref m (at ref l p))
  unfolding alloc_loop
  split_step fuel k l p m v live b e =
      let larger : ltb k (m (at ref l p)).pow_order ≡ true = rw live (lt→ltb k l b) in
      let less : pred8 l ≡ l - 1 = omega (arith, v.upper, r.small) in
      rw (e, alloc_loop, larger, less)

  climb_step :
      (fuel k l : ℕ) (m : Slots)
      → find_free_slot ref m l ≡ none
      → l < ref.max_pow_order
      → alloc_loop (suc fuel) ref k l m ≡ alloc_loop fuel ref k (l + 1) m
  unfolding alloc_loop
  climb_step fuel k l m e b =
      let on : (l == ref.max_pow_order) ≡ false = ground arith in
      let more : u8 (l + 1) ≡ l + 1 = omega (arith, r.small) in rw (e, alloc_loop, on, more)

  fail_step :
      (fuel k l : ℕ) (m : Slots)
      → find_free_slot ref m l ≡ none
      → l ≡ ref.max_pow_order
      → alloc_loop (suc fuel) ref k l m ≡ bug
  unfolding alloc_loop
  fail_step fuel k l m e b = rw (e, alloc_loop, eq→== l ref.max_pow_order b)

  -- From an order with a free block the loop goes down to the order asked for.
  down :
      (fuel k l : ℕ) {m : Slots} (h : IsValid ref m) (p : ℕ)
      → InRange ref l p
      → IsFree ref m l p
      → ref.min_pow_order ≤ k
      → k ≤ l
      → l < k + fuel
      → Succeeds m k (alloc_loop fuel ref k l m)
  down zero k l h p v f a b c = absurd (omega arith)
  down (suc fuel) k l {m} h p v f a b c = elim (find_free_slot-Found r h l v.lower v.upper) [
    | inl (_, nothing) ↦ absurd (nothing p v f)
    | inr (q, e, w, g) ↦ elim (dec_lt k l) [
      | no same ↦
          let eq : k ≡ l = omega arith in
          rw eq (
            (m (at ref l q)).base_addr,
            set_type m (at ref l q) used,
            stop_step fuel l q m g.0 e,
            take-Allocated h l q w g,
          )
      | yes more ↦
          let big : ref.min_pow_order < l = omega arith in
          let (ptr, m', x, y) =
            down fuel k (l - 1) (halved-IsValid r h l q w g.0 g.1 big) (2 * q)
              (left-InRange r l q w big) (halved-IsFree r h l q w g.0 g.1 big) a (omega arith)
              (omega arith) in
          (
            ptr,
            m',
            split_step fuel k l q m w g.0 more e ∙ x,
            Allocated-halved h k l q w g big ptr m' y,
          )
    ]
  ]

  -- The loop from order `l`, when no block of an order from `k` up to `l` is free.
  pub climb :
      (fuel k l : ℕ) {m : Slots}
      → IsValid ref m
      → ref.min_pow_order ≤ k
      → k ≤ l
      → l ≤ ref.max_pow_order
      → ((j q : ℕ) → k ≤ j → j < l → InRange ref j q → ¬ IsFree ref m j q)
      → ref.max_pow_order + ref.max_pow_order < l + k + fuel
      → Outcome ref m k (alloc_loop fuel ref k l m)
  climb zero k l h a b c n d = absurd (omega arith)
  climb (suc fuel) k l {m} h a b c n d = elim (find_free_slot-Found r h l (omega arith) c) [
    | inr (q, e, w, g) ↦
        let (ptr, m', x, y) = down (suc fuel) k l h q w g a b (omega arith) in rw x y
    | inl (e, nothing) ↦
        let so_far : (j q : ℕ) → k ≤ j → j < l + 1 → InRange ref j q → ¬ IsFree ref m j q =
          λ j q s t w. elim (dec_lt j l) [
            | yes below ↦ n j q s below w
            | no here ↦
                let eq : j ≡ l = omega arith in
                λ g.
                  nothing q (subst (λ i. InRange ref i q) eq w) (subst (λ i. IsFree ref m i q) eq g)
          ] in
        elim (dec_lt l ref.max_pow_order) [
          | yes more ↦
              rw (climb_step fuel k l m e more)
                (climb fuel k (l + 1) h a (omega arith) (omega arith) so_far (omega arith))
          | no top ↦
              rw (fail_step fuel k l m e (omega arith))
                (λ j q s w. so_far j q s (omega (arith, w.upper)) w)
        ]
  ]
