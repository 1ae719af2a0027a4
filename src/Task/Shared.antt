-- ===== src/Task/Shared.antt =====
-- The kernel's half in the page table of a process, which `create_process` of
-- src/kernel/task/process.c copies there.
use almeida_os.Base.{
  ℕ, zero, suc, ◌+◌, ◌-◌, ◌*◌, ◌/◌, ◌%◌, ◌≤◌, ◌<◌, ◌≡◌, refl, sym, ap, ◌∙◌, ◌≢◌, ◌⊎◌, inl, inr,
  true, false, ◌&&◌, none, arith, ltb, leb, ◌==◌, if◌then◌else◌,
}
use almeida_os.Paging.{PageTable, pml4e, table_of}
use almeida_os.Paging.Walk.{slot, slot_at, slots_of, lookup, translate, Owners, IsTree}
use almeida_os.Paging.Change.{slot-lt, step_same}
use almeida_os.Task.Create.{copy_kernel_half}

-- Walks from the lower levels of a tree, over a memory that agrees on the tables of those levels.
agreeing_lookup :
    (o : Owners) (t : PageTable) (m' : ℕ → ℕ) (n : ℕ)
    → IsTree o t
    → ((f l i : ℕ)
        → o.level f ≡ suc l
        → suc l ≤ n
        → i < 512
        → m' (f + 8 * i) ≡ t.memory (f + 8 * i))
    → (k s v : ℕ) → suc k ≤ n
    → o.level s ≡ suc k
    → lookup (suc k) s m' v ≡ lookup (suc k) s t.memory v
unfolding lookup
agreeing_lookup o t m' n tree agree zero s v low level =
    step_same o t.memory m' zero s (o.region s * 512 + slot 1 v) v
      (agree s zero (slot 1 v) level low (slot-lt 1 v))
      (tree.entry s zero (slot 1 v) level (slot-lt 1 v)) (λ next. refl)
agreeing_lookup o t m' n tree agree (suc k) s v low level =
    step_same o t.memory m' (suc k) s (o.region s * 512 + slot (suc (suc k)) v) v
      (agree s (suc k) (slot (suc (suc k)) v) level low (slot-lt (suc (suc k)) v))
      (tree.entry s (suc k) (slot (suc (suc k)) v) level (slot-lt (suc (suc k)) v))
      (λ next. elim next [
        | inl z ↦ absurd (omega arith)
        | inr (below, part) ↦ agreeing_lookup o t m' n tree agree k _ v (omega arith) below
      ])

-- the words that the copy writes, and the others
copied_word :
    (dst src : ℕ) (m : ℕ → ℕ) (i : ℕ)
    → 256 ≤ i
    → i < 512
    → copy_kernel_half dst src m (dst + 8 * i) ≡ m (src + 8 * i)
unfolding copy_kernel_half
copied_word dst src m i a b =
    let inside : (leb (dst + 2048) (dst + 8 * i) && ltb (dst + 8 * i) (dst + 4096)) ≡ true =
      ground arith in
    let place : dst + 8 * i - dst ≡ 8 * i = omega arith in rw (inside, place) refl

other_word :
    (dst src : ℕ) (m : ℕ → ℕ) (a : ℕ)
    → (a < dst + 2048) ⊎ (dst + 4096 ≤ a)
    → copy_kernel_half dst src m a ≡ m a
unfolding copy_kernel_half
other_word dst src m a (inl h) =
    let outside : (leb (dst + 2048) a && ltb a (dst + 4096)) ≡ false = ground arith in
    rw outside refl
other_word dst src m a (inr h) =
    let outside : (leb (dst + 2048) a && ltb a (dst + 4096)) ≡ false = ground arith in
    rw outside refl

-- a word of another frame
frame_word :
    (dst src : ℕ) (m : ℕ → ℕ) (f i : ℕ)
    → dst % 4096 ≡ 0
    → f % 4096 ≡ 0
    → f ≢ dst
    → i < 512
    → copy_kernel_half dst src m (f + 8 * i) ≡ m (f + 8 * i)
frame_word dst src m f i a b n h = other_word dst src m (f + 8 * i) (apart (f / 4096) (dst / 4096))
  where
    apart : (x y : ℕ) → (f + 8 * i < dst + 2048) ⊎ (dst + 4096 ≤ f + 8 * i)
    apart x y = grind arith

-- The translations once the kernel's half of `k` is copied to the table of `p`.
pub record SharesKernel (k p : PageTable) (m' : ℕ → ℕ) : Type 0 where
  pub kernel : (v : ℕ) → lookup 4 k.phys_root m' v ≡ translate k v
  pub upper : (v : ℕ) → 256 ≤ pml4e v → lookup 4 p.phys_root m' v ≡ translate k v
  pub lower : (v : ℕ) → pml4e v < 256 → lookup 4 p.phys_root m' v ≡ translate p v

module _ (kernel user : Owners) (k p : PageTable) (tree : IsTree kernel k) (tree' : IsTree user p)
    (same : p.memory ≡ k.memory) (apart : kernel.level p.phys_root ≡ 0) where
  abbrev copied : ℕ → ℕ
  copied = copy_kernel_half p.phys_root k.phys_root k.memory

  -- The tables of the kernel, and those of the process below its root, are not written.
  kernel_word :
      (f l i : ℕ) → kernel.level f ≡ suc l → i < 512 → copied (f + 8 * i) ≡ k.memory (f + 8 * i)
  kernel_word f l i level h =
      frame_word p.phys_root k.phys_root k.memory f i (tree'.frame p.phys_root 3 tree'.root_level).0
        (tree.frame f l level).0 (λ e. absurd (omega (arith, level, apart, ap kernel.level e))) h

  user_word :
      (f l i : ℕ)
      → user.level f ≡ suc l
      → suc l ≤ 3
      → i < 512
      → copied (f + 8 * i) ≡ p.memory (f + 8 * i)
  user_word f l i level low h =
      frame_word p.phys_root k.phys_root k.memory f i (tree'.frame p.phys_root 3 tree'.root_level).0
        (tree'.frame f l level).0
        (λ e. absurd (omega (arith, level, low, tree'.root_level, ap user.level e))) h
      ∙ ap (λ m. m (f + 8 * i)) (sym same)

  kernel_kept : (v : ℕ) → lookup 4 k.phys_root copied v ≡ translate k v
  kernel_kept v =
      agreeing_lookup kernel k copied 4 tree (λ f l i a b c. kernel_word f l i a c) 3 k.phys_root v
        (omega arith) tree.root_level

  upper_half : (v : ℕ) → 256 ≤ pml4e v → lookup 4 p.phys_root copied v ≡ translate k v
  unfolding lookup
  upper_half v h =
      let index = (slots_of v).0 in
      let word : copied (slot_at p.phys_root 4 v) ≡ copied (slot_at k.phys_root 4 v) =
        copied_word p.phys_root k.phys_root k.memory (slot 4 v) (omega (arith, index)) (slot-lt 4 v)
        ∙ sym (kernel_word k.phys_root 3 (slot 4 v) tree.root_level (slot-lt 4 v)) in
      ap (λ e. if e % 2 == 0 then none else lookup 3 (table_of e) copied v) word ∙ kernel_kept v

  lower_half : (v : ℕ) → pml4e v < 256 → lookup 4 p.phys_root copied v ≡ translate p v
  lower_half v h =
      let index = (slots_of v).0 in
      let word : copied (slot_at p.phys_root 4 v) ≡ p.memory (slot_at p.phys_root 4 v) =
        other_word p.phys_root k.phys_root k.memory (slot_at p.phys_root 4 v)
          (inl (omega (arith, index)))
        ∙ ap (λ m. m (slot_at p.phys_root 4 v)) (sym same) in
      step_same user p.memory copied 3 p.phys_root (user.region p.phys_root * 512 + slot 4 v) v word
        (tree'.entry p.phys_root 3 (slot 4 v) tree'.root_level (slot-lt 4 v))
        (λ next. elim next [
          | inl z ↦ absurd (omega arith)
          | inr (below, part) ↦
              agreeing_lookup user p copied 3 tree' user_word 2 _ v (omega arith) below
        ])

-- Over a tree of tables of the kernel and one of a process in the same memory, whose root is no table
-- of the kernel, the copy leaves the translations of the kernel as they are; the process gets those of
-- the kernel in the kernel's half and keeps its own in the other.
pub copy_kernel_half_lem :
    (kernel user : Owners) (k p : PageTable)
    → IsTree kernel k
    → IsTree user p
    → p.memory ≡ k.memory
    → kernel.level p.phys_root ≡ 0
    → SharesKernel k p (copy_kernel_half p.phys_root k.phys_root k.memory)
copy_kernel_half_lem kernel user k p tree tree' same apart = record {
  kernel = kernel_kept kernel user k p tree tree' same apart;
  upper = upper_half kernel user k p tree tree' same apart;
  lower = lower_half kernel user k p tree tree' same apart;
}
