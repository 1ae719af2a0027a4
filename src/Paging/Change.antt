-- ===== src/Paging/Change.antt =====
-- What one write to a table of src/kernel/mm/page.c does to the walks of the processor.
use almeida_os.Base.{
  ℕ, zero, suc, ◌+◌, ◌*◌, ◌%◌, ◌<◌, ◌≡◌, refl, sym, ap, ◌∙◌, ◌≢◌, ◌⊎◌, inl, inr, false, none, arith,
  ◌==◌, ==→eq, eq→==, Bool-cases,
}
use almeida_os.Paging.{PageTable, table_of, write_entry}
use almeida_os.Paging.Walk.{
  slot, slot_at, lookup, region_of, region_of_next, Owners, GoodEntry, IsTree,
}

pub words_apart :
    (f g i j : ℕ)
    → f % 4096 ≡ 0
    → g % 4096 ≡ 0
    → i < 512
    → j < 512
    → f + 8 * i ≡ g + 8 * j
    → (f ≡ g) × (i ≡ j)
words_apart f g i j a b p q e = omega arith

pub slot-lt : (level v : ℕ) → slot level v < 512
slot-lt level v = omega arith

pub write_entry_other :
    (at e : ℕ) (memory : ℕ → ℕ) (a : ℕ) → a ≢ at → write_entry at e memory a ≡ memory a
unfolding write_entry
write_entry_other at e memory a n = let f : (a == at) ≡ false = ground arith in rw f refl

pub write_entry_self : (at e : ℕ) (memory : ℕ → ℕ) → write_entry at e memory at ≡ e
unfolding write_entry
write_entry_self at e memory = rw (eq→== at at refl) refl

-- one step of a walk
pub lookup_absent :
    (level table : ℕ) (memory : ℕ → ℕ) (v : ℕ)
    → memory (slot_at table (suc level) v) ≡ 0
    → lookup (suc level) table memory v ≡ none
unfolding lookup
lookup_absent level table memory v e = rw (lookup, e) refl

pub lookup_present :
    (level table : ℕ) (memory : ℕ → ℕ) (v entry : ℕ)
    → memory (slot_at table (suc level) v) ≡ entry
    → entry % 2 ≡ 1
    → lookup (suc level) table memory v ≡ lookup level (table_of entry) memory v
unfolding lookup
lookup_present level table memory v entry e p =
    let f : (entry % 2 == 0) ≡ false = ground arith in rw (lookup, e, f) refl

-- one step of a walk over two memories that agree on the entry
pub step_same :
    (o : Owners) (m m' : ℕ → ℕ) (k s region v : ℕ)
    → m' (slot_at s (suc k) v) ≡ m (slot_at s (suc k) v)
    → GoodEntry o k region (m (slot_at s (suc k) v))
    → ((k ≡ 0)
          ⊎ ((o.level (table_of (m (slot_at s (suc k) v))) ≡ k)
              × (o.region (table_of (m (slot_at s (suc k) v))) ≡ region))
        → lookup k (table_of (m (slot_at s (suc k) v))) m' v
          ≡ lookup k (table_of (m (slot_at s (suc k) v))) m v)
    → lookup (suc k) s m' v ≡ lookup (suc k) s m v
step_same o m m' k s region v kept (inl empty) rest =
    lookup_absent k s m' v (kept ∙ empty) ∙ sym (lookup_absent k s m v empty)
step_same o m m' k s region v kept (inr (present, next)) rest =
    lookup_present k s m' v _ kept present ∙ rest next ∙ sym (lookup_present k s m v _ refl present)

module _ (o : Owners) (t : PageTable) (tree : IsTree o t) (table l i e : ℕ)
    (here : o.level table ≡ suc l) (inside : i < 512) where
  abbrev pub written : ℕ → ℕ
  written = write_entry (table + 8 * i) e t.memory

  -- The walk goes through the entry that is written.
  abbrev pub Hit : ℕ → Type 0
  Hit v = (region_of (suc l) v ≡ o.region table) × (slot (suc l) v ≡ i)

  -- The walk from a table other than by that entry, or by it if it goes on as before.
  step_from :
      (v k s : ℕ)
      → (Hit v → lookup (suc l) table written v ≡ lookup (suc l) table t.memory v)
      → o.level s ≡ suc k
      → o.region s ≡ region_of (suc k) v
      → ((k ≡ 0)
            ⊎ ((o.level (table_of (t.memory (slot_at s (suc k) v))) ≡ k)
                × (o.region (table_of (t.memory (slot_at s (suc k) v)))
                    ≡ o.region s * 512 + slot (suc k) v))
          → lookup k (table_of (t.memory (slot_at s (suc k) v))) written v
            ≡ lookup k (table_of (t.memory (slot_at s (suc k) v))) t.memory v)
      → lookup (suc k) s written v ≡ lookup (suc k) s t.memory v
  step_from v k s hit level region rest = elim (Bool-cases (slot_at s (suc k) v == table + 8 * i)) [
    | inl same ↦
        let (s_table, s_slot) =
          words_apart s table (slot (suc k) v) i (tree.frame s k level).0
            (tree.frame table l here).0 (slot-lt (suc k) v) inside (==→eq _ _ same) in
        let depth : suc k ≡ suc l = sym level ∙ ap o.level s_table ∙ here in
        let k_l : k ≡ l = omega arith in
        rw (s_table, k_l)
          (hit (
            ap (λ x. region_of x v) (sym depth) ∙ sym region ∙ ap o.region s_table,
            ap (λ x. slot x v) (sym depth) ∙ s_slot,
          ))
    | inr other ↦
        step_same o t.memory written k s (o.region s * 512 + slot (suc k) v) v
          (write_entry_other (table + 8 * i) e t.memory (slot_at s (suc k) v) (λ w. ground arith))
          (tree.entry s k (slot (suc k) v) level (slot-lt (suc k) v)) rest
  ]

  -- A walk ends as before if it does not come to the entry, or goes on from there as before.
  pub same_lookup :
      (v k s : ℕ)
      → (Hit v → lookup (suc l) table written v ≡ lookup (suc l) table t.memory v)
      → o.level s ≡ suc k
      → o.region s ≡ region_of (suc k) v
      → lookup (suc k) s written v ≡ lookup (suc k) s t.memory v
  unfolding lookup
  same_lookup v zero s hit level region = step_from v zero s hit level region (λ next. refl)
  same_lookup v (suc k) s hit level region = step_from v (suc k) s hit level region (λ next.
      elim next [
        | inl z ↦ absurd (omega arith)
        | inr (below, part) ↦
            same_lookup v k (table_of (t.memory (slot_at s (suc (suc k)) v))) hit below (
              part
              ∙ ap (λ x. x * 512 + slot (suc (suc k)) v) region
              ∙ sym (region_of_next (suc k) v))
      ])
