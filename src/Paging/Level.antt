-- ===== src/Paging/Level.antt =====
-- One level of page_alloc of src/kernel/mm/page.c, and the tree of tables.
use almeida_os.Base.{
  ℕ, suc, ◌+◌, ◌*◌, ◌%◌, ◌^◌, ◌≤◌, ◌<◌, ◌≡◌, refl, sym, ap, ◌∙◌, subst, ◌≢◌, ◌⊎◌, inl, inr, true,
  false, List, [], ◌∷◌, arith, ◌==◌, ==→eq, Bool-cases, length, Run, ok, bug,
}
use almeida_os.Address.Laws.{va_low}
use almeida_os.PageFrame.{PageFrame, pageframe_alloc}
use almeida_os.Paging.{PageTable, table_of, entry_of, write_entry, descend}
use almeida_os.Paging.Walk.{slot, slot_at, lookup, translate, Owners, AllFresh, GoodEntry, IsTree}
use almeida_os.Paging.Change.{
  words_apart, slot-lt, write_entry_other, write_entry_self, lookup_absent, lookup_present, Hit,
  same_lookup,
}
use almeida_os.Paging.Tree.{
  entry_of_frame, write-IsTree, adopt, adopt_self, adopt_other, adopt-IsTree,
}

pub record Descended (t : PageTable) (at l part next : ℕ) (t' : PageTable) : Type 0 where
  pub owners : Owners
  pub tree : IsTree owners t'
  pub level : owners.level next ≡ l
  pub region : owners.region next ≡ part
  pub same : (v : ℕ) → v < 2 ^ 48 → translate t' v ≡ translate t v
  pub kept : (a : ℕ) → t.memory a ≢ 0 → t'.memory a ≡ t.memory a
  pub present : t'.memory at % 2 ≡ 1
  pub leads : table_of (t'.memory at) ≡ next
  pub root : t'.phys_root ≡ t.phys_root
  pub count : length t.pfdb.free ≤ suc (length t'.pfdb.free)

abbrev pub Descends : PageTable → ℕ → ℕ → ℕ → Run (ℕ × PageTable) → Type 0
Descends t at l part res =
    ((next : ℕ) × (t' : PageTable) × (res ≡ ok (next, t')) × Descended t at l part next t')
    ⊎ ((res ≡ bug) × (t.pfdb.free ≡ []))

module _ (o : Owners) (t : PageTable) (tree : IsTree o t) (s l i flags : ℕ)
    (here : o.level s ≡ suc (suc l)) (inside : i < 512) (flagged : flags % 2 ≡ 1) where
  -- the entry is there
  descend_old :
      (t.memory (s + 8 * i) == 0) ≡ false
      → GoodEntry o (suc l) (o.region s * 512 + i) (t.memory (s + 8 * i))
      → Descends t (s + 8 * i) (suc l) (o.region s * 512 + i) (descend s i flags t)
  unfolding descend
  descend_old e (inl empty) = absurd (ground arith)
  descend_old e (inr (present, inl last)) = absurd (omega arith)
  descend_old e (inr (present, inr (below, part))) =
      let next = table_of (t.memory (s + 8 * i)) in
      let high = va_low next (omega (arith, (tree.frame next l below).1)) in
      inl (
        next,
        t,
        rw (descend, e, high) refl,
        record {
          owners = o;
          tree = tree;
          level = below;
          region = part;
          same = λ v h. refl;
          kept = λ a n. refl;
          present = present;
          leads = refl;
          root = refl;
          count = omega arith;
        },
      )

  -- the entry is made for the first free frame
  descend_new :
      (x : PageFrame) (rest : List PageFrame)
      → t.pfdb.free ≡ x ∷ rest
      → AllFresh o t.memory (x ∷ rest)
      → (t.memory (s + 8 * i) == 0) ≡ true
      → Descends t (s + 8 * i) (suc l) (o.region s * 512 + i) (descend s i flags t)
  unfolding descend pageframe_alloc
  descend_new x rest e ((frame, no_table, zeros), apart, all) empty =
      let f = x.phy_addr in
      let part = o.region s * 512 + i in
      let (leads, present) = entry_of_frame f flags frame flagged in
      let high = va_low f (omega arith) in
      let o' = adopt f (suc l) part o in
      let a : PageTable = record t { pfdb = record { free = rest; used = x ∷ t.pfdb.used } } in
      let tree' : IsTree o' a = adopt-IsTree o t x rest l part e tree in
      let other : s ≢ f =
        λ w. let z : suc (suc l) ≡ 0 = sym here ∙ ap o.level w ∙ no_table in omega arith in
      let here' : o'.level s ≡ suc (suc l) = (adopt_other f (suc l) part o s other).0 ∙ here in
      let part' : o'.region s ≡ o.region s = (adopt_other f (suc l) part o s other).1 in
      let self = adopt_self f (suc l) part o in
      let t' : PageTable = record a {
        memory = write_entry (s + 8 * i) (entry_of f flags) t.memory;
      } in
      let value = write_entry_self (s + 8 * i) (entry_of f flags) t.memory in
      let through : (v : ℕ)
          → Hit o' a tree' s (suc l) i (entry_of f flags) here' inside v
          → lookup (suc (suc l)) s t'.memory v ≡ lookup (suc (suc l)) s t.memory v =
        λ v (_, at).
          let apart_words =
            write_entry_other (s + 8 * i) (entry_of f flags) t.memory (slot_at f (suc l) v) (λ w.
              other (
                sym
                  (words_apart f s (slot (suc l) v) i frame.0 (tree.frame s (suc l) here).0
                    (slot-lt (suc l) v) inside w).0)) in
          lookup_present (suc l) s t'.memory v (entry_of f flags)
            (ap (λ j. t'.memory (s + 8 * j)) at ∙ value) present
          ∙ ap (λ y. lookup (suc l) y t'.memory v) leads
          ∙ lookup_absent l f t'.memory v (apart_words ∙ zeros (slot (suc l) v) (slot-lt (suc l) v))
          ∙ sym (
              lookup_absent (suc l) s t.memory v
                (ap (λ j. t.memory (s + 8 * j)) at ∙ ==→eq _ _ empty)) in
      inl (
        f,
        t',
        rw (descend, empty, pageframe_alloc, e, leads, high) refl,
        record {
          owners = o';
          tree = write-IsTree o' a s (suc l) i (entry_of f flags) tree' here' inside (
              inr (
                present,
                inr (
                  ap o'.level leads ∙ self.0,
                  ap o'.region leads ∙ self.1 ∙ ap (λ r. r * 512 + i) (sym part'),
                ),
              ));
          level = self.0;
          region = self.1;
          same = λ v h.
              same_lookup o' a tree' s (suc l) i (entry_of f flags) here' inside v 3 t.phys_root
                (through v) tree'.root_level (tree'.root_region ∙ omega arith);
          kept = λ b n.
              write_entry_other (s + 8 * i) (entry_of f flags) t.memory b
                (λ w. n (ap t.memory w ∙ ==→eq _ _ empty));
          present = ap (λ y. y % 2) value ∙ present;
          leads = ap table_of value ∙ leads;
          root = refl;
          count = omega (arith, ap length e);
        },
      )

  -- One level of page_alloc ends at the table of the level below, or halts if no frame is free.
  pub descend_lem : Descends t (s + 8 * i) (suc l) (o.region s * 512 + i) (descend s i flags t)
  unfolding descend pageframe_alloc
  descend_lem = elim (Bool-cases (t.memory (s + 8 * i) == 0)) [
    | inr e ↦ descend_old e (tree.entry s (suc l) i here inside)
    | inl e ↦ by_free t.pfdb.free refl e
  ]
    where
      by_free :
          (free : List PageFrame)
          → t.pfdb.free ≡ free
          → (t.memory (s + 8 * i) == 0) ≡ true
          → Descends t (s + 8 * i) (suc l) (o.region s * 512 + i) (descend s i flags t)
      by_free [] w e = inr (rw (descend, e, pageframe_alloc, w) refl, w)
      by_free (x ∷ rest) w e =
          descend_new x rest w (subst (λ fs. AllFresh o t.memory fs) w tree.fresh) e
