-- ===== src/Paging/Tree.antt =====
-- What a write and a new table do to the tree of tables of src/kernel/mm/page.c.
use almeida_os.Base.{
  ℕ, zero, suc, ◌+◌, ◌*◌, ◌/◌, ◌%◌, ◌^◌, ◌<◌, ◌≡◌, refl, sym, ap, ◌∙◌, subst, ◌≢◌, inl, inr, true,
  false, List, [], ◌∷◌, arith, ◌==◌, if◌then◌else◌, ==→eq, eq→==, Bool-cases,
}
use almeida_os.Word.Bits.{bit_and-ones}
use almeida_os.PageFrame.{PageFrame}
use almeida_os.Paging.{PageTable, table_of, entry_of, prep_base_addr, write_entry}
use almeida_os.Paging.Walk.{Owners, IsFrame, Apart, AllFresh, GoodEntry, IsTree}
use almeida_os.Paging.Change.{words_apart, write_entry_other, write_entry_self}

-- An entry for a frame is present and leads to the frame.
pub entry_of_frame :
    (f flags : ℕ)
    → IsFrame f
    → flags % 2 ≡ 1
    → (table_of (entry_of f flags) ≡ f) × (entry_of f flags % 2 ≡ 1)
unfolding table_of entry_of prep_base_addr
entry_of_frame f flags a b =
    let low = bit_and-ones 28 (f / 2 ^ 12) in (omega (arith, low), omega (arith, low))

-- the free frames after a write to a table
pub fresh_written :
    (o : Owners) (m : ℕ → ℕ) (table l i e : ℕ) (free : List PageFrame)
    → IsFrame table
    → o.level table ≡ suc l
    → i < 512
    → AllFresh o m free
    → AllFresh o (write_entry (table + 8 * i) e m) free
fresh_written o m table l i e [] a b c all = tt
fresh_written o m table l i e (x ∷ xs) a b c ((frame, no_table, zeros), apart, rest) = (
  (
    frame,
    no_table,
    λ j d.
        write_entry_other (table + 8 * i) e m (x.phy_addr + 8 * j) (λ w.
          let (same, _) = words_apart x.phy_addr table j i frame.0 a.0 d c w in
          let level : 0 ≡ suc l = sym no_table ∙ ap o.level same ∙ b in omega arith)
        ∙ zeros j d,
  ),
  apart,
  fresh_written o m table l i e xs a b c rest,
)

-- A good entry keeps the tree.
pub write-IsTree :
    (o : Owners) (t : PageTable) (table l i e : ℕ)
    → IsTree o t
    → o.level table ≡ suc l
    → i < 512
    → GoodEntry o l (o.region table * 512 + i) e
    → IsTree o (record t { memory = write_entry (table + 8 * i) e t.memory })
write-IsTree o t table l i e tree here inside good = record {
  root_level = tree.root_level;
  root_region = tree.root_region;
  fresh =
      fresh_written o t.memory table l i e t.pfdb.free (tree.frame table l here) here inside
        tree.fresh;
  frame = tree.frame;
  entry = kept;
}
  where
    kept :
        (f k j : ℕ)
        → o.level f ≡ suc k
        → j < 512
        → GoodEntry o k (o.region f * 512 + j) (write_entry (table + 8 * i) e t.memory (f + 8 * j))
    kept f k j level d = elim (Bool-cases (f + 8 * j == table + 8 * i)) [
      | inl same ↦
          let place : f + 8 * j ≡ table + 8 * i = ==→eq _ _ same in
          let (f_table, j_i) =
            words_apart f table j i (tree.frame f k level).0 (tree.frame table l here).0 d inside
              place in
          let depth : suc k ≡ suc l = sym level ∙ ap o.level f_table ∙ here in
          let k_l : k ≡ l = omega arith in
          let value = write_entry_self (table + 8 * i) e t.memory in
          rw (f_table, j_i, k_l, value) good
      | inr other ↦
          let value =
            write_entry_other (table + 8 * i) e t.memory (f + 8 * j) (λ w. ground arith) in
          rw value (tree.entry f k j level d)
    ]

-- the frame `f` becomes a table
abbrev pub adopt : ℕ → ℕ → ℕ → Owners → Owners
adopt f level region o = record {
  level = λ x. if x == f then level else o.level x;
  region = λ x. if x == f then region else o.region x;
}

module _ (f level region : ℕ) (o : Owners) where
  pub adopt_self :
      ((adopt f level region o).level f ≡ level) × ((adopt f level region o).region f ≡ region)
  adopt_self = let e : (f == f) ≡ true = eq→== f f refl in (rw e refl, rw e refl)

  pub adopt_other :
      (x : ℕ)
      → x ≢ f
      → ((adopt f level region o).level x ≡ o.level x)
        × ((adopt f level region o).region x ≡ o.region x)
  adopt_other x n = let e : (x == f) ≡ false = ground arith in (rw e refl, rw e refl)

  fresh_adopted :
      (m : ℕ → ℕ) (free : List PageFrame)
      → Apart f free
      → AllFresh o m free
      → AllFresh (adopt f level region o) m free
  fresh_adopted m [] a all = tt
  fresh_adopted m (x ∷ xs) (n, a) ((frame, no_table, zeros), apart, rest) = (
    (frame, (adopt_other x.phy_addr (λ w. n (sym w))).0 ∙ no_table, zeros),
    apart,
    fresh_adopted m xs a rest,
  )

pub adopt_entry :
    (f level region : ℕ) (o : Owners) (k part part' e : ℕ)
    → o.level f ≡ 0
    → part ≡ part'
    → GoodEntry o k part e
    → GoodEntry (adopt f level region o) k part' e
adopt_entry f level region o k part part' e free same (inl empty) = inl empty
adopt_entry f level region o k part part' e free same (inr (present, inl last)) =
    inr (present, inl last)
adopt_entry f level region o zero part part' e free same (inr (present, inr (below, leads))) =
    inr (present, inl refl)
adopt_entry f level region o (suc k) part part' e free same (inr (present, inr (below, leads))) =
    let other =
      adopt_other f level region o (table_of e)
        (λ w. let z : 0 ≡ suc k = sym free ∙ ap o.level (sym w) ∙ below in omega arith) in
    inr (present, inr (other.0 ∙ below, other.1 ∙ leads ∙ same))

-- The first free frame may become a table of any part of the address space.
pub adopt-IsTree :
    (o : Owners) (t : PageTable) (x : PageFrame) (rest : List PageFrame) (l region : ℕ)
    → t.pfdb.free ≡ x ∷ rest
    → IsTree o t
    → IsTree
        (adopt x.phy_addr (suc l) region o)
        (record t { pfdb = record { free = rest; used = x ∷ t.pfdb.used } })
adopt-IsTree o t x rest l region e tree =
    by_fresh (subst (λ fs. AllFresh o t.memory fs) e tree.fresh)
  where
    by_fresh :
        AllFresh o t.memory (x ∷ rest)
        → IsTree
            (adopt x.phy_addr (suc l) region o)
            (record t { pfdb = record { free = rest; used = x ∷ t.pfdb.used } })
    by_fresh ((frame, no_table, zeros), apart, all) =
        let differs : (y k : ℕ) → o.level y ≡ suc k → y ≢ x.phy_addr =
          λ y k d w. let z : 0 ≡ suc k = sym no_table ∙ ap o.level (sym w) ∙ d in omega arith in
        let other = adopt_other x.phy_addr (suc l) region o in
        let root = other t.phys_root (differs t.phys_root 3 tree.root_level) in
        record {
          root_level = root.0 ∙ tree.root_level;
          root_region = root.1 ∙ tree.root_region;
          fresh = fresh_adopted x.phy_addr (suc l) region o t.memory rest apart all;
          frame = λ y k d. elim (Bool-cases (y == x.phy_addr)) [
            | inl same ↦ rw (==→eq y x.phy_addr same) frame
            | inr n ↦ tree.frame y k (sym (other y (λ w. ground arith)).0 ∙ d)
          ];
          entry = λ y k i d h. elim (Bool-cases (y == x.phy_addr)) [
            | inl same ↦ inl (rw (==→eq y x.phy_addr same) (zeros i h))
            | inr n ↦
                let (same, part) = other y (λ w. ground arith) in
                adopt_entry x.phy_addr (suc l) region o k (o.region y * 512 + i) _
                  (t.memory (y + 8 * i)) no_table (ap (λ r. r * 512 + i) (sym part))
                  (tree.entry y k i (sym same ∙ d) h)
          ];
        }

-- What one level of page_alloc comes to: the table `next` of the level below, to which the entry at
-- `at` leads, in a tree with the same translations.
