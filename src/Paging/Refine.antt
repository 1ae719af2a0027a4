-- ===== src/Paging/Refine.antt =====
-- page_alloc of src/kernel/mm/page.c as an update of the map from virtual to physical pages.
use almeida_os.Base.{
  ℕ, suc, ◌+◌, ◌*◌, ◌%◌, ◌^◌, ◌≤◌, ◌<◌, ◌≡◌, refl, sym, ap, ◌∙◌, subst, ◌⊎◌, inl, inr, arith, ◌==◌,
  Bool-cases, length, Run, ok, bug,
}
use almeida_os.Paging.{PageTable, table_of, entry_of, write_entry, descend, page_alloc}
use almeida_os.Paging.Walk.{
  slot, slot_at, translate, region_of, region_of_next, slots_of, Owners, IsTree,
}
use almeida_os.Paging.Change.{slot-lt}
use almeida_os.Paging.Tree.{write-IsTree}
use almeida_os.Paging.Level.{Descended, Descends, descend_lem}
use almeida_os.Paging.Last.{entry_of_page, LeadsTo, LowMapped, page_there, page_made}

abbrev pub LowMaps : PageTable → ℕ → ℕ → Run PageTable → Type 0
LowMaps t v p res =
    ((t' : PageTable) × (res ≡ ok t') × LowMapped t v p t')
    ⊎ ((res ≡ bug) × (length t.pfdb.free < 3))

module _ (t : PageTable) (v p flags : ℕ) (low : v < 2 ^ 48) (flagged : flags % 2 ≡ 1) where
  last_level :
      (pdp pd pt : ℕ) (a b c : PageTable)
      → descend t.phys_root (slot 4 v) flags t ≡ ok (pdp, a)
      → descend pdp (slot 3 v) flags a ≡ ok (pd, b)
      → descend pd (slot 2 v) flags b ≡ ok (pt, c)
      → (da : Descended t (slot_at t.phys_root 4 v) 3 (region_of 3 v) pdp a)
      → (db : Descended a (slot_at pdp 3 v) 2 (region_of 2 v) pd b)
      → (dc : Descended b (slot_at pd 2 v) 1 (region_of 1 v) pt c)
      → LowMaps t v p (page_alloc v p flags t)
  unfolding page_alloc
  last_level pdp pd pt a b c ra rb rc da db dc =
      let (i4, i3, i2, i1) = slots_of v in
      let root : c.phys_root ≡ t.phys_root = dc.root ∙ db.root ∙ da.root in
      let k4b =
        db.kept (slot_at t.phys_root 4 v) (λ z. let x = da.present in absurd (omega arith)) in
      let k4c =
        dc.kept (slot_at t.phys_root 4 v) (λ z. let x = da.present in absurd (omega arith)) in
      let k3c = dc.kept (slot_at pdp 3 v) (λ z. let x = db.present in absurd (omega arith)) in
      let k4 : c.memory (slot_at c.phys_root 4 v) ≡ a.memory (slot_at t.phys_root 4 v) =
        ap (λ r. c.memory (slot_at r 4 v)) root ∙ k4c ∙ k4b in
      let same : (w : ℕ) → w < 2 ^ 48 → translate c w ≡ translate t w =
        λ w h. dc.same w h ∙ db.same w h ∙ da.same w h in
      let e4 : LeadsTo c.memory (slot_at c.phys_root 4 v) pdp =
        (ap (λ x. x % 2) k4 ∙ da.present, ap table_of k4 ∙ da.leads) in
      let e3 : LeadsTo c.memory (slot_at pdp 3 v) pd =
        (ap (λ x. x % 2) k3c ∙ db.present, ap table_of k3c ∙ db.leads) in
      let e2 : LeadsTo c.memory (slot_at pd 2 v) pt = (dc.present, dc.leads) in
      let count : length t.pfdb.free ≤ length c.pfdb.free + 3 =
        omega (arith, da.count, db.count, dc.count) in
      let (page, odd) = entry_of_page p flags flagged in
      elim (Bool-cases (c.memory (slot_at pt 1 v) == 0)) [
        | inr e ↦ inl (
          c,
          rw (page_alloc, i4, i3, i2, i1, ra, rb, rc, e) refl,
          record {
            owners = dc.owners;
            tree = dc.tree;
            root = root;
            count = count;
            maps =
                page_there dc.owners c dc.tree pdp pd pt v p flags dc.level dc.region e4 e3 e2
                  flagged t (sym root) e same;
          },
        )
        | inl e ↦
            let c' : PageTable = record c {
              memory = write_entry (slot_at pt 1 v) (entry_of p flags) c.memory;
            } in
            inl (
              c',
              rw (page_alloc, i4, i3, i2, i1, ra, rb, rc, e) refl,
              record {
                owners = dc.owners;
                tree =
                    write-IsTree dc.owners c pt 0 (slot 1 v) (entry_of p flags) dc.tree dc.level
                      (slot-lt 1 v) (inr (odd, inl refl));
                root = root;
                count = count;
                maps =
                    page_made dc.owners c dc.tree pdp pd pt v p flags dc.level dc.region e4 e3 e2
                      flagged t e low same;
              },
            )
      ]

descend_for :
    (o : Owners) (t : PageTable) (s l flags v : ℕ)
    → IsTree o t
    → o.level s ≡ suc (suc l)
    → o.region s ≡ region_of (suc (suc l)) v
    → flags % 2 ≡ 1
    → Descends t
        (slot_at s (suc (suc l)) v)
        (suc l)
        (region_of (suc l) v)
        (descend s (slot (suc (suc l)) v) flags t)
descend_for o t s l flags v tree level region flagged =
    subst
      (λ part.
        Descends t (slot_at s (suc (suc l)) v) (suc l) part
          (descend s (slot (suc (suc l)) v) flags t))
      (ap (λ r. r * 512 + slot (suc (suc l)) v) region ∙ sym (region_of_next (suc l) v))
      (descend_lem o t tree s l (slot (suc (suc l)) v) flags level (slot-lt (suc (suc l)) v)
        flagged)

-- `page_alloc` on an address of the low 48 bits
pub page_alloc_low_lem :
    (o : Owners) (t : PageTable) (v p flags : ℕ)
    → IsTree o t
    → v < 2 ^ 48
    → flags % 2 ≡ 1
    → LowMaps t v p (page_alloc v p flags t)
unfolding page_alloc
page_alloc_low_lem o t v p flags tree low flagged = top (
    descend_for o t t.phys_root 2 flags v tree tree.root_level (tree.root_region ∙ omega arith)
      flagged)
  where
    halt :
        (length t.pfdb.free < 3)
        → page_alloc v p flags t ≡ bug
        → LowMaps t v p (page_alloc v p flags t)
    halt few e = inr (e, few)

    bottom :
        (pdp pd : ℕ) (a b : PageTable)
        → descend t.phys_root (slot 4 v) flags t ≡ ok (pdp, a)
        → descend pdp (slot 3 v) flags a ≡ ok (pd, b)
        → Descended t (slot_at t.phys_root 4 v) 3 (region_of 3 v) pdp a
        → Descended a (slot_at pdp 3 v) 2 (region_of 2 v) pd b
        → Descends b (slot_at pd 2 v) 1 (region_of 1 v) (descend pd (slot 2 v) flags b)
        → LowMaps t v p (page_alloc v p flags t)
    bottom pdp pd a b ra rb da db (inl (pt, c, rc, dc)) =
        last_level t v p flags low flagged pdp pd pt a b c ra rb rc da db dc
    bottom pdp pd a b ra rb da db (inr (rc, none_left)) =
        let (i4, i3, i2, i1) = slots_of v in
        halt (omega (arith, da.count, db.count, ap length none_left))
          (rw (page_alloc, i4, i3, i2, ra, rb, rc) refl)

    middle :
        (pdp : ℕ) (a : PageTable)
        → descend t.phys_root (slot 4 v) flags t ≡ ok (pdp, a)
        → Descended t (slot_at t.phys_root 4 v) 3 (region_of 3 v) pdp a
        → Descends a (slot_at pdp 3 v) 2 (region_of 2 v) (descend pdp (slot 3 v) flags a)
        → LowMaps t v p (page_alloc v p flags t)
    middle pdp a ra da (inl (pd, b, rb, db)) =
        bottom pdp pd a b ra rb da db
          (descend_for db.owners b pd 0 flags v db.tree db.level db.region flagged)
    middle pdp a ra da (inr (rb, none_left)) =
        let (i4, i3, i2, i1) = slots_of v in
        halt (omega (arith, da.count, ap length none_left)) (rw (page_alloc, i4, i3, ra, rb) refl)

    top :
        Descends t
          (slot_at t.phys_root 4 v)
          3
          (region_of 3 v)
          (descend t.phys_root (slot 4 v) flags t)
        → LowMaps t v p (page_alloc v p flags t)
    top (inl (pdp, a, ra, da)) =
        middle pdp a ra da
          (descend_for da.owners a pdp 1 flags v da.tree da.level da.region flagged)
    top (inr (ra, none_left)) =
        let (i4, i3, i2, i1) = slots_of v in
        halt (omega (arith, ap length none_left)) (rw (page_alloc, i4, ra) refl)
