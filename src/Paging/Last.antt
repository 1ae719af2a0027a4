-- ===== src/Paging/Last.antt =====
-- The last level of `page_alloc` of src/kernel/mm/page.c, once the table is found.
use almeida_os.Base.{
  ℕ, ◌+◌, ◌*◌, ◌/◌, ◌%◌, ◌^◌, ◌≤◌, ◌<◌, ◌≡◌, refl, sym, ap, ◌∙◌, inl, inr, true, false, Option,
  none, some, arith, ◌==◌, if◌then◌else◌, ==→eq, Bool-cases, length,
}
use almeida_os.Word.Bits.{bit_and-ones}
use almeida_os.Paging.{PageTable, table_of, entry_of, prep_base_addr, write_entry}
use almeida_os.Paging.Walk.{
  slot, slot_at, lookup, translate, region_of, region_of_next, Owners, GoodEntry, IsTree,
}
use almeida_os.Paging.Change.{
  slot-lt, write_entry_other, write_entry_self, lookup_absent, lookup_present, same_lookup,
}

-- a translation that is there stays
abbrev pub first : Option ℕ → ℕ → Option ℕ
first none page = some page
first (some old) page = some old

-- the page of a physical address, as far as PREP_BASE_ADDR keeps it
abbrev pub page_of : ℕ → ℕ
page_of p = p % 2 ^ 40 / 4096 * 4096

pub entry_of_page :
    (p flags : ℕ)
    → flags % 2 ≡ 1
    → (table_of (entry_of p flags) ≡ page_of p) × (entry_of p flags % 2 ≡ 1)
unfolding table_of entry_of prep_base_addr
entry_of_page p flags b =
    let low = bit_and-ones 28 (p / 2 ^ 12) in (omega (arith, low), omega (arith, low))

pub same_slots :
    (v w : ℕ)
    → w / 4096 ≡ v / 4096
    → (slot 4 w ≡ slot 4 v) × (slot 3 w ≡ slot 3 v) × (slot 2 w ≡ slot 2 v) × (slot 1 w ≡ slot 1 v)
same_slots v w e = (omega arith, omega arith, omega arith, omega arith)

abbrev pub last_step : (ℕ → ℕ) → ℕ → Option ℕ
last_step m a = if m a % 2 == 0 then none else some (table_of (m a))

pub lookup_last :
    (table : ℕ) (m : ℕ → ℕ) (v : ℕ) → lookup 1 table m v ≡ last_step m (slot_at table 1 v)
unfolding lookup
lookup_last table m v = refl

-- an entry that is present, and the table that it leads to
abbrev pub LeadsTo : (ℕ → ℕ) → ℕ → ℕ → Type 0
LeadsTo m at next = (m at % 2 ≡ 1) × (table_of (m at) ≡ next)

-- a walk over entries that are present
pub through :
    (root pdp pd pt v : ℕ) (m : ℕ → ℕ)
    → LeadsTo m (slot_at root 4 v) pdp
    → LeadsTo m (slot_at pdp 3 v) pd
    → LeadsTo m (slot_at pd 2 v) pt
    → lookup 4 root m v ≡ lookup 1 pt m v
through root pdp pd pt v m (p4, e4) (p3, e3) (p2, e2) =
    lookup_present 3 root m v _ refl p4
    ∙ ap (λ s. lookup 3 s m v) e4
    ∙ lookup_present 2 pdp m v _ refl p3
    ∙ ap (λ s. lookup 2 s m v) e3
    ∙ lookup_present 1 pd m v _ refl p2
    ∙ ap (λ s. lookup 1 s m v) e2

-- What page_alloc comes to: one more page in the map, if it was not there.
pub record LowMapped (t : PageTable) (v p : ℕ) (t' : PageTable) : Type 0 where
  pub owners : Owners
  pub tree : IsTree owners t'
  pub root : t'.phys_root ≡ t.phys_root
  pub count : length t.pfdb.free ≤ length t'.pfdb.free + 3
  pub maps :
      (w : ℕ)
      → w < 2 ^ 48
      → translate t' w
        ≡ (if w / 4096 == v / 4096 then first (translate t w) (page_of p) else translate t w)

-- the last level: `c` has the tables for `v`
module _ (o : Owners) (c : PageTable) (tree : IsTree o c) (pdp pd pt v p flags : ℕ)
    (level : o.level pt ≡ 1) (region : o.region pt ≡ region_of 1 v)
    (e4 : LeadsTo c.memory (slot_at c.phys_root 4 v) pdp)
    (e3 : LeadsTo c.memory (slot_at pdp 3 v) pd) (e2 : LeadsTo c.memory (slot_at pd 2 v) pt)
    (flagged : flags % 2 ≡ 1) where
  -- the walk of `v` with any memory that keeps the entries that are present
  pub reach :
      (w : ℕ) (m : ℕ → ℕ)
      → w / 4096 ≡ v / 4096
      → ((a : ℕ) → c.memory a % 2 ≡ 1 → m a ≡ c.memory a)
      → lookup 4 c.phys_root m w ≡ lookup 1 pt m v
  reach w m e kept =
      let (s4, s3, s2, s1) = same_slots v w e in
      let k4 = kept (slot_at c.phys_root 4 v) e4.0 in
      let k3 = kept (slot_at pdp 3 v) e3.0 in
      let k2 = kept (slot_at pd 2 v) e2.0 in
      through c.phys_root pdp pd pt w m (rw (s4, k4) e4) (rw (s3, k3) e3) (rw (s2, k2) e2)
      ∙ lookup_last pt m w
      ∙ ap (λ j. last_step m (pt + 8 * j)) s1
      ∙ sym (lookup_last pt m v)

  -- the entry of the page is there
  pub page_there :
      (t : PageTable)
      → t.phys_root ≡ c.phys_root
      → (c.memory (slot_at pt 1 v) == 0) ≡ false
      → ((w : ℕ) → w < 2 ^ 48 → translate c w ≡ translate t w)
      → (w : ℕ) → w < 2 ^ 48
      → translate c w
        ≡ (if w / 4096 == v / 4096 then first (translate t w) (page_of p) else translate t w)
  page_there t root e same w h = elim (Bool-cases (w / 4096 == v / 4096)) [
    | inr n ↦ rw n (same w h)
    | inl here ↦
        let value =
          reach w c.memory (==→eq _ _ here) (λ a odd. refl)
          ∙ present_last (tree.entry pt 0 (slot 1 v) level (slot-lt 1 v)) in
        rw here (value ∙ ap (λ q. first q (page_of p)) (sym value ∙ same w h))
  ]
    where
      present_last :
          GoodEntry o 0 (o.region pt * 512 + slot 1 v) (c.memory (slot_at pt 1 v))
          → lookup 1 pt c.memory v ≡ some (table_of (c.memory (slot_at pt 1 v)))
      present_last (inl empty) = absurd (ground arith)
      present_last (inr (odd, _)) =
          let f : (c.memory (slot_at pt 1 v) % 2 == 0) ≡ false = ground arith in
          lookup_last pt c.memory v ∙ rw f refl

  -- the entry of the page is made
  pub page_made :
      (t : PageTable)
      → (c.memory (slot_at pt 1 v) == 0) ≡ true
      → v < 2 ^ 48
      → ((w : ℕ) → w < 2 ^ 48 → translate c w ≡ translate t w)
      → (w : ℕ) → w < 2 ^ 48
      → lookup 4 c.phys_root (write_entry (slot_at pt 1 v) (entry_of p flags) c.memory) w
        ≡ (if w / 4096 == v / 4096 then first (translate t w) (page_of p) else translate t w)
  page_made t e low same w h =
      let at = slot_at pt 1 v in
      let m = write_entry at (entry_of p flags) c.memory in
      let zero_at : c.memory at ≡ 0 = ==→eq _ _ e in
      elim (Bool-cases (w / 4096 == v / 4096)) [
        | inl here ↦
            let was =
              reach w c.memory (==→eq _ _ here) (λ a odd. refl)
              ∙ lookup_absent 0 pt c.memory v zero_at in
            let now = reach w m (==→eq _ _ here) (λ a odd.
              write_entry_other at (entry_of p flags) c.memory a
                (λ x. let y : c.memory a ≡ 0 = ap c.memory x ∙ zero_at in omega arith)) in
            let (page, odd) = entry_of_page p flags flagged in
            let value = write_entry_self at (entry_of p flags) c.memory in
            let f : (entry_of p flags % 2 == 0) ≡ false = ground arith in
            rw here (
              now
              ∙ lookup_last pt m v
              ∙ rw (value, f) (ap (λ q. some q) page)
              ∙ ap (λ q. first q (page_of p)) (sym was ∙ same w h))
        | inr n ↦ rw n (
            same_lookup o c tree pt 0 (slot 1 v) (entry_of p flags) level (slot-lt 1 v) w 3
              c.phys_root
              (λ (part, here).
                let r = region_of_next 0 w in
                let r' = region_of_next 0 v in absurd (ground (arith, r, r', part, here, region)))
              tree.root_level (tree.root_region ∙ omega arith)
            ∙ same w h)
      ]

-- What page_alloc comes to: it halts only for want of frames for the three tables below the root.
