-- ===== src/Paging/Unmap.antt =====
-- What `page_free` of src/kernel/mm/page.c does to the translations.
use almeida_os.Base.{
  ℕ, zero, suc, ◌+◌, ◌*◌, ◌%◌, ◌^◌, ◌≤◌, ◌<◌, ◌≡◌, refl, sym, ap, ◌∙◌, subst, ◌≢◌, ◌⊎◌, inl, inr,
  Bool, true, false, none, List, [], ◌∷◌, ◌++◌, arith, ◌==◌, Bool-cases, length, length-append, Run,
  ok, ◌>>=◌,
}
use almeida_os.BitOps.{extract_bit_chunk}
use almeida_os.BitOps.Laws.{extract_bit_chunk_lem}
use almeida_os.Address.{va, virt_addr_kernel_start}
use almeida_os.Address.Laws.{va_low}
use almeida_os.PageFrame.{PageFrame}
use almeida_os.PageFrame.Laws.{Absent, pageframe_free_lem}
use almeida_os.Paging.{PageTable, table_of, write_entry}
use almeida_os.Paging.Walk.{slot, slot_at, slots_of, lookup, translate}
use almeida_os.Paging.Change.{slot-lt, lookup_absent, lookup_present, write_entry_self}
use almeida_os.Paging.Release.{is_pagetable_empty, index_of, page_free_resources, page_free}

-- Words of the second memory are those of the first, or cleared.
abbrev pub Clears : (ℕ → ℕ) → (ℕ → ℕ) → Type 0
Clears m m' = (a : ℕ) → (m' a ≡ m a) ⊎ (m' a ≡ 0)

write-Clears : (at : ℕ) (m m' : ℕ → ℕ) → Clears m m' → Clears m (write_entry at 0 m')
unfolding write_entry
write-Clears at m m' c a = elim (Bool-cases (a == at)) [
  | inl e ↦ inr (rw e refl)
  | inr e ↦ subst (λ x. (x ≡ m a) ⊎ (x ≡ 0)) (sym (rw e refl)) (c a)
]

-- A walk over cleared words ends as before or finds no page.
lookup-Clears :
    (k s : ℕ) (m m' : ℕ → ℕ) (w : ℕ)
    → Clears m m'
    → (lookup k s m' w ≡ lookup k s m w) ⊎ (lookup k s m' w ≡ none)
unfolding lookup
lookup-Clears zero s m m' w c = inl refl
lookup-Clears (suc k) s m m' w c = elim (c (slot_at s (suc k) w)) [
  | inr z ↦ inr (lookup_absent k s m' w z)
  | inl e ↦ elim (Bool-cases (m (slot_at s (suc k) w) % 2 == 0)) [
    | inl f ↦ inr (rw (lookup, e, f) refl)
    | inr f ↦
        let odd : m (slot_at s (suc k) w) % 2 ≡ 1 = ground arith in
        let here = lookup_present k s m' w _ e odd in
        let there = lookup_present k s m w _ refl odd in
        elim (lookup-Clears k (table_of (m (slot_at s (suc k) w))) m m' w c) [
          | inl g ↦ inl (here ∙ g ∙ sym there)
          | inr g ↦ inr (here ∙ g)
        ]
  ]
]

-- some frame of the list has this address
abbrev pub Held : List PageFrame → ℕ → Type 0
Held used a = ¬ Absent used a

-- an address that is no table of a walk
abbrev pub Off : ℕ → ℕ → (ℕ → ℕ) → ℕ → ℕ → Type 0
Off zero table m v a = Unit {0}
Off (suc level) table m v a =
    (table ≢ a) × Off level (table_of (m (slot_at table (suc level) v))) m v a

-- The tables of a walk are different used frames below 2 ^ 47, and its entries have no bits above
-- those of an address.
abbrev pub Walked : ℕ → ℕ → PageTable → ℕ → Type 0
Walked zero table t v = Unit {0}
Walked (suc level) table t v =
    (table + 4096 ≤ 2 ^ 47)
    × (t.memory (slot_at table (suc level) v) < 2 ^ 48)
    × Held t.pfdb.used table
    × Off level (table_of (t.memory (slot_at table (suc level) v))) t.memory v table
    × Walked level (table_of (t.memory (slot_at table (suc level) v))) t v

-- the page is gone from the table of a level
abbrev Gone : ℕ → ℕ → ℕ → Bool → PageTable → Type 0
Gone zero table v freed t = freed ≡ true
Gone (suc level) table v freed t = lookup (suc level) table t.memory v ≡ none

-- how many frames the database counts
abbrev pub frames_of : PageTable → ℕ
frames_of t = length t.pfdb.free + length t.pfdb.used

abbrev Releases : ℕ → ℕ → ℕ → PageTable → Run (Bool × PageTable) → Type 0
Releases level table v t res =
    (freed : Bool) × (t' : PageTable) × (res ≡ ok (freed, t'))
    × Clears t.memory t'.memory
    × Gone level table v freed t'
    × (t'.phys_root ≡ t.phys_root)
    × (frames_of t' ≡ frames_of t)
    × ((a : ℕ) → Off level table t.memory v a → Held t.pfdb.used a → Held t'.pfdb.used a)

Absent-put :
    (before after : List PageFrame) (pf : PageFrame) (a : ℕ)
    → pf.phy_addr ≢ a
    → Absent (before ++ after) a
    → Absent (before ++ pf ∷ after) a
Absent-put [] after pf a n h = (n, h)
Absent-put (x ∷ before) after pf a n (m, h) = (m, Absent-put before after pf a n h)

index_lem : (level v : ℕ) → level ≤ 3 → index_of (suc level) v ≡ slot (suc level) v
unfolding index_of
index_lem zero v h = (slots_of v).3
index_lem (suc zero) v h = (slots_of v).2
index_lem (suc (suc zero)) v h = (slots_of v).1
index_lem (suc (suc (suc zero))) v h = (slots_of v).0
index_lem (suc (suc (suc (suc l)))) v h = absurd (omega arith)

next_lem : (entry : ℕ) → entry < 2 ^ 48 → extract_bit_chunk 12 51 entry * 2 ^ 12 ≡ table_of entry
unfolding table_of
next_lem entry h = omega (arith, extract_bit_chunk_lem 12 51 entry (omega arith) (omega arith))

module _ (level table v : ℕ) (t t1 : PageTable) (clears : Clears t.memory t1.memory) where
  abbrev at : ℕ
  at = slot_at table (suc level) v

  abbrev next : ℕ
  next = table_of (t.memory at)

  below : (l s : ℕ) → Gone l s v false t1 → lookup l s t1.memory v ≡ none
  below zero s g = absurd (cc)
  below (suc l) s g = g

  -- the entry is kept: the table below is still in use
  kept_entry : Gone level next v false t1 → lookup (suc level) table t1.memory v ≡ none
  unfolding lookup
  kept_entry gone = elim (clears at) [
    | inr z ↦ lookup_absent level table t1.memory v z
    | inl e ↦ elim (Bool-cases (t.memory at % 2 == 0)) [
      | inl f ↦ rw (lookup, e, f) refl
      | inr f ↦ lookup_present level table t1.memory v _ e (ground arith) ∙ below level next gone
    ]
  ]

  -- the call for the table of a level, from the one for the table below it
  release_step :
      (freed : Bool)
      → level ≤ 3
      → Walked (suc level) table t v
      → page_free_resources level next v t ≡ ok (freed, t1)
      → Gone level next v freed t1
      → t1.phys_root ≡ t.phys_root
      → frames_of t1 ≡ frames_of t
      → ((a : ℕ) → Off level next t.memory v a → Held t.pfdb.used a → Held t1.pfdb.used a)
      → Releases (suc level) table v t (page_free_resources (suc level) table v t)
  unfolding page_free_resources
  release_step false h (low, narrow, held, off, rest) e gone root count keeps =
      let inside = slot-lt (suc level) v in
      let here = va_low table (omega arith) in
      let entry = va_low at (omega arith) in
      let index = index_lem level v h in
      let child = next_lem (t.memory at) narrow in
      (
        false,
        t1,
        rw (here, index, entry, child, e) refl,
        clears,
        kept_entry gone,
        root,
        count,
        λ a o k. keeps a o.1 k,
      )
  release_step true h (low, narrow, held, off, rest) e gone root count keeps =
      let inside = slot-lt (suc level) v in
      let here = va_low table (omega arith) in
      let place : ℕ = table + 8 * index_of (suc level) v in
      let same : place ≡ at = ap (λ i. table + 8 * i) (index_lem level v h) in
      let entry : va place ≡ ok (virt_addr_kernel_start + place) =
        va_low place (subst (λ p. p < 2 ^ 47) (sym same) (omega arith)) in
      let child : extract_bit_chunk 12 51 (t.memory place) * 2 ^ 12 ≡ next =
        subst (λ p. extract_bit_chunk 12 51 (t.memory p) * 2 ^ 12 ≡ next) (sym same)
          (next_lem (t.memory at) narrow) in
      let cleared : ℕ → ℕ = write_entry place 0 t1.memory in
      let less = write-Clears place t.memory t1.memory clears in
      let none_left =
        lookup_absent level table cleared v
          (subst (λ p. cleared p ≡ 0) same (write_entry_self place 0 t1.memory)) in
      elim (Bool-cases (is_pagetable_empty table cleared)) [
        | inr f ↦ (
          false,
          record t1 { memory = cleared },
          rw (here, entry, child, e, ◌>>=◌, f) refl,
          less,
          none_left,
          root,
          count,
          λ a o k. keeps a o.1 k,
        )
        | inl f ↦ elim (pageframe_free_lem t1.pfdb table) [
          | inr (absent, _) ↦ absurd (keeps table off held absent)
          | inl (before, pf, after, used, phys, _, res) ↦ (
            true,
            record t1 {
              pfdb = record { free = pf ∷ t1.pfdb.free; used = before ++ after };
              memory = cleared;
            },
            rw (here, entry, child, e, ◌>>=◌, f, res) refl,
            less,
            none_left,
            root,
            (let parts = length-append before (pf ∷ after) in
                let left = length-append before after in
                let all : length t1.pfdb.used ≡ length (before ++ pf ∷ after) = ap length used in
                omega arith),
            λ a o k absent.
                keeps a o.1 k
                  (rw used (Absent-put before after pf a (λ q. o.0 (sym phys ∙ q)) absent)),
          )
        ]
      ]

release_lem :
    (level table v : ℕ) (t : PageTable)
    → level ≤ 4
    → Walked level table t v
    → Releases level table v t (page_free_resources level table v t)
unfolding page_free_resources
release_lem zero table v t h w = (true, t, refl, λ a. inl refl, refl, refl, refl, λ a o k. k)
release_lem (suc level) table v t h (low, narrow, held, off, rest) =
    let (freed, t1, e, clears, gone, root, count, keeps) =
      release_lem level (table_of (t.memory (slot_at table (suc level) v))) v t (omega arith)
        rest in
    release_step level table v t t1 clears freed (omega arith) (low, narrow, held, off, rest) e gone
      root count keeps

-- For an address whose four tables are different used frames below 2 ^ 47, with entries that have no
-- bits above those of an address, `page_free` does not halt. After it the address has no page, every
-- other address keeps its page or has none, the words of memory are as they were or cleared, and the
-- free and the used frames are as many as before.
pub page_free_lem :
    (v : ℕ) (t : PageTable)
    → Walked 4 t.phys_root t v
    → (t' : PageTable) × (page_free v t ≡ ok t')
      × (translate t' v ≡ none)
      × ((w : ℕ) → (translate t' w ≡ translate t w) ⊎ (translate t' w ≡ none))
      × Clears t.memory t'.memory
      × (frames_of t' ≡ frames_of t)
unfolding page_free
page_free_lem v t w =
    let (freed, t', e, clears, gone, root, count, _) =
      release_lem 4 t.phys_root v t (omega arith) w in
    (
      t',
      rw e refl,
      rw root gone,
      λ u. rw root (lookup-Clears 4 t.phys_root t.memory t'.memory u clears),
      clears,
      count,
    )
