-- ===== src/Paging/Range.antt =====
-- page_alloc and paging_contiguous_map of src/kernel/mm/page.c on any 64-bit address.
use almeida_os.Base.{
  ℕ, zero, suc, ◌+◌, ◌-◌, ◌*◌, ◌/◌, ◌%◌, ◌^◌, ◌≤◌, ◌<◌, ◌≡◌, refl, sym, ap, ◌∙◌, ◌⊎◌, inl, inr,
  true, false, ◌&&◌, Option, arith, ltb, leb, ◌==◌, if◌then◌else◌, Bool-cases, length, Run, ok, bug,
}
use almeida_os.Word.{add64}
use almeida_os.Paging.{
  PageTable, page_alloc, map_loop, paging_contiguous_map, page_size, pml4e, pdpte, pde, pte,
}
use almeida_os.Paging.Walk.{slot_low, lookup_low, slots_of, translate, Owners, IsTree}
use almeida_os.Paging.Last.{first, page_of}
use almeida_os.Paging.Refine.{LowMaps, page_alloc_low_lem}

-- the number of the page of an address, which counts by its low 48 bits
abbrev pub virtual_page : ℕ → ℕ
virtual_page v = v % 2 ^ 48 / 4096

indices_low :
    (v : ℕ)
    → (pml4e (v % 2 ^ 48) ≡ pml4e v)
      × (pdpte (v % 2 ^ 48) ≡ pdpte v)
      × (pde (v % 2 ^ 48) ≡ pde v)
      × (pte (v % 2 ^ 48) ≡ pte v)
indices_low v =
    let (a, b, c, d) = slots_of (v % 2 ^ 48) in
    let (a', b', c', d') = slots_of v in
    (
      a ∙ slot_low 4 v (omega arith) ∙ sym a',
      b ∙ slot_low 3 v (omega arith) ∙ sym b',
      c ∙ slot_low 2 v (omega arith) ∙ sym c',
      d ∙ slot_low 1 v (omega arith) ∙ sym d',
    )

page_alloc_low :
    (v p flags : ℕ) (t : PageTable) → page_alloc (v % 2 ^ 48) p flags t ≡ page_alloc v p flags t
unfolding page_alloc
page_alloc_low v p flags t = let (a, b, c, d) = indices_low v in rw (page_alloc, a, b, c, d) refl

-- the map `before` with `n` pages from page `a` on, at one page
abbrev pub with_pages : ℕ → ℕ → ℕ → ℕ → Option ℕ → Option ℕ
with_pages a n p x before =
    if leb a x && ltb x (a + n) then first before (page_of (p + 4096 * (x - a))) else before

one_page :
    (a x p : ℕ) (before : Option ℕ)
    → (if x == a then first before (page_of p) else before) ≡ with_pages a 1 p x before
one_page a x p before = elim (Bool-cases (x == a)) [
  | inl e ↦
      let same : p + 4096 * (x - a) ≡ p = ground arith in
      let up : leb a x ≡ true = ground arith in
      let down : ltb x (a + 1) ≡ true = ground arith in rw (e, up, down, same) refl
  | inr e ↦ let outside : (leb a x && ltb x (a + 1)) ≡ false = ground arith in rw (e, outside) refl
]

more_pages :
    (a n x p : ℕ) (before : Option ℕ)
    → with_pages (a + 1) n (p + 4096) x (with_pages a 1 p x before)
      ≡ with_pages a (suc n) p x before
more_pages a n x p before = elim (Bool-cases (leb (a + 1) x && ltb x (a + 1 + n))) [
  | inl e ↦
      let far : (leb a x && ltb x (a + 1)) ≡ false = ground arith in
      let all : (leb a x && ltb x (a + suc n)) ≡ true = ground arith in
      let same : p + 4096 + 4096 * (x - (a + 1)) ≡ p + 4096 * (x - a) = ground arith in
      rw (e, far, all, same) refl
  | inr e ↦ elim (Bool-cases (leb a x && ltb x (a + 1))) [
    | inl f ↦ let all : (leb a x && ltb x (a + suc n)) ≡ true = ground arith in rw (e, f, all) refl
    | inr f ↦
        let none_ : (leb a x && ltb x (a + suc n)) ≡ false = ground arith in rw (e, f, none_) refl
  ]
]

-- The tables of `t'` are a tree, and map `n` pages from the address `v` on to the pages from `p` on,
-- where `t` has no translation, and all other addresses as `t` does.
pub record Mapped (t : PageTable) (n v p : ℕ) (t' : PageTable) : Type 0 where
  pub owners : Owners
  pub tree : IsTree owners t'
  pub root : t'.phys_root ≡ t.phys_root
  pub count : length t.pfdb.free ≤ length t'.pfdb.free + 3 * n
  pub maps :
      (w : ℕ) → translate t' w ≡ with_pages (virtual_page v) n p (virtual_page w) (translate t w)

-- What mapping `n` pages comes to: it halts only for want of frames.
abbrev pub Maps : PageTable → ℕ → ℕ → ℕ → Run PageTable → Type 0
Maps t n v p res =
    ((t' : PageTable) × (res ≡ ok t') × Mapped t n v p t')
    ⊎ ((res ≡ bug) × (length t.pfdb.free < 3 * n))

pub page_alloc_lem :
    (o : Owners) (t : PageTable) (v p flags : ℕ)
    → IsTree o t
    → flags % 2 ≡ 1
    → Maps t 1 v p (page_alloc v p flags t)
page_alloc_lem o t v p flags tree flagged =
    widen (page_alloc_low_lem o t (v % 2 ^ 48) p flags tree (omega arith) flagged)
  where
    widen :
        LowMaps t (v % 2 ^ 48) p (page_alloc (v % 2 ^ 48) p flags t)
        → Maps t 1 v p (page_alloc v p flags t)
    widen (inr (e, few)) = inr (sym (page_alloc_low v p flags t) ∙ e, omega arith)
    widen (inl (t', e, m)) = inl (
      t',
      sym (page_alloc_low v p flags t) ∙ e,
      record {
        owners = m.owners;
        tree = m.tree;
        root = m.root;
        count = omega (arith, m.count);
        maps = λ w.
            let after = lookup_low 4 t'.phys_root t'.memory w (omega arith) in
            let before = lookup_low 4 t.phys_root t.memory w (omega arith) in
            let low = m.maps (w % 2 ^ 48) (omega arith) in
            sym after
            ∙ low
            ∙ rw before (one_page (virtual_page v) (virtual_page w) p (translate t w));
      },
    )

no_pages : (a p x : ℕ) (before : Option ℕ) → before ≡ with_pages a 0 p x before
no_pages a p x before =
    let outside : (leb a x && ltb x (a + 0)) ≡ false = ground arith in rw outside refl

-- the loop with `n` pages left
map_loop_lem :
    (n fuel p p_end v flags : ℕ) (o : Owners) (t : PageTable)
    → IsTree o t
    → flags % 2 ≡ 1
    → n < fuel
    → p_end < p + 4096 * n
    → p + 4096 * n ≤ p_end + 4096
    → p_end + 4096 < 2 ^ 64
    → virtual_page v + n < 2 ^ 36
    → Maps t n v p (map_loop fuel p p_end v flags t)
unfolding map_loop
map_loop_lem n zero p p_end v flags o t tree flagged a b c d e = absurd (omega arith)
map_loop_lem zero (suc fuel) p p_end v flags o t tree flagged a b c d e =
    let stop : leb p p_end ≡ false = ground arith in
    inl (
      t,
      rw (map_loop, stop) refl,
      record {
        owners = o;
        tree = tree;
        root = refl;
        count = omega arith;
        maps = λ w. no_pages (virtual_page v) p (virtual_page w) (translate t w);
      },
    )
map_loop_lem (suc n) (suc fuel) p p_end v flags o t tree flagged a b c d e =
    by_page (page_alloc_lem o t v p flags tree flagged) (λ t' m.
      map_loop_lem n fuel (p + 4096) p_end (add64 v page_size) flags m.owners t' m.tree flagged
        (omega arith) (omega arith) (omega arith) d (omega arith))
  where
    on : leb p p_end ≡ true
    on = ground arith

    next_p : (p + page_size) % 2 ^ 64 ≡ p + 4096
    next_p = omega arith

    next_v : virtual_page (add64 v page_size) ≡ virtual_page v + 1
    next_v = omega arith

    by_rest :
        (t' : PageTable)
        → (page_alloc v p flags t ≡ ok t')
        → Mapped t 1 v p t'
        → Maps t' n
            (add64 v page_size)
            (p + 4096)
            (map_loop fuel (p + 4096) p_end (add64 v page_size) flags t')
        → Maps t (suc n) v p (map_loop (suc fuel) p p_end v flags t)
    by_rest t' run m (inr (f, few)) = inr (rw (map_loop, on, run, next_p) f, omega (arith, m.count))
    by_rest t' run m (inl (t'', f, m')) = inl (
      t'',
      rw (map_loop, on, run, next_p) f,
      record {
        owners = m'.owners;
        tree = m'.tree;
        root = m'.root ∙ m.root;
        count = omega (arith, m.count, m'.count);
        maps = λ w.
            m'.maps w
            ∙ ap (λ y. with_pages y n (p + 4096) (virtual_page w) (translate t' w)) next_v
            ∙ ap (with_pages (virtual_page v + 1) n (p + 4096) (virtual_page w)) (m.maps w)
            ∙ more_pages (virtual_page v) n (virtual_page w) p (translate t w);
      },
    )

    by_page :
        Maps t 1 v p (page_alloc v p flags t)
        → ((t' : PageTable)
            → Mapped t 1 v p t'
            → Maps t' n
                (add64 v page_size)
                (p + 4096)
                (map_loop fuel (p + 4096) p_end (add64 v page_size) flags t'))
        → Maps t (suc n) v p (map_loop (suc fuel) p p_end v flags t)
    by_page (inr (f, few)) rest = inr (rw (map_loop, on, f) refl, omega arith)
    by_page (inl (t', run, m)) rest = by_rest t' run m (rest t' m)

pub paging_contiguous_map_lem :
    (o : Owners) (t : PageTable) (p_start p_end v flags : ℕ)
    → IsTree o t
    → flags % 2 ≡ 1
    → p_start ≤ p_end
    → p_end + 4096 < 2 ^ 64
    → virtual_page v + (p_end - p_start) / 4096 + 1 < 2 ^ 36
    → Maps t
        ((p_end - p_start) / 4096 + 1)
        v
        p_start
        (paging_contiguous_map p_start p_end v flags t)
unfolding paging_contiguous_map
paging_contiguous_map_lem o t p_start p_end v flags tree flagged a b c =
    map_loop_lem ((p_end - p_start) / 4096 + 1) (p_end / page_size + 2) p_start p_end v flags o t
      tree flagged (omega arith) (omega arith) (omega arith) b (omega arith)
