-- ===== src/Kmem/Mapping.antt =====
-- The kernel's half of the address space, as src/kernel/mm/kmem.c and src/kernel/mm/init.c map it.
use almeida_os.Base.{
  ℕ, ◌+◌, ◌-◌, ◌*◌, ◌/◌, ◌%◌, ◌^◌, ◌≤◌, ◌<◌, ◌≡◌, refl, sym, ap, ◌∙◌, subst, ◌⊎◌, inl, inr, true,
  false, ◌&&◌, Option, none, some, arith, ltb, leb, Bool-cases, length, Run, ok, bug,
}
use almeida_os.Address.{virt_addr_kernel_start}
use almeida_os.Paging.{PageTable, paging_contiguous_map}
use almeida_os.Paging.Walk.{translate, Owners, IsTree}
use almeida_os.Paging.Last.{first, page_of}
use almeida_os.Paging.Range.{virtual_page, with_pages, Mapped, Maps, paging_contiguous_map_lem}

-- the physical page that an address of the kernel's half stands for
abbrev pub direct_page : ℕ → ℕ
direct_page w = w % 2 ^ 47 / 4096 * 4096

-- A page of the kernel's half has the translation that `pa` computes, or none.
abbrev pub IsDirect : PageTable → Type 0
IsDirect t =
    (w : ℕ)
    → 2 ^ 35 ≤ virtual_page w
    → (translate t w ≡ none) ⊎ (translate t w ≡ some (direct_page w))

-- The map of a table is a tree, and direct in the kernel's half.
pub record IsKernelTable (t : PageTable) : Type 0 where
  pub owners : Owners
  pub tree : IsTree owners t
  pub direct : IsDirect t

-- What a map of the physical range from `p` to `p + len` at its address in the kernel's half comes to.
pub record DirectlyMapped (t : PageTable) (p len : ℕ) (t' : PageTable) : Type 0 where
  pub table : IsKernelTable t'
  pub there :
      (x : ℕ)
      → p ≤ x
      → x < p + len
      → translate t' (virt_addr_kernel_start + x) ≡ some (x / 4096 * 4096)
  pub kept : (w q : ℕ) → translate t w ≡ some q → translate t' w ≡ some q

abbrev pub DirectMap : PageTable → ℕ → ℕ → Run PageTable → Type 0
DirectMap t p len res =
    ((t' : PageTable) × (res ≡ ok t') × DirectlyMapped t p len t')
    ⊎ ((res ≡ bug) × (length t.pfdb.free < 3 * (len / 4096 + 1)))

first_kept : (o : Option ℕ) (q page : ℕ) → o ≡ some q → first o page ≡ some q
first_kept none q page e = cc
first_kept (some old) q page e = e

first_direct : (o : Option ℕ) (page : ℕ) → (o ≡ none) ⊎ (o ≡ some page) → first o page ≡ some page
first_direct o page (inl e) = rw e refl
first_direct o page (inr e) = rw e refl

-- one page of the map
in_range :
    (p n w : ℕ) (before : Option ℕ)
    → p + 4096 * n ≤ 2 ^ 40
    → 2 ^ 35 + p / 4096 ≤ virtual_page w
    → virtual_page w < 2 ^ 35 + p / 4096 + n
    → (before ≡ none) ⊎ (before ≡ some (direct_page w))
    → with_pages (2 ^ 35 + p / 4096) n p (virtual_page w) before ≡ some (direct_page w)
in_range p n w before room a b old =
    let inside : (leb (2 ^ 35 + p / 4096) (virtual_page w)
          && ltb (virtual_page w) (2 ^ 35 + p / 4096 + n))
        ≡ true =
      ground arith in
    let page : page_of (p + 4096 * (virtual_page w - (2 ^ 35 + p / 4096))) ≡ direct_page w =
      omega arith in
    rw (inside, page) (first_direct before (direct_page w) old)

out_of_range :
    (p n w : ℕ) (before : Option ℕ)
    → (leb (2 ^ 35 + p / 4096) (virtual_page w) && ltb (virtual_page w) (2 ^ 35 + p / 4096 + n))
      ≡ false
    → with_pages (2 ^ 35 + p / 4096) n p (virtual_page w) before ≡ before
out_of_range p n w before e = rw e refl

module _ (t : PageTable) (p len : ℕ) (k : IsKernelTable t) (low : p + len + 4096 ≤ 2 ^ 40) where
  abbrev count : ℕ
  count = len / 4096 + 1

  high_page : (x : ℕ) → x < 2 ^ 47 → virtual_page (virt_addr_kernel_start + x) ≡ 2 ^ 35 + x / 4096
  high_page x h = omega arith

  -- the translations after the map
  now :
      (t' : PageTable)
      → Mapped t count (virt_addr_kernel_start + p) p t'
      → (w : ℕ)
      → translate t' w ≡ with_pages (2 ^ 35 + p / 4096) count p (virtual_page w) (translate t w)
  now t' m w =
      m.maps w
      ∙ ap (λ a. with_pages a count p (virtual_page w) (translate t w)) (high_page p (omega arith))

  now-IsDirect : (t' : PageTable) → Mapped t count (virt_addr_kernel_start + p) p t' → IsDirect t'
  now-IsDirect t' m w high =
      elim (Bool-cases (
        leb (2 ^ 35 + p / 4096) (virtual_page w)
        && ltb (virtual_page w) (2 ^ 35 + p / 4096 + count))) [
          | inl e ↦ inr (
              now t' m w
              ∙ in_range p count w (translate t w) (omega arith) (ground arith) (ground arith)
                  (k.direct w high))
          | inr e ↦
              subst (λ o. (o ≡ none) ⊎ (o ≡ some (direct_page w)))
                (sym (now t' m w ∙ out_of_range p count w (translate t w) e)) (k.direct w high)
        ]

  now_there :
      (t' : PageTable)
      → Mapped t count (virt_addr_kernel_start + p) p t'
      → (p % 4096 + len % 4096 ≤ 4096)
      → (x : ℕ) → p ≤ x
      → x < p + len
      → translate t' (virt_addr_kernel_start + x) ≡ some (x / 4096 * 4096)
  now_there t' m fits x a b =
      let w = virt_addr_kernel_start + x in
      let page = high_page x (omega arith) in
      let same : direct_page w ≡ x / 4096 * 4096 = omega arith in
      now t' m w
      ∙ in_range p count w (translate t w) (omega arith) (omega (arith, page)) (omega (arith, page))
          (k.direct w (omega (arith, page)))
      ∙ ap (λ y. some y) same

  now_kept :
      (t' : PageTable)
      → Mapped t count (virt_addr_kernel_start + p) p t'
      → (w q : ℕ) → translate t w ≡ some q
      → translate t' w ≡ some q
  now_kept t' m w q e =
      elim (Bool-cases (
        leb (2 ^ 35 + p / 4096) (virtual_page w)
        && ltb (virtual_page w) (2 ^ 35 + p / 4096 + count))) [
          | inl f ↦ now t' m w ∙ rw f (first_kept (translate t w) q _ e)
          | inr f ↦ now t' m w ∙ out_of_range p count w (translate t w) f ∙ e
        ]

  -- Mapping a physical range at its addresses in the kernel's half.
  pub direct_map_lem :
      (flags : ℕ)
      → flags % 2 ≡ 1
      → p % 4096 + len % 4096 ≤ 4096
      → DirectMap t p len (paging_contiguous_map p (p + len) (virt_addr_kernel_start + p) flags t)
  direct_map_lem flags flagged fits = by_map (
      subst
        (λ n.
          Maps t n (virt_addr_kernel_start + p) p
            (paging_contiguous_map p (p + len) (virt_addr_kernel_start + p) flags t))
        (omega arith)
        (paging_contiguous_map_lem k.owners t p (p + len) (virt_addr_kernel_start + p) flags k.tree
          flagged (omega arith) (omega arith) (omega (arith, high_page p (omega arith)))))
    where
      by_map :
          Maps t count
            (virt_addr_kernel_start + p)
            p
            (paging_contiguous_map p (p + len) (virt_addr_kernel_start + p) flags t)
          → DirectMap t p len
              (paging_contiguous_map p (p + len) (virt_addr_kernel_start + p) flags t)
      by_map (inr x) = inr x
      by_map (inl (t', e, m)) = inl (
        t',
        e,
        record {
          table = record { owners = m.owners; tree = m.tree; direct = now-IsDirect t' m };
          there = now_there t' m fits;
          kept = now_kept t' m;
        },
      )
