-- ===== src/Kmem/Start.antt =====
-- The page table of the kernel that `paging_setup` of src/kernel/mm/init.c makes.
use almeida_os.Base.{
  ℕ, ◌+◌, ◌*◌, ◌/◌, ◌%◌, ◌^◌, ◌≤◌, ◌<◌, ◌≡◌, refl, sym, ap, ◌∙◌, subst, ◌⊎◌, inl, inr, some, arith,
  length, Run, ok, bug, running, ◌>>=◌,
}
use almeida_os.Address.{virt_addr_kernel_start, pa}
use almeida_os.Address.Laws.{va_low}
use almeida_os.MemMap.{Region}
use almeida_os.Buddy.{Slots, BuddyRef}
use almeida_os.Buddy.Valid.{IsValid}
use almeida_os.PageFrame.{pageframe_calc_space_needed}
use almeida_os.Paging.{PageTable, paging_calc_space_needed, paging_contiguous_map}
use almeida_os.Paging.Walk.{translate}
use almeida_os.Paging.Start.{paging_init_lem}
use almeida_os.Kmem.{kmalloc, kmem_raw_alloc}
use almeida_os.Kmem.Mapping.{IsKernelTable, DirectMap, direct_map_lem}
use almeida_os.Kmem.Cycle.{low_addresses}
use almeida_os.Kmem.Init.{Image, global_bits, map_region, paging_setup}
use almeida_os.Kmem.Raw.{IsPaged, NoBlock, RawBlock, RawObtains, raw_lem}

-- One of the maps of the set-up, at its address in the kernel's half.
map_region_lem :
    (t : PageTable) (p len : ℕ)
    → IsKernelTable t
    → p % 4096 ≡ 0
    → p + len + 4096 ≤ 2 ^ 40
    → DirectMap t p len (map_region (record { base_addr = p; length = len; type = 0 }) t)
unfolding map_region
map_region_lem t p len k page low =
    let sum : (p + len) % 2 ^ 64 ≡ p + len = omega arith in
    rw (map_region, va_low p (omega arith), sum)
      (direct_map_lem t p len k low global_bits refl (omega (arith, page)))

-- The table at the end: it is direct in the kernel's half, and has the kernel's image and the blocks of
-- the tables and of their frame structures.
pub record KernelMapped (end pages len nodes len' : ℕ) (t : PageTable) : Type 0 where
  pub table : IsKernelTable t
  pub image : (x : ℕ) → x < end → translate t (virt_addr_kernel_start + x) ≡ some (x / 4096 * 4096)
  pub tables :
      (x : ℕ)
      → pages ≤ x
      → x < pages + len
      → translate t (virt_addr_kernel_start + x) ≡ some (x / 4096 * 4096)
  pub frames :
      (x : ℕ)
      → nodes ≤ x
      → x < nodes + len'
      → translate t (virt_addr_kernel_start + x) ≡ some (x / 4096 * 4096)

-- too few frames for one of the three maps
abbrev pub FewFrames : ℕ → ℕ → ℕ → Type 0
FewFrames end len len' =
    (t : PageTable) × (n : ℕ) × ((n ≡ end) ⊎ ((n ≡ len) ⊎ (n ≡ len')))
    × (length t.pfdb.free < 3 * (n / 4096 + 1))

-- the maps of `paging_setup`, in order
abbrev three_maps : PageTable → Slots → ℕ → Region → Region → Run (Slots × PageTable)
three_maps t m end pages nodes = do
  t4 ← paging_contiguous_map 0 end virt_addr_kernel_start global_bits t
  t5 ← map_region pages t4
  t6 ← map_region nodes t5
  ok (m, t6)

-- What a set-up comes to once it has its two blocks.
abbrev pub MapsKernel : Slots → ℕ → ℕ → ℕ → ℕ → ℕ → Run (Slots × PageTable) → Type 0
MapsKernel m end pages len nodes len' res =
    ((t6 : PageTable) × (res ≡ ok (m, t6)) × KernelMapped end pages len nodes len' t6)
    ⊎ ((res ≡ bug) × FewFrames end len len')

three_maps_lem :
    (t : PageTable) (m : Slots) (end pages len nodes len' : ℕ)
    → IsKernelTable t
    → end + 4096 ≤ 2 ^ 40
    → pages % 4096 ≡ 0
    → pages + len + 4096 ≤ 2 ^ 40
    → nodes % 4096 ≡ 0
    → nodes + len' + 4096 ≤ 2 ^ 40
    → MapsKernel m end pages len nodes len' (
        three_maps t m end
          (record { base_addr = pages; length = len; type = 0 })
          (record { base_addr = nodes; length = len'; type = 0 }))
three_maps_lem t m end pages len nodes len' k a b c d e =
    let sum : 0 + end ≡ end = omega arith in
    elim (subst
      (λ x. DirectMap t 0 end (paging_contiguous_map 0 x virt_addr_kernel_start global_bits t)) sum
      (direct_map_lem t 0 end k (omega arith) global_bits refl (omega arith))) [
        | inr (f, few) ↦ inr (rw f refl, (t, end, inl refl, few))
        | inl (t4, f, m4) ↦ elim (map_region_lem t4 pages len m4.table b c) [
          | inr (g, few) ↦ inr (rw (f, ◌>>=◌, g) refl, (t4, len, inr (inl refl), few))
          | inl (t5, g, m5) ↦ elim (map_region_lem t5 nodes len' m5.table d e) [
            | inr (h, few) ↦ inr (rw (f, ◌>>=◌, g, ◌>>=◌, h) refl, (t5, len', inr (inr refl), few))
            | inl (t6, h, m6) ↦ inl (
              t6,
              rw (f, ◌>>=◌, g, ◌>>=◌, h) refl,
              record {
                table = m6.table;
                image = λ x l. m6.kept _ _ (m5.kept _ _ (m4.there x (omega arith) (omega arith)));
                tables = λ x l u. m6.kept _ _ (m5.there x l u);
                frames = m6.there;
              },
            )
          ]
        ]
      ]

-- What `paging_setup` comes to: a table of the kernel, or a halt for want of a block or of frames.
abbrev pub SetsUp : BuddyRef → Slots → ℕ → ℕ → ℕ → Run (Slots × PageTable) → Type 0
SetsUp ref m end len len' (ok (m2, t)) =
    IsValid ref m2 × (pages : ℕ) × (nodes : ℕ) × KernelMapped end pages len nodes len' t
SetsUp ref m end len len' bug =
    NoBlock ref m len
    ⊎ (((m1 : Slots) × IsValid ref m1 × NoBlock ref m1 len') ⊎ FewFrames end len len')
SetsUp ref m end len len' running = ⊥

module _ (image : Image) (end total : ℕ) (ref : BuddyRef) (t : PageTable)
    (there : image.end ≡ virt_addr_kernel_start + end) (low : end + 4096 ≤ 2 ^ 40)
    (paged : IsPaged ref) (some_ : 4096 ≤ paging_calc_space_needed total)
    (fits : paging_calc_space_needed total ≤ ref.content_mem_reg.length)
    (some' : 0 < pageframe_calc_space_needed (paging_calc_space_needed total))
    (fits' : pageframe_calc_space_needed (paging_calc_space_needed total)
      ≤ ref.content_mem_reg.length) where
  abbrev tables_len : ℕ
  tables_len = paging_calc_space_needed total

  abbrev frames_len : ℕ
  frames_len = pageframe_calc_space_needed tables_len

  image_end : pa image.end ≡ ok end
  image_end = ap pa there ∙ (low_addresses end (omega arith)).1

  -- with both blocks
  with_blocks :
      (m m1 m2 : Slots) (v1 v2 : ℕ) (t1 t2 : PageTable)
      → kmalloc ref tables_len kmem_raw_alloc m t ≡ ok (v1, m1, t1)
      → RawBlock ref tables_len v1 m1 t t1
      → kmalloc ref frames_len kmem_raw_alloc m1 t1 ≡ ok (v2, m2, t2)
      → RawBlock ref frames_len v2 m2 t1 t2
      → SetsUp ref m end tables_len frames_len (paging_setup image total ref m t)
  unfolding paging_setup
  with_blocks m m1 m2 v1 v2 t1 t2 run1 a run2 b =
      let pages : Region = record { base_addr = a.ptr; length = tables_len; type = 0 } in
      let nodes : Region = record { base_addr = b.ptr; length = frames_len; type = 0 } in
      let made =
        paging_init_lem pages nodes t2 refl (omega (arith, b.end)) a.page (omega (arith, a.end))
          some_ in
      let kernel : IsKernelTable made.0 = record {
        owners = made.1;
        tree = made.3;
        direct = λ w h. inl (made.5 w);
      } in
      let start : paging_setup image total ref m t ≡ three_maps made.0 m2 end pages nodes =
        rw
          (
            paging_setup, run1, ◌>>=◌, a.physical, ◌>>=◌, run2, ◌>>=◌, b.physical, ◌>>=◌, made.2,
            ◌>>=◌, image_end,
          )
          refl in
      elim (three_maps_lem made.0 m2 end a.ptr tables_len b.ptr frames_len kernel low a.page a.end
        b.page b.end) [
          | inr (f, few) ↦
              subst (SetsUp ref m end tables_len frames_len) (sym (start ∙ f)) (inr (inr few))
          | inl (t6, f, mapped) ↦
              subst (SetsUp ref m end tables_len frames_len) (sym (start ∙ f))
                (b.valid, a.ptr, b.ptr, mapped)
        ]

  second :
      (m m1 : Slots) (v1 : ℕ) (t1 : PageTable)
      → kmalloc ref tables_len kmem_raw_alloc m t ≡ ok (v1, m1, t1)
      → RawBlock ref tables_len v1 m1 t t1
      → (res : Run (ℕ × Slots × PageTable)) → kmalloc ref frames_len kmem_raw_alloc m1 t1 ≡ res
      → RawObtains ref m1 t1 frames_len res
      → SetsUp ref m end tables_len frames_len (paging_setup image total ref m t)
  unfolding paging_setup
  second m m1 v1 t1 run1 a (ok (v2, m2, t2)) run2 b = with_blocks m m1 m2 v1 v2 t1 t2 run1 a run2 b
  second m m1 v1 t1 run1 a bug run2 none_ =
      rw (paging_setup, run1, ◌>>=◌, a.physical, ◌>>=◌, run2) (inr (inl (m1, a.valid, none_)))
  second m m1 v1 t1 run1 a running run2 b = absurd b

  first_block :
      (m : Slots)
      → IsValid ref m
      → (res : Run (ℕ × Slots × PageTable)) → kmalloc ref tables_len kmem_raw_alloc m t ≡ res
      → RawObtains ref m t tables_len res
      → SetsUp ref m end tables_len frames_len (paging_setup image total ref m t)
  unfolding paging_setup
  first_block m valid (ok (v1, m1, t1)) run1 a =
      second m m1 v1 t1 run1 a (kmalloc ref frames_len kmem_raw_alloc m1 t1) refl
        (raw_lem ref m1 t1 frames_len paged a.valid some' fits')
  first_block m valid bug run1 none_ = rw (paging_setup, run1) (inl none_)
  first_block m valid running run1 a = absurd a

  pub paging_setup_lem :
      (m : Slots)
      → IsValid ref m
      → SetsUp ref m end tables_len frames_len (paging_setup image total ref m t)
  paging_setup_lem m valid =
      first_block m valid (kmalloc ref tables_len kmem_raw_alloc m t) refl
        (raw_lem ref m t tables_len paged valid (omega (arith, some_)) fits)
