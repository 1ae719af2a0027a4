-- ===== src/Paging/Start.antt =====
-- paging_init of src/kernel/mm/page.c: an empty tree of tables.
use almeida_os.Base.{
  ℕ, zero, suc, ◌+◌, ◌-◌, ◌*◌, ◌/◌, ◌%◌, ◌^◌, ◌≤◌, ◌<◌, ◌≡◌, refl, ap, ◌∙◌, inl, false, none, [],
  ◌∷◌, arith, ◌==◌, if◌then◌else◌, eq→==, length, ok,
}
use almeida_os.Address.{virt_addr_kernel_start}
use almeida_os.Address.Laws.{va_low}
use almeida_os.MemMap.{Region}
use almeida_os.PageFrame.{pageframe_alloc, pageframe_calc_space_needed}
use almeida_os.PageFrame.Layout.{frames, nth_frame, pageframe_init_lem}
use almeida_os.Paging.{PageTable, zero_words, paging_init}
use almeida_os.Paging.Walk.{translate, Owners, Apart, AllFresh, IsTree, slot}
use almeida_os.Paging.Change.{lookup_absent, slot-lt}

abbrev only_root : ℕ → Owners
only_root root = record { level = λ x. if x == root then 4 else 0; region = λ x. 0 }

module _ (pages nodes : Region) (memory : ℕ → ℕ) where
  abbrev cleared : ℕ → ℕ
  cleared = zero_words nodes (zero_words pages memory)

  cleared_zero : (a : ℕ) → pages.base_addr ≤ a → a < pages.base_addr + pages.length → cleared a ≡ 0
  unfolding zero_words
  cleared_zero a p q = ground arith

  frame_zero :
      (i j : ℕ)
      → 4096 * (i + 1) ≤ pages.length
      → j < 512
      → cleared (pages.base_addr + 4096 * i + 8 * j) ≡ 0
  frame_zero i j p q = cleared_zero (pages.base_addr + 4096 * i + 8 * j) (omega arith) (omega arith)

  Apart-frames :
      (k : ℕ) (f : ℕ)
      → pages.base_addr + 4096 * k ≤ f
      → Apart f (frames pages.base_addr nodes.base_addr k)
  Apart-frames zero f h = tt
  Apart-frames (suc k) f h = (λ w. omega arith, Apart-frames k f (omega arith))

  fresh_frames :
      (n k : ℕ)
      → 4096 * n ≤ pages.length
      → k < n
      → pages.base_addr % 4096 ≡ 0
      → pages.base_addr + pages.length ≤ 2 ^ 40
      → AllFresh
          (only_root (pages.base_addr + 4096 * (n - 1)))
          cleared
          (frames pages.base_addr nodes.base_addr k)
  fresh_frames n zero a b c d = tt
  fresh_frames n (suc k) a b c d =
      let other : (pages.base_addr + 4096 * k == pages.base_addr + 4096 * (n - 1)) ≡ false =
        ground arith in
      (
        ((omega arith, omega arith), rw other refl, λ i h. frame_zero k i (omega arith) h),
        Apart-frames k (pages.base_addr + 4096 * k) (omega arith),
        fresh_frames n k a (omega arith) c d,
      )

  start-IsTree :
      (n : ℕ) (t : PageTable)
      → 4096 * n ≤ pages.length
      → 0 < n
      → pages.base_addr % 4096 ≡ 0
      → pages.base_addr + pages.length ≤ 2 ^ 40
      → t.phys_root ≡ pages.base_addr + 4096 * (n - 1)
      → t.memory ≡ cleared
      → t.pfdb.free ≡ frames pages.base_addr nodes.base_addr (n - 1)
      → IsTree (only_root (pages.base_addr + 4096 * (n - 1))) t
  start-IsTree n t a b c d root mem free =
      let o = only_root (pages.base_addr + 4096 * (n - 1)) in
      let the_root : (x l : ℕ) → o.level x ≡ suc l → x ≡ pages.base_addr + 4096 * (n - 1) =
        λ x l h. ground arith in
      record {
        root_level = rw (root, eq→== (pages.base_addr + 4096 * (n - 1)) _ refl) refl;
        root_region = refl;
        fresh = rw (mem, free) (fresh_frames n (n - 1) a (omega arith) c d);
        frame = λ f l h. let e = the_root f l h in (omega arith, omega arith);
        entry = λ f l i h g. inl (rw (mem, the_root f l h) (frame_zero (n - 1) i (omega arith) g));
      }

length-frames : (pages nodes n : ℕ) → length (frames pages nodes n) ≡ n
length-frames pages nodes zero = refl
length-frames pages nodes (suc n) = ap suc (length-frames pages nodes n)

pub paging_init_lem :
    (pages nodes : Region) (t : PageTable)
    → nodes.length ≡ pageframe_calc_space_needed pages.length
    → nodes.base_addr + nodes.length ≤ 2 ^ 47
    → pages.base_addr % 4096 ≡ 0
    → pages.base_addr + pages.length ≤ 2 ^ 40
    → 4096 ≤ pages.length
    → (t' : PageTable) × (o : Owners) × (paging_init pages nodes t ≡ ok t')
      × IsTree o t'
      × (length t'.pfdb.free + 1 ≡ pages.length / 4096)
      × ((v : ℕ) → translate t' v ≡ none)
unfolding paging_init pageframe_alloc pageframe_calc_space_needed
paging_init_lem pages nodes t e low aligned room some_ =
    let n : ℕ = pages.length / 4096 in
    let root : ℕ = pages.base_addr + 4096 * (n - 1) in
    let count : n ≡ suc (n - 1) = omega arith in
    let made =
      pageframe_init_lem pages nodes e low (omega arith)
      ∙ ap (λ k. ok (record { free = frames pages.base_addr nodes.base_addr k; used = [] }))
          count in
    let high_p = va_low pages.base_addr (omega arith) in
    let high_n = va_low nodes.base_addr (omega arith) in
    let high_r = va_low root (omega arith) in
    let t' : PageTable = record {
      phys_root = root;
      virt_root = virt_addr_kernel_start + root;
      pfdb = record {
        free = frames pages.base_addr nodes.base_addr (n - 1);
        used = nth_frame pages.base_addr nodes.base_addr (n - 1) ∷ [];
      };
      memory = cleared pages nodes t.memory;
    } in
    (
      t',
      only_root root,
      rw (paging_init, high_p, high_n, made, high_r) refl,
      start-IsTree pages nodes t.memory n t' (omega arith) (omega arith) aligned room refl refl
          refl,
      omega (arith, length-frames pages.base_addr nodes.base_addr (n - 1)),
      λ v.
          lookup_absent 3 root t'.memory v
            (frame_zero pages nodes t.memory (n - 1) (slot 4 v) (omega arith) (slot-lt 4 v)),
    )
