-- ===== src/PageFrame/Layout.antt =====
-- `pageframe_init` of src/kernel/mm/pageframe.c.
use almeida_os.Base.{
  ℕ, zero, suc, ◌+◌, ◌*◌, ◌/◌, ◌%◌, ◌^◌, ◌≤◌, ◌<◌, ◌≡◌, refl, ap, ap₂, ◌∙◌, List, [], ◌∷◌, arith,
  ok,
}
use almeida_os.MemMap.{Region}
use almeida_os.Address.{virt_addr_kernel_start}
use almeida_os.Address.Laws.{va_low}
use almeida_os.PageFrame.{PageFrame, init_loop, pageframe_init, pageframe_calc_space_needed}

-- The frame of each number, and the first `n` of them, the last one first.
abbrev pub nth_frame : ℕ → ℕ → ℕ → PageFrame
nth_frame pages nodes i = record {
  node = virt_addr_kernel_start + (nodes + 16 * i);
  phy_addr = pages + 4096 * i;
}

abbrev pub frames : ℕ → ℕ → ℕ → List PageFrame
frames pages nodes zero = []
frames pages nodes (suc n) = nth_frame pages nodes n ∷ frames pages nodes n

loop_frames :
    (rounds i pages nodes : ℕ)
    → nodes + 16 * (i + rounds) ≤ 2 ^ 47
    → pages + 4096 * (i + rounds) < 2 ^ 64
    → init_loop rounds (pages + 4096 * i) (nodes + 16 * i) (frames pages nodes i)
      ≡ ok (frames pages nodes (i + rounds))
unfolding init_loop
loop_frames zero i pages nodes a b = let e : i + zero ≡ i = omega arith in rw e refl
loop_frames (suc rounds) i pages nodes a b =
    let next : (pages + 4096 * i + 4096) % 2 ^ 64 ≡ pages + 4096 * suc i = omega arith in
    let next' : (nodes + 16 * i + 16) % 2 ^ 64 ≡ nodes + 16 * suc i = omega arith in
    let more : i + suc rounds ≡ suc i + rounds = omega arith in
    rw (va_low (nodes + 16 * i) (omega arith), next, next', more)
      (loop_frames rounds (suc i) pages nodes (omega arith) (omega arith))

-- When the structures lie below 2 ^ 47 and the pages do not wrap, over the space that
-- `pageframe_calc_space_needed` asks for a region of pages, `pageframe_init` makes one free frame for
-- each page: frame `i` stands for page `i` of the region and sits in structure `i`, the last is first,
-- and no frame is used.
pub pageframe_init_lem :
    (pages nodes : Region)
    → nodes.length ≡ pageframe_calc_space_needed pages.length
    → nodes.base_addr + nodes.length ≤ 2 ^ 47
    → pages.base_addr + pages.length < 2 ^ 64
    → pageframe_init pages nodes
      ≡ ok (record {
        free = frames pages.base_addr nodes.base_addr (pages.length / 4096);
        used = [];
      })
unfolding pageframe_init pageframe_calc_space_needed
pageframe_init_lem pages nodes e a b =
    let count : nodes.length / 16 ≡ pages.length / 4096 = omega arith in
    let start : pages.base_addr ≡ pages.base_addr + 4096 * 0 = omega arith in
    let start' : nodes.base_addr ≡ nodes.base_addr + 16 * 0 = omega arith in
    let n : ℕ = pages.length / 4096 in
    let loop : init_loop n pages.base_addr nodes.base_addr []
        ≡ ok (frames pages.base_addr nodes.base_addr n) =
      ap₂ (λ x y. init_loop n x y []) start start'
      ∙ loop_frames n 0 pages.base_addr nodes.base_addr (omega arith) (omega arith)
      ∙ ap (λ t. ok (frames pages.base_addr nodes.base_addr t)) (omega arith) in
    rw (count, loop) refl
