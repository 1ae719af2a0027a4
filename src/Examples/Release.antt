-- ===== src/Examples/Release.antt =====
-- `page_free` of src/kernel/mm/page.c over four tables that map one page.
use almeida_os.Base.{ℕ, ◌+◌, ◌≡◌, refl, ◌⊎◌, none, [], ◌∷◌, arith, ◌==◌, if◌then◌else◌, ok}
use almeida_os.PageFrame.{PageFrame}
use almeida_os.Paging.{PageTable, table_of}
use almeida_os.Paging.Walk.{translate}
use almeida_os.Paging.Release.{page_free}
use almeida_os.Paging.Unmap.{Walked, Clears, frames_of, page_free_lem}

abbrev words : ℕ → ℕ
words a =
    if a == 4096
    then 8192 + 7
    else if a == 8192
    then 12288 + 7
    else if a == 12288
    then 16384 + 7
    else if a == 16392
    then 20480 + 7
    else 0

abbrev frame : ℕ → PageFrame
frame a = record { node = a; phy_addr = a }

abbrev mapped : PageTable
mapped = record {
  phys_root = 4096;
  virt_root = 4096;
  pfdb = record { free = []; used = frame 16384 ∷ frame 12288 ∷ frame 8192 ∷ frame 4096 ∷ [] };
  memory = words;
}

walked : Walked 4 4096 mapped 4096
unfolding table_of
walked = (
  omega arith,
  omega arith,
  λ h. h.1.1.1.0 refl,
  (omega arith, (omega arith, (omega arith, tt))),
  (
    omega arith,
    omega arith,
    λ h. h.1.1.0 refl,
    (omega arith, (omega arith, tt)),
    (
      omega arith,
      omega arith,
      λ h. h.1.0 refl,
      (omega arith, tt),
      (omega arith, omega arith, λ h. h.0 refl, tt, tt),
    ),
  ),
)

page_free_example :
    (t' : PageTable) × (page_free 4096 mapped ≡ ok t')
    × (translate t' 4096 ≡ none)
    × ((w : ℕ) → (translate t' w ≡ translate mapped w) ⊎ (translate t' w ≡ none))
    × Clears words t'.memory
    × (frames_of t' ≡ 4)
page_free_example = page_free_lem 4096 mapped walked
