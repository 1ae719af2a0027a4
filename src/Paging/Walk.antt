-- ===== src/Paging/Walk.antt =====
-- The translation of a virtual address by the processor over the tables of src/kernel/mm/page.c, and
-- the tree that the tables form.
use native.Mathlib.Nat.{div-div-eq-div-mul}
use almeida_os.Base.{
  ℕ, zero, suc, ◌+◌, ◌*◌, ◌/◌, ◌%◌, ◌^◌, ◌≤◌, ◌<◌, ◌≡◌, refl, sym, ◌≢◌, ◌⊎◌, Option, none, some,
  List, [], ◌∷◌, arith, ◌==◌, if◌then◌else◌,
}
use almeida_os.BitOps.Laws.{extract_bit_chunk_lem}
use almeida_os.PageFrame.{PageFrame}
use almeida_os.Paging.{PageTable, table_of, pml4e, pdpte, pde, pte}

-- what an entry of a level covers, a page at level 1; and the index of an address in its table
abbrev pub span : ℕ → ℕ
span zero = 8
span (suc level) = span level * 512

abbrev pub slot : ℕ → ℕ → ℕ
slot level v = v / span level % 512

abbrev pub slot_at : ℕ → ℕ → ℕ → ℕ
slot_at table level v = table + 8 * slot level v

-- The walk of the processor from a table of a level: bit 0 of an entry says that it is present.
unfoldable pub lookup : ℕ → ℕ → (ℕ → ℕ) → ℕ → Option ℕ
lookup zero table memory v = some table
lookup (suc level) table memory v =
    let next : Option ℕ = lookup level (table_of (memory (slot_at table (suc level) v))) memory v in
    if memory (slot_at table (suc level) v) % 2 == 0 then none else next

-- An address counts by its low 48 bits.
pub slot_low : (k v : ℕ) → k ≤ 4 → slot k (v % 2 ^ 48) ≡ slot k v
slot_low zero v h = omega arith
slot_low (suc zero) v h = omega arith
slot_low (suc (suc zero)) v h = omega arith
slot_low (suc (suc (suc zero))) v h = omega arith
slot_low (suc (suc (suc (suc zero)))) v h = omega arith
slot_low (suc (suc (suc (suc (suc k))))) v h = absurd (omega arith)

pub lookup_low : (k s : ℕ) (m : ℕ → ℕ) (v : ℕ) → k ≤ 4 → lookup k s m (v % 2 ^ 48) ≡ lookup k s m v
unfolding lookup
lookup_low zero s m v h = refl
lookup_low (suc k) s m v h =
    let e = slot_low (suc k) v h in
    let rest = lookup_low k (table_of (m (slot_at s (suc k) v))) m v (omega arith) in
    rw (lookup, e, rest) refl

-- the physical page of a virtual address, none if it has none
abbrev pub translate : PageTable → ℕ → Option ℕ
translate t v = lookup 4 t.phys_root t.memory v

-- the number of the table of a level that an address goes through
abbrev pub region_of : ℕ → ℕ → ℕ
region_of level v = v / span (suc level)

pub region_of_next :
    (level v : ℕ) → region_of level v ≡ region_of (suc level) v * 512 + slot (suc level) v
region_of_next level v = omega (arith, sym (div-div-eq-div-mul v (span (suc level)) 512))

-- the four indices of page_alloc
pub slots_of :
    (v : ℕ) → (pml4e v ≡ slot 4 v) × (pdpte v ≡ slot 3 v) × (pde v ≡ slot 2 v) × (pte v ≡ slot 1 v)
slots_of v = (
  extract_bit_chunk_lem 39 47 v (omega arith) (omega arith),
  extract_bit_chunk_lem 30 38 v (omega arith) (omega arith),
  extract_bit_chunk_lem 21 29 v (omega arith) (omega arith),
  extract_bit_chunk_lem 12 20 v (omega arith) (omega arith),
)

-- Which frames are tables: the level of each, 0 for the others, and the part of the address space.
pub record Owners : Type 0 where
  pub level : ℕ → ℕ
  pub region : ℕ → ℕ

abbrev pub IsFrame : ℕ → Type 0
IsFrame f = (f % 4096 ≡ 0) × (f < 2 ^ 40)

-- The free frames are distinct, hold zeros and are no tables.
abbrev pub IsFresh : Owners → (ℕ → ℕ) → ℕ → Type 0
IsFresh o memory f = IsFrame f × (o.level f ≡ 0) × ((i : ℕ) → i < 512 → memory (f + 8 * i) ≡ 0)

abbrev pub Apart : ℕ → List PageFrame → Type 0
Apart f [] = Unit {0}
Apart f (x ∷ xs) = (f ≢ x.phy_addr) × Apart f xs

abbrev pub AllFresh : Owners → (ℕ → ℕ) → List PageFrame → Type 0
AllFresh o memory [] = Unit {0}
AllFresh o memory (x ∷ xs) =
    IsFresh o memory x.phy_addr × Apart x.phy_addr xs × AllFresh o memory xs

-- An entry of a table is empty or present, and then leads to the table of its part of the space.
abbrev pub GoodEntry : Owners → ℕ → ℕ → ℕ → Type 0
GoodEntry o level region entry =
    (entry ≡ 0)
    ⊎ ((entry % 2 ≡ 1)
        × ((level ≡ 0)
            ⊎ ((o.level (table_of entry) ≡ level) × (o.region (table_of entry) ≡ region))))

pub record IsTree (o : Owners) (t : PageTable) : Type 0 where
  pub root_level : o.level t.phys_root ≡ 4
  pub root_region : o.region t.phys_root ≡ 0
  pub fresh : AllFresh o t.memory t.pfdb.free
  pub frame : (f l : ℕ) → o.level f ≡ suc l → IsFrame f
  pub entry :
      (f l i : ℕ)
      → o.level f ≡ suc l
      → i < 512
      → GoodEntry o l (o.region f * 512 + i) (t.memory (f + 8 * i))
