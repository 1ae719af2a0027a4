-- ===== src/PageFrame.antt =====
-- src/kernel/mm/pageframe.c: the page frames that hold page tables, in a list of free and one of used
-- frames. A list holds its nodes in order, each with its address and the frame that it stands for.
pub mod Laws
pub mod Layout
use almeida_os.Base.{
  ℕ, zero, suc, ◌+◌, ◌-◌, ◌*◌, ◌/◌, ◌%◌, ◌^◌, ◌≤◌, ◌<◌, min, max, ◌≡◌, refl, sym, ap, ap₂, ◌∙◌,
  subst, fun_ext, ◌≢◌, ◌↔◌, ◌⊎◌, inl, inr, Bool, true, false, ◌&&◌, ◌||◌, not, Option, none, some,
  List, [], ◌∷◌, ◌++◌, map, arith, ltb, leb, ◌==◌, if◌then◌else◌, ltb→lt, lt→ltb, ltb→le, le→ltb,
  ==→eq, eq→==, tests, Bool-cases, Option-cases, length, get_or, set, length-set, get_or-set_self,
  get_or-set_ne, length-append, Run, ok, bug, running, ◌>>=◌, ◌>>◌, bug_on,
}
use almeida_os.Word.{add64, mul64}
use almeida_os.Address.{va}
use almeida_os.MemMap.{Region}

-- `struct pageframe_t`: `node` is the address of the structure, whose `next` is the order of the list.
pub record PageFrame : Type 0 where
  pub node : ℕ
  pub phy_addr : ℕ

-- `pageframe_database_t`
pub record PageFrameDatabase : Type 0 where
  pub free : List PageFrame
  pub used : List PageFrame

-- PAGEFRAME_SIZE and sizeof(struct pageframe_t)
abbrev pub pageframe_size : ℕ
pageframe_size = 4096

abbrev pub node_size : ℕ
node_size = 16

unfoldable pub pageframe_calc_space_needed : ℕ → ℕ
pageframe_calc_space_needed pagetable_bytes = mul64 (pagetable_bytes / pageframe_size) node_size

-- the loop of `pageframe_init`, with `rounds` nodes left to add
unfoldable pub init_loop : ℕ → ℕ → ℕ → List PageFrame → Run (List PageFrame)
init_loop zero pagetable_addr pageframe_addr free = ok free
init_loop (suc rounds) pagetable_addr pageframe_addr free = do
  pf ← va pageframe_addr
  init_loop rounds (add64 pagetable_addr pageframe_size) (add64 pageframe_addr node_size)
      (record { node = pf; phy_addr = pagetable_addr } ∷ free)

unfoldable pub pageframe_init : Region → Region → Run PageFrameDatabase
pageframe_init k_pages_struct_rg k_pfdb_struct_rg = do
  free ←
      init_loop (k_pfdb_struct_rg.length / node_size) k_pages_struct_rg.base_addr
        k_pfdb_struct_rg.base_addr []
  ok (record { free = free; used = [] })

unfoldable pub pageframe_alloc : PageFrameDatabase → Run (ℕ × PageFrameDatabase)
pageframe_alloc pfdb = elim pfdb.free [
  | [] ↦ bug
  | page_frame ∷ rest ↦
      ok (page_frame.phy_addr, record { free = rest; used = page_frame ∷ pfdb.used })
]

-- the loop of `find_predecessor`: the place in the list of the node before the one of `val`
unfoldable pub predecessor_loop : List PageFrame → ℕ → ℕ → Run ℕ
predecessor_loop [] val place = bug
predecessor_loop (tmp ∷ []) val place = bug
predecessor_loop (tmp ∷ next ∷ rest) val place =
    if next.phy_addr == val then ok place else predecessor_loop (next ∷ rest) val (suc place)

-- No node is NULL's: reading it is a fatal trap.
unfoldable pub find_predecessor : List PageFrame → ℕ → Run (Option ℕ)
find_predecessor [] val = bug
find_predecessor (tmp ∷ rest) val =
    if tmp.phy_addr == val
    then ok none
    else (predecessor_loop (tmp ∷ rest) val 0 >>= λ place. ok (some place))

-- `item = pred->next; pred->next = item->next`, where `pred` is the node at `place`
unfoldable pub unlink_after : List PageFrame → ℕ → Run (PageFrame × List PageFrame)
unlink_after [] place = bug
unlink_after (pred ∷ []) zero = bug
unlink_after (pred ∷ item ∷ rest) zero = ok (item, pred ∷ rest)
unlink_after (pred ∷ rest) (suc place) = do
  (item, left) ← unlink_after rest place
  ok (item, pred ∷ left)

-- The unlinking of `delete_node`; no predecessor means the head of the list.
unfoldable pub unlink : ℕ → List PageFrame → Option ℕ → Run (PageFrame × List PageFrame)
unlink val [] none = bug
unlink val (item ∷ rest) none = if item.phy_addr == val then ok (item, rest) else bug
unlink val head (some place) = unlink_after head place

unfoldable pub delete_node : List PageFrame → ℕ → Run (PageFrame × List PageFrame)
delete_node head val = do pred ← find_predecessor head val; unlink val head pred

unfoldable pub pageframe_free : PageFrameDatabase → ℕ → Run PageFrameDatabase
pageframe_free pfdb phy_addr = elim pfdb.used [
  | [] ↦ bug
  | head ∷ rest ↦ do
    (pf, left) ← delete_node (head ∷ rest) phy_addr
    ok (record { free = pf ∷ pfdb.free; used = left })
]
