-- ===== src/Syscall/Write.antt =====
-- `sys_write` of src/kernel/syscall/write.c over the allocator, the page tables and the devices.
use almeida_os.Base.{
  ℕ, zero, suc, ◌+◌, ◌*◌, ◌/◌, ◌%◌, ◌^◌, ◌≤◌, ◌<◌, ◌≡◌, refl, ap, ◌∙◌, subst, ◌≢◌, ◌⊎◌, inl, inr,
  true, false, ◌||◌, some, List, [], ◌∷◌, arith, ltb, ◌==◌, eq→==, length, Run, ok, bug, running,
  ◌>>=◌,
}
use almeida_os.Address.{virt_addr_kernel_start}
use almeida_os.Paging.{PageTable}
use almeida_os.Paging.Walk.{translate}
use almeida_os.Buddy.{Slots, BuddyRef}
use almeida_os.Buddy.Coords.{IsRef, InRange}
use almeida_os.Buddy.Valid.{IsValid, IsFree}
use almeida_os.Buddy.Alloc.{order_of}
use almeida_os.Buddy.AllocLaws.{Allocated}
use almeida_os.Buddy.FreeLaws.{SameUsed}
use almeida_os.Buddy.Cycle.{settle, null_free}
use almeida_os.Kmem.{kmalloc, kmem_default, kfree}
use almeida_os.Kmem.Init.{Memory}
use almeida_os.Kmem.Mapping.{IsKernelTable}
use almeida_os.Kmem.Obtain.{Obtains, Obtained, kmalloc_lem}
use almeida_os.Kmem.Cycle.{block_low, kfree_lem}
use almeida_os.Task.Create.{alloc}
use almeida_os.Text.{Chars}
use almeida_os.Console.Log.{HoldsLog}
use almeida_os.Console.Serial.{chances}
use almeida_os.Console.Printk.{Printer, printk, printk_info_level, IsPlain, Printed, printk_lem}
use almeida_os.Syscall.{System, string_at, content_of, sys_write}

-- The bytes from a place on are a text and a NUL.
abbrev pub HasText : (ℕ → ℕ) → ℕ → Chars → Type 0
HasText bytes i [] = bytes i ≡ 0
HasText bytes i (c ∷ cs) = (bytes i ≡ c) × (c ≢ 0) × HasText bytes (suc i) cs

string_at_lem :
    (text : Chars) (bytes : ℕ → ℕ) (fuel i : ℕ)
    → HasText bytes i text
    → length text < fuel
    → string_at fuel bytes i ≡ ok text
unfolding string_at
string_at_lem text bytes zero i h room = absurd (omega arith)
string_at_lem [] bytes (suc fuel) i h room =
    let e : (bytes i == 0) ≡ true = eq→== _ _ h in rw (string_at, e) refl
string_at_lem (c ∷ cs) bytes (suc fuel) i (e, n, h) room =
    let no : (bytes i == 0) ≡ false = rw e (ground arith) in
    rw (string_at, no, string_at_lem cs bytes fuel (suc i) h (omega arith), e) refl

-- The block holds the text that the program has got, if the NUL is within the length.
content-HasText :
    (text : Chars) (user block : ℕ → ℕ) (string length' i : ℕ)
    → HasText user (string + i) text
    → i + length text < length'
    → HasText (content_of user string length' block) i text
unfolding content_of
content-HasText [] user block string length' i h room =
    let e : ltb i length' ≡ true = ground arith in rw (content_of, e) h
content-HasText (c ∷ cs) user block string length' i (e, n, h) room =
    let inside : ltb i length' ≡ true = ground arith in
    let next : suc (string + i) ≡ string + suc i = omega arith in
    (
      rw (content_of, inside) e,
      n,
      content-HasText cs user block string length' (suc i) (subst (λ x. HasText user x cs) next h)
          (omega arith),
    )

-- What is asked of the memory of the kernel.
pub record IsKernelMemory (k : Memory) : Type 0 where
  pub ref : IsRef k.ref
  pub valid : IsValid k.ref k.slots
  pub pages : 12 ≤ k.ref.min_pow_order
  pub aligned : k.ref.content_mem_reg.base_addr % 4096 ≡ 0
  pub low : k.ref.content_mem_reg.base_addr + 2 ^ k.ref.max_pow_order + 4096 ≤ 2 ^ 40
  pub table : IsKernelTable k.table

-- The same blocks are given out as before, and the translations of the kernel are kept.
pub record Keeps (k k' : Memory) : Type 0 where
  pub ref : k'.ref ≡ k.ref
  pub valid : IsValid k.ref k'.slots
  pub used : SameUsed k.ref k.slots k'.slots
  pub table : IsKernelTable k'.table
  pub kept : (w q : ℕ) → translate k.table w ≡ some q → translate k'.table w ≡ some q

-- The cases in which the kernel halts: no block is free, or too few frames, or the block starts at the
-- physical address 0, which `kfree` refuses.
abbrev pub Halts : ℕ → Memory → Type 0
Halts bytes k =
    ((l q : ℕ) → order_of k.ref bytes ≤ l → InRange k.ref l q → ¬ IsFree k.ref k.slots l q)
    ⊎ ((length k.table.pfdb.free < 3 * (bytes / 4096 + 1))
        ⊎ ((m : Slots) × (t : PageTable) × (kmalloc k.ref bytes kmem_default k.slots k.table
              ≡ ok (virt_addr_kernel_start, m, t))))

-- What `sys_write` of a text comes to.
abbrev pub Written : List Chars → Chars → ℕ → System → Run (ℕ × System) → Type 0
Written log text bytes s (ok (n, s')) =
    (n ≡ bytes)
    × Printed log text s.printer s'.printer
    × Keeps s.world.memory s'.world.memory
    × (s'.scheduler ≡ s.scheduler)
Written log text bytes s bug = Halts bytes s.world.memory
Written log text bytes s running = ⊥

module _ (log : List Chars) (text : Chars) (user block : ℕ → ℕ) (reach string bytes : ℕ)
    (s : System) (given : 0 < string) (has : HasText user string text) (ends : length text < bytes)
    (within : bytes ≤ reach) where
  -- the guard, the copy and the message
  reads : string_at reach (content_of user string bytes block) 0 ≡ ok text
  reads =
      string_at_lem text (content_of user string bytes block) reach 0
        (content-HasText text user block string bytes 0
          (subst (λ x. HasText user x text) (omega arith) has) (omega arith))
        (omega arith)

  guard : (bytes == 0 || string == 0) ≡ false
  guard = ground arith

  after_alloc :
      (p' : Printer)
      → printk printk_info_level text [] s.printer ≡ ok p'
      → Printed log text s.printer p'
      → IsKernelMemory s.world.memory
      → (v : ℕ) (m' : Slots) (t' : PageTable)
      → kmalloc s.world.memory.ref bytes kmem_default s.world.memory.slots s.world.memory.table
        ≡ ok (v, m', t')
      → Obtained s.world.memory.ref s.world.memory.slots s.world.memory.table bytes v m' t'
      → Written log text bytes s (sys_write user block reach [] string bytes s)
  unfolding sys_write alloc
  after_alloc p' print printed k v m' t' run o = by_address o.ptr o.address o.block
    where
      ref : BuddyRef
      ref = s.world.memory.ref

      by_address :
          (ptr : ℕ)
          → v ≡ virt_addr_kernel_start + ptr
          → Allocated ref s.world.memory.slots (order_of ref bytes) ptr m'
          → Written log text bytes s (sys_write user block reach [] string bytes s)
      by_address zero e a =
          let null : v ≡ virt_addr_kernel_start = e ∙ omega arith in
          let low = block_low (order_of ref bytes) 0 k.ref (omega (arith, k.low)) a in
          let free : kfree ref v m' ≡ bug =
            ap (λ x. kfree ref x m') e ∙ kfree_lem ref m' 0 low ∙ null_free ref m' in
          rw (sys_write, guard, alloc, run, ◌>>=◌, reads, print, free)
            (inr (
              inr (
                m',
                t',
                subst
                    (λ x.
                      kmalloc ref bytes kmem_default s.world.memory.slots s.world.memory.table
                      ≡ ok (x, m', t'))
                    null run,
              )))
      by_address (suc ptr) e a =
          let low = block_low (order_of ref bytes) (suc ptr) k.ref (omega (arith, k.low)) a in
          let (m'', done, valid, same) =
            settle ref s.world.memory.slots (order_of ref bytes) (suc ptr) m' k.ref (omega arith)
              a in
          let free : kfree ref v m' ≡ ok m'' =
            ap (λ x. kfree ref x m') e ∙ kfree_lem ref m' (suc ptr) low ∙ done in
          rw (sys_write, guard, alloc, run, ◌>>=◌, reads, print, free)
            (
              refl,
              printed,
              record { ref = refl; valid = valid; used = same; table = o.table; kept = o.kept },
              refl,
            )

  pub sys_write_lem :
      IsKernelMemory s.world.memory
      → bytes ≤ s.world.memory.ref.content_mem_reg.length
      → HoldsLog log s.printer.console
      → IsPlain text
      → s.printer.serial.initialised ≡ true
      → printk_info_level ≤ s.printer.logging_level
      → length text < 1024
      → length text < chances s.printer.status
      → Written log text bytes s (sys_write user block reach [] string bytes s)
  unfolding sys_write alloc
  sys_write_lem k fits holds plain ready level room chance =
      elim (printk_lem log printk_info_level text s.printer holds plain ready room chance) [
        | inl (a, b) ↦ absurd (omega arith)
        | inr (a, p', print, printed) ↦
            by_block p' print printed
              (kmalloc s.world.memory.ref bytes kmem_default s.world.memory.slots
                s.world.memory.table)
              refl
              (kmalloc_lem s.world.memory.ref s.world.memory.slots s.world.memory.table bytes
                kmem_default k.ref (omega arith) fits k.pages k.aligned k.low k.table refl refl
                k.valid)
      ]
    where
      by_block :
          (p' : Printer)
          → printk printk_info_level text [] s.printer ≡ ok p'
          → Printed log text s.printer p'
          → (res : Run (ℕ × Slots × PageTable))
          → kmalloc s.world.memory.ref bytes kmem_default s.world.memory.slots s.world.memory.table
            ≡ res
          → Obtains s.world.memory.ref s.world.memory.slots s.world.memory.table bytes res
          → Written log text bytes s (sys_write user block reach [] string bytes s)
      by_block p' print printed (ok (v, m', t')) run o =
          after_alloc p' print printed k v m' t' run o
      by_block p' print printed bug run (inl full) = rw (sys_write, guard, alloc, run) (inl full)
      by_block p' print printed bug run (inr few) =
          rw (sys_write, guard, alloc, run) (inr (inl few))
      by_block p' print printed running run o = absurd o
