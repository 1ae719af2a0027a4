-- ===== src/Trap/Vectors.antt =====
-- The table of descriptors that `idt_init` of src/kernel/interrupt/idt.c fills. The addresses of the
-- vectors, which are assembly, are an argument.
use almeida_os.Base.{
  ℕ, ◌+◌, ◌-◌, ◌*◌, ◌^◌, ◌<◌, ◌≡◌, refl, sym, ap, ◌∙◌, ◌⊎◌, inl, inr, Bool, true, false, ◌&&◌, ◌||◌,
  List, [], ◌∷◌, arith, ltb, leb, ◌==◌, if◌then◌else◌, ltb→lt, ltb→le, ==→eq, Bool-cases,
}
use almeida_os.BitOps.{extract_bit_chunk}
use almeida_os.BitOps.Laws.{extract_bit_chunk_lem}

-- `idt_entry_t`
pub record IdtEntry : Type 0 where
  pub low_offset : ℕ
  pub target_selector : ℕ
  pub ist_ign_res : ℕ
  pub attr : ℕ
  pub mid_offset : ℕ
  pub high_offset : ℕ
  pub reserved : ℕ

-- the entry of a handler
unfoldable pub idt_entry : ℕ → IdtEntry
idt_entry fn = record {
  low_offset = extract_bit_chunk 0 15 fn;
  target_selector = 8;
  ist_ign_res = 0;
  attr = 142;
  mid_offset = extract_bit_chunk 16 31 fn;
  high_offset = extract_bit_chunk 32 63 fn;
  reserved = 0;
}

unfoldable pub config_idt_vector : ℕ → ℕ → (ℕ → IdtEntry) → ℕ → IdtEntry
config_idt_vector vector_id fn table i = if i == vector_id then idt_entry fn else table i

unfoldable pub config_all : List ℕ → (ℕ → ℕ) → (ℕ → IdtEntry) → ℕ → IdtEntry
config_all [] vector table = table
config_all (id ∷ ids) vector table = config_all ids vector (config_idt_vector id (vector id) table)

-- the calls of `config_idt_vector`, in order
abbrev pub vectors : List ℕ
vectors =
    0 ∷ 1 ∷ 2 ∷ 3 ∷ 4 ∷ 5 ∷ 6 ∷ 7 ∷ 8 ∷ 10 ∷ 11 ∷ 12 ∷ 13 ∷ 14 ∷ 16 ∷ 17 ∷ 18 ∷ 19 ∷ 20 ∷ 21 ∷ 32
    ∷ 33 ∷ 39 ∷ []

-- The limit of the pointer, and the table.
unfoldable pub idt_init : (ℕ → ℕ) → (ℕ → IdtEntry) → ℕ × (ℕ → IdtEntry)
idt_init vector table = (16 * 256 - 1, config_all vectors vector table)

-- the address that the processor reads from an entry
abbrev pub handler_of : IdtEntry → ℕ
handler_of e = e.low_offset + e.mid_offset * 2 ^ 16 + e.high_offset * 2 ^ 32

-- the exceptions, and the lines of the timer, the keyboard and spurious interrupts
abbrev pub is_vector : ℕ → Bool
is_vector i =
    leb i 8 || (leb 10 i && leb i 14) || (leb 16 i && leb i 21) || i == 32 || i == 33 || i == 39

abbrev member : ℕ → List ℕ → Bool
member i [] = false
member i (x ∷ xs) = i == x || member i xs

config_all_lem :
    (ids : List ℕ) (vector : ℕ → ℕ) (table : ℕ → IdtEntry) (i : ℕ)
    → config_all ids vector table i ≡ (if member i ids then idt_entry (vector i) else table i)
unfolding config_all config_idt_vector
config_all_lem [] vector table i = refl
config_all_lem (id ∷ ids) vector table i =
    let rest = config_all_lem ids vector (config_idt_vector id (vector id) table) i in
    elim (Bool-cases (i == id)) [
      | inr e ↦ rest ∙ rw (config_idt_vector, e) refl
      | inl e ↦ elim (Bool-cases (member i ids)) [
        | inl f ↦ rest ∙ rw (f, e) refl
        | inr f ↦
            rest
            ∙ rw (f, config_idt_vector, e) (ap (λ x. idt_entry (vector x)) (sym (==→eq i id e)))
      ]
    ]

member-vectors : (i : ℕ) → member i vectors ≡ is_vector i
member-vectors i = elim (Bool-cases (ltb i 40)) [
  | inl e ↦ below i (ltb→lt _ _ e)
  | inr e ↦ ground (arith, ltb→le _ _ e)
]
  where
    below : (i : ℕ) → i < 40 → member i vectors ≡ is_vector i
    below i h = ground arith

handler_of-idt_entry : (fn : ℕ) → fn < 2 ^ 64 → handler_of (idt_entry fn) ≡ fn
unfolding idt_entry
handler_of-idt_entry fn h =
    let a = extract_bit_chunk_lem 0 15 fn (omega arith) (omega arith) in
    let b = extract_bit_chunk_lem 16 31 fn (omega arith) (omega arith) in
    let c = extract_bit_chunk_lem 32 63 fn (omega arith) (omega arith) in omega (arith, a, b, c)

-- After `idt_init` the processor finds, for each exception and for the three lines that are handled,
-- the address of its own vector behind a present interrupt gate of the kernel's code segment. All
-- other entries are as they were.
pub idt_init_lem :
    (vector : ℕ → ℕ) (table : ℕ → IdtEntry) (i : ℕ)
    → vector i < 2 ^ 64
    → ((is_vector i ≡ true)
        × (handler_of ((idt_init vector table).1 i) ≡ vector i)
        × (((idt_init vector table).1 i).target_selector ≡ 8)
        × (((idt_init vector table).1 i).attr ≡ 142))
      ⊎ ((is_vector i ≡ false) × ((idt_init vector table).1 i ≡ table i))
unfolding idt_init idt_entry
idt_init_lem vector table i h =
    let same = config_all_lem vectors vector table i in
    elim (Bool-cases (is_vector i)) [
      | inl e ↦
          let here : config_all vectors vector table i ≡ idt_entry (vector i) =
            same ∙ rw (member-vectors i, e) refl in
          inl (
            e,
            ap handler_of here ∙ handler_of-idt_entry (vector i) h,
            ap (λ x. x.target_selector) here,
            ap (λ x. x.attr) here,
          )
      | inr e ↦ inr (e, same ∙ rw (member-vectors i, e) refl)
    ]
