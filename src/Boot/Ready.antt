-- ===== src/Boot/Ready.antt =====
-- The request lines that the start of src/kernel/main.c opens, and their vectors.
use almeida_os.Base.{
  ℕ, ◌+◌, ◌-◌, ◌^◌, ◌<◌, ◌≡◌, sym, ap, ◌∙◌, ◌⊎◌, inl, inr, Bool, true, false, ◌&&◌, ◌||◌, not,
  arith, ltb, ◌==◌, eq→==, Bool-cases,
}
use almeida_os.BitOps.{test_bit}
use almeida_os.Pic.Laws.{is_masked-pic_unmask_irq}
use almeida_os.BitOps.Laws.{test_bit-digit}
use almeida_os.Word.Bits.{digit, digit_big, digit-complement, two-pow_pos}
use almeida_os.Pic.{Pic, is_masked, pic_disable_all_irq, pic_init, pic_unmask_irq}
use almeida_os.Trap.Timer.{Kernel, pit_enable}
use almeida_os.Trap.Handler.{spurious_irq_enable, keyboard_enable}
use almeida_os.Trap.Vectors.{IdtEntry, idt_init, handler_of, is_vector, idt_init_lem}
use almeida_os.Boot.{close_lines, open_lines}

abbrev pub is_open : ℕ → Bool
is_open irq = irq == 0 || irq == 1 || irq == 7

all_ones : (i : ℕ) → i < 8 → test_bit i 255 ≡ true
all_ones i h =
    let zero_digit : digit i 0 ≡ 0 = digit_big i 0 (two-pow_pos i) in
    let one : digit i 255 ≡ 1 - digit i 0 = digit-complement 8 i 0 h (omega arith) in
    test_bit-digit i 255 ∙ eq→== _ _ (one ∙ ap (λ d. 1 - d) zero_digit)

closed : (k : Kernel) (irq : ℕ) → irq < 16 → is_masked irq (close_lines k).pic ≡ true
unfolding close_lines pic_init pic_disable_all_irq
closed k irq h = elim (Bool-cases (ltb irq 8)) [
  | inl e ↦ rw e (all_ones irq (ground arith))
  | inr e ↦ rw e (all_ones (irq - 8) (ground arith))
]

opened :
    (k : Kernel) (irq : ℕ)
    → irq < 16
    → is_masked irq (open_lines (close_lines k)).pic ≡ not (is_open irq)
unfolding open_lines pit_enable keyboard_enable spurious_irq_enable
opened k irq h =
    let p : Pic = (close_lines k).pic in
    let first = is_masked-pic_unmask_irq irq 7 p h (omega arith) in
    let second = is_masked-pic_unmask_irq irq 1 (pic_unmask_irq 7 p) h (omega arith) in
    let third =
      is_masked-pic_unmask_irq irq 0 (pic_unmask_irq 1 (pic_unmask_irq 7 p)) h (omega arith) in
    third
    ∙ ap (λ b. not (irq == 0) && b)
        (second
          ∙ ap (λ b. not (irq == 1) && b) (first ∙ ap (λ b. not (irq == 7) && b) (closed k irq h)))
    ∙ ground arith

pub open_lines_lem :
    (k : Kernel) (vector : ℕ → ℕ) (table : ℕ → IdtEntry) (irq : ℕ)
    → irq < 16
    → vector (32 + irq) < 2 ^ 64
    → ((is_open irq ≡ false) × (is_masked irq (open_lines (close_lines k)).pic ≡ true))
      ⊎ ((is_open irq ≡ true)
          × (is_masked irq (open_lines (close_lines k)).pic ≡ false)
          × (handler_of ((idt_init vector table).1 (32 + irq)) ≡ vector (32 + irq)))
open_lines_lem k vector table irq h word = elim (Bool-cases (is_open irq)) [
  | inr e ↦ inl (e, opened k irq h ∙ ap not e)
  | inl e ↦ elim (idt_init_lem vector table (32 + irq) word) [
    | inl (there, leads, selector, attr) ↦ inr (e, opened k irq h ∙ ap not e, leads)
    | inr (missing, same) ↦
        let there : is_vector (32 + irq) ≡ true = ground arith in
        let bad : false ≡ true = sym missing ∙ there in cc
  ]
]
