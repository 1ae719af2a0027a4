-- ===== src/Pic.antt =====
-- src/kernel/arch/pic.c: the two interrupt controllers. The masks and the registers that a command
-- selects are their state; what the ports are given is recorded.
pub mod Laws
use Prim.Native.Nat.{bit_or}
use almeida_os.Base.{
  ℕ, zero, suc, ◌+◌, ◌-◌, ◌*◌, ◌/◌, ◌%◌, ◌^◌, ◌≤◌, ◌<◌, min, max, ◌≡◌, refl, sym, ap, ap₂, ◌∙◌,
  subst, fun_ext, ◌≢◌, ◌↔◌, ◌⊎◌, inl, inr, Bool, true, false, ◌&&◌, ◌||◌, not, Option, none, some,
  List, [], ◌∷◌, ◌++◌, map, arith, ltb, leb, ◌==◌, if◌then◌else◌, ltb→lt, lt→ltb, ltb→le, le→ltb,
  ==→eq, eq→==, tests, Bool-cases, Option-cases, length, get_or, set, length-set, get_or-set_self,
  get_or-set_ne, length-append, Run, ok, bug, running, ◌>>=◌, ◌>>◌, bug_on,
}
use almeida_os.BitOps.{test_bit, set_bit, clear_bit}
use almeida_os.Word.{u8, u16}

-- `mask1` and `mask2` are what the data ports read, and `isr1` and `isr2` what the command ports do
-- once PIC_READ_ISR has selected it; `eoi1` and `eoi2` count the ends of interrupts.
pub record Pic : Type 0 where
  pub mask1 : ℕ
  pub mask2 : ℕ
  pub isr1 : ℕ
  pub isr2 : ℕ
  pub eoi1 : ℕ
  pub eoi2 : ℕ

unfoldable pub pic_disable_all_irq : Pic → Pic
pic_disable_all_irq p = record p { mask1 = 255; mask2 = 255 }

unfoldable pub pic_send_eoi : ℕ → Pic → Pic
pic_send_eoi isa_irq p =
    if leb 8 isa_irq
    then record p { eoi2 = p.eoi2 + 1; eoi1 = p.eoi1 + 1 }
    else record p { eoi1 = p.eoi1 + 1 }

-- the new value of one mask
unfoldable pub unmasked : ℕ → ℕ → ℕ
unmasked irq value = if test_bit irq value then u8 (clear_bit irq value) else value

unfoldable pub masked : ℕ → ℕ → ℕ
masked irq value = if not (test_bit irq value) then u8 (set_bit irq value) else value

unfoldable pub pic_unmask_irq : ℕ → Pic → Pic
pic_unmask_irq isa_irq p =
    if ltb isa_irq 8
    then record p { mask1 = unmasked isa_irq p.mask1 }
    else record p { mask2 = unmasked (isa_irq - 8) p.mask2 }

unfoldable pub pic_mask_irq : ℕ → Pic → Pic
pic_mask_irq isa_irq p =
    if ltb isa_irq 8
    then record p { mask1 = masked isa_irq p.mask1 }
    else record p { mask2 = masked (isa_irq - 8) p.mask2 }

unfoldable pub pic_read_isr : Pic → ℕ
pic_read_isr p = u16 (bit_or (p.isr2 * 2 ^ 8) p.isr1)

-- whether a request line is masked
abbrev pub is_masked : ℕ → Pic → Bool
is_masked irq p = if ltb irq 8 then test_bit irq p.mask1 else test_bit (irq - 8) p.mask2

-- The ports and the bytes of `pic_init`, in order: the requests of the two controllers become the
-- vectors from 32 and from 40 on.
abbrev pub pic_commands : List (ℕ × ℕ)
pic_commands =
    (32, 21) ∷ (160, 21) ∷ (33, 32) ∷ (161, 40) ∷ (33, 4) ∷ (161, 2) ∷ (33, 1) ∷ (161, 1) ∷ []

unfoldable pub pic_init : Pic → List (ℕ × ℕ) × Pic
pic_init p = (pic_commands, pic_disable_all_irq p)
