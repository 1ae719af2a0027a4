-- ===== src/Address.antt =====
-- src/kernel/mm/addressconv.c: between physical addresses and the kernel's half of the address space.
pub mod Laws
use almeida_os.Base.{
  ℕ, zero, suc, ◌+◌, ◌-◌, ◌*◌, ◌/◌, ◌%◌, ◌^◌, ◌≤◌, ◌<◌, min, max, ◌≡◌, refl, sym, ap, ap₂, ◌∙◌,
  subst, fun_ext, ◌≢◌, ◌↔◌, ◌⊎◌, inl, inr, Bool, true, false, ◌&&◌, ◌||◌, not, Option, none, some,
  List, [], ◌∷◌, ◌++◌, map, arith, ltb, leb, ◌==◌, if◌then◌else◌, ltb→lt, lt→ltb, ltb→le, le→ltb,
  ==→eq, eq→==, tests, Bool-cases, Option-cases, length, get_or, set, length-set, get_or-set_self,
  get_or-set_ne, length-append, Run, ok, bug, running, ◌>>=◌, ◌>>◌, bug_on,
}
use almeida_os.Word.{add64, sub64}

-- VIRT_ADDR_KERNEL_START and PHYS_ADDR_MAX_BOUNDARY
abbrev pub virt_addr_kernel_start : ℕ
virt_addr_kernel_start = 18446603336221196288

abbrev pub phys_addr_max_boundary : ℕ
phys_addr_max_boundary = (2 ^ 64 - 1) / 2 ^ (64 - 48)

unfoldable pub va : ℕ → Run ℕ
va phys_addr = do
  bug_on (ltb phys_addr_max_boundary phys_addr)
  ok (add64 virt_addr_kernel_start phys_addr)

unfoldable pub pa : ℕ → Run ℕ
pa virt_addr = do
  bug_on (ltb virt_addr phys_addr_max_boundary)
  ok (sub64 virt_addr virt_addr_kernel_start)
