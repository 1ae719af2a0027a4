-- ===== src/Cpu.antt =====
-- src/kernel/arch/cpu.c and src/kernel/arch/msr.c, with include/kernel/arch/msr.h: what the processor is,
-- and its model-specific registers. The answers of the instruction `cpuid` are an argument.
pub mod Msr
use almeida_os.Base.{
  ℕ, zero, suc, ◌+◌, ◌-◌, ◌*◌, ◌/◌, ◌%◌, ◌^◌, ◌≤◌, ◌<◌, min, max, ◌≡◌, refl, sym, ap, ap₂, ◌∙◌,
  subst, fun_ext, ◌≢◌, ◌↔◌, ◌⊎◌, inl, inr, Bool, true, false, ◌&&◌, ◌||◌, not, Option, none, some,
  List, [], ◌∷◌, ◌++◌, map, arith, ltb, leb, ◌==◌, if◌then◌else◌, ltb→lt, lt→ltb, ltb→le, le→ltb,
  ==→eq, eq→==, tests, Bool-cases, Option-cases, length, get_or, set, length-set, get_or-set_self,
  get_or-set_ne, length-append, Run, ok, bug, running, ◌>>=◌, ◌>>◌, bug_on,
}
use Prim.Native.Nat.{bit_or}
use almeida_os.Word.{u8, u16, u32, shl64, shr}
use almeida_os.BitOps.{test_bit, set_bit, extract_bit_chunk}

-- EAX and EDX for each leaf
abbrev pub Cpuid : Type 0
Cpuid = ℕ → ℕ × ℕ

-- the registers as the instructions see them, each as its upper and its lower half
abbrev pub Msrs : Type 0
Msrs = ℕ → ℕ × ℕ

unfoldable pub rdmsr : ℕ → Msrs → ℕ
rdmsr addr m = let (reth, retl) = m addr in bit_or retl (shl64 reth 32)

unfoldable pub wrmsr : ℕ → ℕ → Msrs → ℕ → ℕ × ℕ
wrmsr addr value m a = if a == addr then (u32 (shr value 32), u32 value) else m a

unfoldable pub is_msr_supported : Cpuid → Bool
is_msr_supported cpuid = let (eax, edx) = cpuid 1 in test_bit 5 edx

abbrev pub msr_ia32_misc_enable : ℕ
msr_ia32_misc_enable = 416

-- `cpu_version_info`
pub record CpuVersionInfo : Type 0 where
  pub stepping_id : ℕ
  pub model_id : ℕ
  pub family_id : ℕ
  pub extended_model_id : ℕ
  pub extended_family_id : ℕ
  pub display_family : ℕ
  pub display_model : ℕ

-- The register is read back only to be printed.
unfoldable pub enable_intel_faststring : Cpuid → CpuVersionInfo → Msrs → Msrs
enable_intel_faststring cpuid v m =
    let ia32_misc_enable : ℕ = rdmsr msr_ia32_misc_enable m in
    if is_msr_supported cpuid
      && (v.display_family == 15 && v.display_model == 0)
      && not (test_bit 0 ia32_misc_enable)
    then wrmsr msr_ia32_misc_enable (bit_or ia32_misc_enable 1) m
    else m

-- the two steps of `cpu_init` after the first three fields
unfoldable pub with_family : ℕ → CpuVersionInfo → CpuVersionInfo
with_family eax v =
    let extended : ℕ = u8 (extract_bit_chunk 20 27 eax) in
    if not (v.family_id == 15)
    then record v { display_family = v.family_id }
    else record v { extended_family_id = extended; display_family = u16 (extended + v.family_id) }

unfoldable pub with_model : ℕ → CpuVersionInfo → CpuVersionInfo
with_model eax v =
    let extended : ℕ = extract_bit_chunk 16 19 eax % 2 ^ 4 in
    if v.family_id == 6 || v.family_id == 15
    then record v {
      extended_model_id = extended;
      display_model = u8 (extended * 2 ^ 4 + v.model_id);
    }
    else record v { display_model = v.model_id }

unfoldable pub cpu_init : Cpuid → CpuVersionInfo → Msrs → CpuVersionInfo × Msrs
cpu_init cpuid info m =
    let (eax, edx) = cpuid 1 in
    let v : CpuVersionInfo = with_model eax (
      with_family eax (record info {
        stepping_id = extract_bit_chunk 0 3 eax % 2 ^ 4;
        model_id = extract_bit_chunk 4 7 eax % 2 ^ 4;
        family_id = extract_bit_chunk 8 11 eax % 2 ^ 4;
      })) in
    (v, enable_intel_faststring cpuid v m)
