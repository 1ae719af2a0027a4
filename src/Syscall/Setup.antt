-- ===== src/Syscall/Setup.antt =====
-- What `syscall_init` of src/kernel/syscall/init.c leaves for the instructions SYSCALL and SYSRET.
use almeida_os.Base.{
  ℕ, ◌+◌, ◌*◌, ◌%◌, ◌^◌, ◌<◌, ◌≡◌, refl, ap, ◌∙◌, ◌≢◌, ◌⊎◌, inl, inr, true, false, ◌||◌, arith,
  ◌==◌, if◌then◌else◌, Bool-cases, ok, bug,
}
use Prim.Native.Nat.{bit_and, bit_or}
use almeida_os.Word.Bits.{bit_and-ones, bit_or-lt}
use almeida_os.BitOps.{test_bit, set_bit, extract_bit_chunk}
use almeida_os.BitOps.Laws.{extract_bit_chunk_lem, test_bit-set_bit}
use almeida_os.Cpu.{Cpuid, Msrs, rdmsr, wrmsr}
use almeida_os.Cpu.Msr.{bit_or-disjoint, bit_or-above, rdmsr-wrmsr, rdmsr-lt}
use almeida_os.Syscall.{
  msr_ia32_efer, msr_ia32_star, msr_ia32_lstar, msr_ia32_fmask, syscall_mask,
  is_syscall_inst_supported, star_of, syscall_init,
}

star_value : (star : ℕ) → star_of star ≡ star % 2 ^ 32 + 8 * 2 ^ 32 + 16 * 2 ^ 48
unfolding star_of
star_value star =
    let low : bit_and star 4294967295 ≡ star % 2 ^ 32 = bit_and-ones 32 star in
    let user : bit_or (star % 2 ^ 32) (16 * 2 ^ 48) ≡ star % 2 ^ 32 + 16 * 2 ^ 48 =
      bit_or-disjoint 48 (star % 2 ^ 32) 16 (omega arith) in
    let same : star % 2 ^ 32 + 16 * 2 ^ 48 ≡ star % 2 ^ 32 + 1048576 * 2 ^ 32 = omega arith in
    let sum : bit_or (star % 2 ^ 32 + 1048576 * 2 ^ 32) (8 * 2 ^ 32)
        ≡ star % 2 ^ 32 + 1048584 * 2 ^ 32 =
      bit_or-above 32 (star % 2 ^ 32) 8 1048576 (omega arith) in
    let total : star % 2 ^ 32 + 1048584 * 2 ^ 32 ≡ star % 2 ^ 32 + 8 * 2 ^ 32 + 16 * 2 ^ 48 =
      omega arith in
    rw (star_of, low, user) (ap (λ t. bit_or t (8 * 2 ^ 32)) same ∙ sum ∙ total)

-- The selectors that the instructions take from IA32_STAR, before the level of privilege is added:
-- code and stack of the kernel, then of a program.
pub record Selects (star : ℕ) : Type 0 where
  pub kernel_code : extract_bit_chunk 32 47 star ≡ 8
  pub kernel_stack : extract_bit_chunk 32 47 star + 8 ≡ 16
  pub program_code : extract_bit_chunk 48 63 star + 16 ≡ 32
  pub program_stack : extract_bit_chunk 48 63 star + 8 ≡ 24

selects : (star : ℕ) → Selects (star_of star)
selects star =
    let kernel = extract_bit_chunk_lem 32 47 (star_of star) (omega arith) (omega arith) in
    let user = extract_bit_chunk_lem 48 63 (star_of star) (omega arith) (omega arith) in
    let v = star_value star in
    record {
      kernel_code = omega (arith, kernel, v);
      kernel_stack = omega (arith, kernel, v);
      program_code = omega (arith, user, v);
      program_stack = omega (arith, user, v);
    }

-- What the set-up leaves in the registers.
pub record SetUp (entry : ℕ) (m m' : Msrs) : Type 0 where
  pub star : Selects (rdmsr msr_ia32_star m')
  pub low : rdmsr msr_ia32_star m' % 2 ^ 32 ≡ rdmsr msr_ia32_star m % 2 ^ 32
  pub target : rdmsr msr_ia32_lstar m' ≡ entry
  pub enabled :
      (i : ℕ) → test_bit i (rdmsr msr_ia32_efer m') ≡ (i == 0) || test_bit i (rdmsr msr_ia32_efer m)
  pub mask : rdmsr msr_ia32_fmask m' ≡ 2 ^ 9 + 2 ^ 10
  pub others :
      (a : ℕ)
      → a ≢ msr_ia32_star
      → a ≢ msr_ia32_lstar
      → a ≢ msr_ia32_efer
      → a ≢ msr_ia32_fmask
      → rdmsr a m' ≡ rdmsr a m

-- the registers after the four writes
abbrev configured : ℕ → ℕ → ℕ → Msrs → Msrs
configured star entry efer m =
    wrmsr msr_ia32_fmask syscall_mask
      (wrmsr msr_ia32_efer efer (wrmsr msr_ia32_lstar entry (wrmsr msr_ia32_star star m)))

read_configured :
    (a star entry efer : ℕ) (m : Msrs)
    → star < 2 ^ 64
    → entry < 2 ^ 64
    → efer < 2 ^ 64
    → rdmsr a (configured star entry efer m) ≡ (
        if a == msr_ia32_fmask
        then syscall_mask
        else if a == msr_ia32_efer
        then efer
        else if a == msr_ia32_lstar
        then entry
        else if a == msr_ia32_star
        then star
        else rdmsr a m)
read_configured a star entry efer m x y z =
    let m1 : Msrs = wrmsr msr_ia32_star star m in
    let m2 : Msrs = wrmsr msr_ia32_lstar entry m1 in
    let m3 : Msrs = wrmsr msr_ia32_efer efer m2 in
    rw
      (
        rdmsr-wrmsr a msr_ia32_fmask syscall_mask m3 (omega arith),
        rdmsr-wrmsr a msr_ia32_efer efer m2 z,
        rdmsr-wrmsr a msr_ia32_lstar entry m1 y,
        rdmsr-wrmsr a msr_ia32_star star m x,
      )
      refl

set_bit_zero-lt : (f : ℕ) → f < 2 ^ 64 → set_bit 0 f < 2 ^ 64
unfolding set_bit
set_bit_zero-lt f h = bit_or-lt 64 f 1 h (omega arith)

configured-SetUp :
    (entry : ℕ) (m : Msrs)
    → entry < 2 ^ 64
    → rdmsr msr_ia32_efer m < 2 ^ 64
    → SetUp entry m
        (configured (star_of (rdmsr msr_ia32_star m)) entry (set_bit 0 (rdmsr msr_ia32_efer m)) m)
configured-SetUp entry m h bound =
    let s : ℕ = rdmsr msr_ia32_star m in
    let f : ℕ = set_bit 0 (rdmsr msr_ia32_efer m) in
    let v = star_value s in
    let read : (a : ℕ) → _ = λ a.
      read_configured a (star_of s) entry f m (omega (arith, v)) h
        (set_bit_zero-lt (rdmsr msr_ia32_efer m) bound) in
    record {
      star = rw (read msr_ia32_star) (selects s);
      low = rw (read msr_ia32_star, v) (omega arith);
      target = read msr_ia32_lstar;
      enabled =
          λ i. rw (read msr_ia32_efer) (test_bit-set_bit i 0 (rdmsr msr_ia32_efer m) (omega arith));
      mask = read msr_ia32_fmask;
      others = λ a n1 n2 n3 n4.
          let e1 : (a == msr_ia32_star) ≡ false = ground arith in
          let e2 : (a == msr_ia32_lstar) ≡ false = ground arith in
          let e3 : (a == msr_ia32_efer) ≡ false = ground arith in
          let e4 : (a == msr_ia32_fmask) ≡ false = ground arith in
          read a ∙ rw (e4, e3, e2, e1) refl;
    }

-- `syscall_init` halts on a processor without the instructions. On another one, with registers of 64
-- bits, SYSCALL enters the kernel at the entry with the kernel's selectors and SYSRET leaves it with
-- those of a program, the instructions are enabled, interrupts and the direction flag are masked, and
-- nothing else in the registers changes.
pub syscall_init_lem :
    (cpuid : Cpuid) (entry : ℕ) (m : Msrs)
    → entry < 2 ^ 64
    → (m msr_ia32_efer).0 < 2 ^ 32
    → (m msr_ia32_efer).1 < 2 ^ 32
    → ((is_syscall_inst_supported cpuid ≡ false) × (syscall_init cpuid entry m ≡ bug))
      ⊎ ((is_syscall_inst_supported cpuid ≡ true)
          × (m' : Msrs) × (syscall_init cpuid entry m ≡ ok m')
          × SetUp entry m m')
unfolding syscall_init
syscall_init_lem cpuid entry m h high low = elim (Bool-cases (is_syscall_inst_supported cpuid)) [
  | inr e ↦ inl (e, rw (syscall_init, e) refl)
  | inl e ↦
      let m1 : Msrs = wrmsr msr_ia32_star (star_of (rdmsr msr_ia32_star m)) m in
      let efer : rdmsr msr_ia32_efer (wrmsr msr_ia32_lstar entry m1) ≡ rdmsr msr_ia32_efer m =
        rdmsr-wrmsr msr_ia32_efer msr_ia32_lstar entry m1 h
        ∙ rdmsr-wrmsr msr_ia32_efer msr_ia32_star (star_of (rdmsr msr_ia32_star m)) m
            (omega (arith, star_value (rdmsr msr_ia32_star m))) in
      inr (
        e,
        configured (star_of (rdmsr msr_ia32_star m)) entry (set_bit 0 (rdmsr msr_ia32_efer m)) m,
        rw (syscall_init, e, efer) refl,
        configured-SetUp entry m h (rdmsr-lt msr_ia32_efer m high low),
      )
]
