-- ===== src/Libc.antt =====
-- src/libc and src/user: the library of a program and the program that the kernel starts. A system call
-- is the handler of the kernel on the registers that the library fills.
pub mod Same
pub mod Number
pub mod Message
use almeida_os.Base.{
  ℕ, zero, suc, ◌+◌, ◌-◌, ◌*◌, ◌/◌, ◌%◌, ◌^◌, ◌≤◌, ◌<◌, min, max, ◌≡◌, refl, sym, ap, ap₂, ◌∙◌,
  subst, fun_ext, ◌≢◌, ◌↔◌, ◌⊎◌, inl, inr, Bool, true, false, ◌&&◌, ◌||◌, not, Option, none, some,
  List, [], ◌∷◌, ◌++◌, map, arith, ltb, leb, ◌==◌, if◌then◌else◌, ltb→lt, lt→ltb, ltb→le, le→ltb,
  ==→eq, eq→==, tests, Bool-cases, Option-cases, length, get_or, set, length-set, get_or-set_self,
  get_or-set_ne, length-append, Run, ok, bug, running, ◌>>=◌, ◌>>◌, bug_on,
}
use Prim.Native.Nat.{bit_and, bit_xor}
use almeida_os.Word.{u32, u64, add64}
use almeida_os.Task.Process.{Registers}
use almeida_os.Text.{Chars}
use almeida_os.Text.Format.{Arg}
use almeida_os.Syscall.{System, syscall_handler, nr_write, nr_getpid, nr_time}

-- `abs` on the pattern of an `int`, and that of its result as a `long`
unfoldable pub abs : ℕ → ℕ
abs value =
    let mask : ℕ = if ltb value (2 ^ 31) then 0 else 2 ^ 32 - 1 in bit_xor (u32 (value + mask)) mask

unfoldable pub long_of_int : ℕ → ℕ
long_of_int w = if ltb w (2 ^ 31) then w else w + (2 ^ 64 - 2 ^ 32)

-- the swaps of `strrev`, with `rounds` left
unfoldable pub strrev_loop : ℕ → ℕ → ℕ → Chars → Chars
strrev_loop zero start end str = str
strrev_loop (suc rounds) start end str =
    strrev_loop rounds (suc start) (end - 1)
      (set (set str start (get_or str end 0)) end (get_or str start 0))

unfoldable pub strrev : Chars → ℕ → Chars
strrev str length = if ltb length 2 then str else strrev_loop (length / 2) 0 (length - 1) str

unfoldable pub strlen_loop : ℕ → (ℕ → ℕ) → ℕ → Run ℕ
strlen_loop zero buf len = running
strlen_loop (suc fuel) buf len = elim (buf len == 0) [
  | true ↦ ok len
  | false ↦ strlen_loop fuel buf (suc len)
]

unfoldable pub strlen : ℕ → (ℕ → ℕ) → Run ℕ
strlen fuel buf = strlen_loop fuel buf 0

-- the loop of `ltoa` from a size; from a negative number its remainders go below '0'
unfoldable pub ltoa_loop : ℕ → Bool → ℕ → ℕ → Run Chars
ltoa_loop zero negative size radix = running
ltoa_loop (suc fuel) negative size radix =
    let rem : ℕ = size % radix in
    let char : ℕ = if negative then 48 - rem else if ltb 9 rem then rem - 10 + 97 else rem + 48 in
    elim (size == 0) [
      | true ↦ ok []
      | false ↦ ltoa_loop fuel negative (size / radix) radix >>= λ rest. ok (char ∷ rest)
    ]

-- The value is a pattern of 64 bits.
unfoldable pub from_long : ℕ → ℕ → Run Chars
from_long value radix =
    if ltb value (2 ^ 63)
    then ltoa_loop 65 false value radix
    else ltoa_loop 65 true (2 ^ 64 - value) radix

unfoldable pub ltoa : ℕ → ℕ → Run Chars
ltoa value radix = elim (radix == 8 || radix == 10 || radix == 16) [
  | false ↦ ok []
  | true ↦ elim (value == 0) [
    | true ↦ ok (48 ∷ [])
    | false ↦ elim (leb (2 ^ 63) value && radix == 10) [
      | true ↦ do
        str ← from_long (long_of_int (abs (u32 value))) radix
        ok (strrev (str ++ 45 ∷ []) (length str + 1))
      | false ↦ do str ← from_long value radix; ok (strrev str (length str))
    ]
  ]
]

-- RAND_MOD is RAND_MAX + 1 without parentheses.
unfoldable pub srand : ℕ → ℕ
srand s = u32 (s + (2 ^ 32 - 1))

unfoldable pub rand : ℕ → ℕ × ℕ
rand rand_seed =
    let seed : ℕ = u64 (1103515245 * rand_seed + 12345) % 2147483647 + 1 in
    (seed, bit_and (seed / 2 ^ 16) 16383)

unfoldable pub rand_r : ℕ → ℕ
rand_r seed = bit_and ((u32 (1103515245 * seed + 12345) % 2147483647 + 1) / 2 ^ 16) 16383

-- the registers at the instruction: a call with two arguments
unfoldable pub call_registers : ℕ → ℕ → ℕ → Registers
call_registers nr_number rdi rsi = record {
  r15 = 0;
  r14 = 0;
  r13 = 0;
  r12 = 0;
  r11 = 0;
  r10 = 0;
  r9 = 0;
  r8 = 0;
  rsi = rsi;
  rdi = rdi;
  rbp = 0;
  rdx = 0;
  rcx = 0;
  rbx = 0;
  rax = nr_number;
}

-- What the program sees, what a block held and how far it is read, as the kernel has it.
unfoldable pub syscall : (ℕ → ℕ) → (ℕ → ℕ) → ℕ → ℕ → ℕ → ℕ → System → Run (ℕ × System)
syscall user block reach nr_number arg1 arg2 s =
    syscall_handler user block reach [] (call_registers nr_number arg1 arg2) s

unfoldable pub write : (ℕ → ℕ) → (ℕ → ℕ) → ℕ → ℕ → ℕ → System → Run (ℕ × System)
write user block reach string length s = syscall user block reach nr_write string length s

unfoldable pub getpid : (ℕ → ℕ) → (ℕ → ℕ) → ℕ → System → Run (ℕ × System)
getpid user block reach s = syscall user block reach nr_getpid 0 0 s

unfoldable pub time : (ℕ → ℕ) → (ℕ → ℕ) → ℕ → System → Run (ℕ × System)
time user block reach s = syscall user block reach nr_time 0 0 s

-- "process " and " unix time: "
abbrev pub process_word : Chars
process_word = 112 ∷ 114 ∷ 111 ∷ 99 ∷ 101 ∷ 115 ∷ 115 ∷ 32 ∷ []

abbrev pub time_words : Chars
time_words = 32 ∷ 117 ∷ 110 ∷ 105 ∷ 120 ∷ 32 ∷ 116 ∷ 105 ∷ 109 ∷ 101 ∷ 58 ∷ 32 ∷ []

-- The buffer at an address, of 100 bytes of which all after the text are cleared.
unfoldable pub with_text : ℕ → Chars → (ℕ → ℕ) → ℕ → ℕ
with_text msg text user a =
    if leb msg a && ltb a (msg + 100) then get_or text (a - msg) 0 else user a

-- One message of `umain`, from the buffer `msg`.
unfoldable pub umain_message : (ℕ → ℕ) → (ℕ → ℕ) → ℕ → ℕ → System → Run (Chars × System)
umain_message user block reach msg s = do
  (curr_pid, s1) ← getpid user block reach s
  pid ← ltoa curr_pid 10
  (now, s2) ← time user block reach s1
  seconds ← ltoa now 10
  let text : Chars = process_word ++ (pid ++ (time_words ++ seconds))
  (n, s3) ← write (with_text msg text user) block reach msg (length text + 1) s2
  ok (text, s3)
