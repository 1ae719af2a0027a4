-- ===== src/Text.antt =====
-- src/kernel/lib/string.c, src/kernel/lib/ctype.c and src/kernel/lib/vsnprintf.c. A character is its
-- code, and a string the list of its characters without the NUL at its end.
pub mod Digits
pub mod Reverse
pub mod Spec
pub mod Format
use almeida_os.Base.{
  ℕ, zero, suc, ◌+◌, ◌-◌, ◌*◌, ◌/◌, ◌%◌, ◌^◌, ◌≤◌, ◌<◌, min, max, ◌≡◌, refl, sym, ap, ap₂, ◌∙◌,
  subst, fun_ext, ◌≢◌, ◌↔◌, ◌⊎◌, inl, inr, Bool, true, false, ◌&&◌, ◌||◌, not, Option, none, some,
  List, [], ◌∷◌, ◌++◌, map, arith, ltb, leb, ◌==◌, if◌then◌else◌, ltb→lt, lt→ltb, ltb→le, le→ltb,
  ==→eq, eq→==, tests, Bool-cases, Option-cases, length, get_or, set, length-set, get_or-set_self,
  get_or-set_ne, length-append, Run, ok, bug, running, ◌>>=◌, ◌>>◌, bug_on,
}

abbrev pub Chars : Type 0
Chars = List ℕ

-- the loop over an array until its NUL
unfoldable pub strlen_loop : ℕ → (ℕ → ℕ) → ℕ → Run ℕ
strlen_loop zero buf len = running
strlen_loop (suc fuel) buf len = elim (buf len == 0) [
  | true ↦ ok len
  | false ↦ strlen_loop fuel buf (suc len)
]

unfoldable pub strlen : ℕ → (ℕ → ℕ) → Run ℕ
strlen fuel buf = strlen_loop fuel buf 0

-- the swaps of `strrev`, with `rounds` left
unfoldable pub strrev_loop : ℕ → ℕ → ℕ → Chars → Chars
strrev_loop zero start end str = str
strrev_loop (suc rounds) start end str =
    strrev_loop rounds (suc start) (end - 1)
      (set (set str start (get_or str end 0)) end (get_or str start 0))

unfoldable pub strrev : Chars → ℕ → Chars
strrev str length = if ltb length 2 then str else strrev_loop (length / 2) 0 (length - 1) str

-- `isdigit`: the subtraction is unsigned, and a character is below 128 here
unfoldable pub isdigit : ℕ → Bool
isdigit c = leb 48 c && ltb c 58
