-- ===== src/Word.antt =====
-- Unsigned machine arithmetic, with its wrap-around written out, and the bitwise operators.
pub mod Bits
use Prim.Native.Nat.{bit_and, bit_or, bit_xor}
use almeida_os.Base.{ℕ, ◌+◌, ◌-◌, ◌*◌, ◌/◌, ◌%◌, ◌^◌}

abbrev pub u64 : ℕ → ℕ
u64 x = x % 2 ^ 64

abbrev pub u32 : ℕ → ℕ
u32 x = x % 2 ^ 32

abbrev pub u16 : ℕ → ℕ
u16 x = x % 2 ^ 16

abbrev pub u8 : ℕ → ℕ
u8 x = x % 2 ^ 8

abbrev pub add64 : ℕ → ℕ → ℕ
add64 a b = (a + b) % 2 ^ 64

-- The operands are words, so that `a + 2 ^ 64` is above `b`.
abbrev pub sub64 : ℕ → ℕ → ℕ
sub64 a b = (a + 2 ^ 64 - b) % 2 ^ 64

abbrev pub mul64 : ℕ → ℕ → ℕ
mul64 a b = a * b % 2 ^ 64

-- `a << k` and `a >> k`
abbrev pub shl64 : ℕ → ℕ → ℕ
shl64 a k = a * 2 ^ k % 2 ^ 64

abbrev pub shr : ℕ → ℕ → ℕ
shr a k = a / 2 ^ k

-- `~a` on 64 bits
abbrev pub not64 : ℕ → ℕ
not64 a = 2 ^ 64 - 1 - a
