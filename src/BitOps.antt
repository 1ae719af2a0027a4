-- ===== src/BitOps.antt =====
-- include/kernel/lib/bit.h: one bit, or a run of bits, of a 64-bit field.
pub mod Laws
use Prim.Native.Nat.{bit_and, bit_or}
use almeida_os.Base.{ℕ, ◌+◌, ◌-◌, ◌^◌, Bool, not, ◌==◌}
use almeida_os.Word.{shl64, shr, not64}

unfoldable pub test_bit : ℕ → ℕ → Bool
test_bit bit_number field = not (bit_and (shr field bit_number) 1 == 0)

unfoldable pub extract_bit_chunk : ℕ → ℕ → ℕ → ℕ
extract_bit_chunk bit_from bit_to field =
    bit_and (shr field bit_from) (shr (2 ^ 64 - 1) (64 - (bit_to - bit_from + 1)))

unfoldable pub set_bit : ℕ → ℕ → ℕ
set_bit bit_number field = bit_or field (shl64 1 bit_number)

unfoldable pub clear_bit : ℕ → ℕ → ℕ
clear_bit bit_number field = bit_and field (not64 (shl64 1 bit_number))
