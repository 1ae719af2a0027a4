-- ===== src/BitOps/Laws.antt =====
-- What the operations of bit.h do to each bit of the field.
use Prim.Native.Nat.{bit_and, bit_or}
use almeida_os.Base.{
  ℕ, ◌+◌, ◌-◌, ◌/◌, ◌%◌, ◌^◌, ◌≤◌, ◌<◌, ◌≡◌, refl, ap, ◌∙◌, not, ◌&&◌, ◌||◌, ◌==◌, arith,
}
use almeida_os.Word.{shl64, shr, not64}
use almeida_os.Word.Bits.{
  digit, digit-shr, digit-lt, digit-bit_and, digit-bit_or, digit-complement, bit_and-ones,
  digit_pow, two-pow-lt, ones-shr,
}
use almeida_os.BitOps.{test_bit, set_bit, clear_bit, extract_bit_chunk}

pub test_bit-digit : (i f : ℕ) → test_bit i f ≡ (digit i f == 1)
unfolding test_bit
test_bit-digit i f =
    let lowest : bit_and (shr f i) 1 ≡ digit 0 (f / 2 ^ i) =
      bit_and-ones 1 (f / 2 ^ i) ∙ unfold digit in refl in
    let z : 0 + i ≡ i = omega arith in
    rw (lowest, digit-shr i 0 f, z) (ground (arith, digit-lt i f))

shl64_one : (n : ℕ) → n < 64 → shl64 1 n ≡ 2 ^ n
shl64_one n h = omega (arith, two-pow-lt n 64 h)

-- `set_bit` sets that bit and keeps every other.
pub test_bit-set_bit : (m n f : ℕ) → n < 64 → test_bit m (set_bit n f) ≡ (m == n) || test_bit m f
unfolding set_bit
test_bit-set_bit m n f h =
    rw (test_bit-digit m (bit_or f (shl64 1 n)), test_bit-digit m f, shl64_one n h)
      (ground (arith, digit-bit_or m f (2 ^ n), digit_pow m n, digit-lt m f))

-- `clear_bit` clears that bit and keeps every other of the 64.
pub test_bit-clear_bit :
    (m n f : ℕ) → m < 64 → n < 64 → test_bit m (clear_bit n f) ≡ not (m == n) && test_bit m f
unfolding clear_bit
test_bit-clear_bit m n f p q =
    rw (test_bit-digit m (bit_and f (not64 (shl64 1 n))), test_bit-digit m f, shl64_one n q)
      (ground (
        arith,
        digit-bit_and m f (not64 (2 ^ n)),
        digit-complement 64 m (2 ^ n) p (two-pow-lt n 64 q),
        digit_pow m n,
        digit-lt m f,
      ))

-- A chunk is the field shifted down and reduced to the chunk's width.
pub extract_bit_chunk_lem :
    (from to f : ℕ)
    → from ≤ to
    → to < 64
    → extract_bit_chunk from to f ≡ f / 2 ^ from % 2 ^ (to - from + 1)
unfolding extract_bit_chunk
extract_bit_chunk_lem from to f p q =
    let w : ℕ = to - from + 1 in
    let total : 64 ≡ 64 - w + w = omega arith in
    let mask : (2 ^ 64 - 1) / 2 ^ (64 - w) ≡ 2 ^ w - 1 =
      ap (λ t. (2 ^ t - 1) / 2 ^ (64 - w)) total ∙ ones-shr (64 - w) w in
    ap (bit_and (shr f from)) mask ∙ bit_and-ones w (f / 2 ^ from)
