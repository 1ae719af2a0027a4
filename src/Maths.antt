-- ===== src/Maths.antt =====
-- src/kernel/lib/math/*.c: logarithm, powers, rounding, absolute value and pseudo-random numbers.
pub mod Power
pub mod Log
pub mod Smear
pub mod Rounding
use Prim.Native.Nat.{bit_and, bit_or, bit_xor}
use almeida_os.Base.{ℕ, zero, suc, ◌+◌, ◌-◌, ◌*◌, ◌/◌, ◌%◌, ◌^◌, ◌==◌, ltb, if◌then◌else◌, Bool}
use almeida_os.Word.{u32, u64, add64, sub64, mul64, shr, not64}
use almeida_os.BitOps.{extract_bit_chunk}

-- What `ilog2` carries: the logarithm `p` so far and the value `v` still to measure.
pub record LogState : Type 0 where
  pub p : ℕ
  pub v : ℕ

-- the macro ROUND(v, p, w)
unfoldable pub round : ℕ → LogState → LogState
round w s =
    if bit_and s.v ((2 ^ w - 1) * 2 ^ w) == 0 then s else record { p = s.p + w; v = shr s.v w }

unfoldable pub ilog2_start : ℕ → LogState
ilog2_start vv =
    if u32 (shr vv 32) == 0
    then record { p = 0; v = u32 vv }
    else record { p = 32; v = u32 (shr vv 32) }

unfoldable pub ilog2 : ℕ → ℕ
ilog2 vv = (round 1 (round 2 (round 4 (round 8 (round 16 (ilog2_start vv)))))).p

-- `while (true)` of `upow`; the fuel counts the digits of `exp` that may be left.
unfoldable pub upow_loop : ℕ → ℕ → ℕ → ℕ → ℕ
upow_loop zero exp p y = y
upow_loop (suc fuel) exp p y =
    let y' : ℕ = if bit_and exp 1 == 0 then y else mul64 p y in
    let exp' : ℕ = shr exp 1 in
    let rest : ℕ = upow_loop fuel exp' (mul64 p p) y' in if exp' == 0 then y' else rest

unfoldable pub upow : ℕ → ℕ → ℕ
unfolding upow_loop
upow base exp = upow_loop 64 exp base 1

-- `value |= (value >> k)`
unfoldable pub smear : ℕ → ℕ → ℕ
smear k value = bit_or value (shr value k)

unfoldable pub smear_all : ℕ → ℕ
smear_all value = smear 32 (smear 16 (smear 8 (smear 4 (smear 2 (smear 1 value)))))

unfoldable pub flp2 : ℕ → ℕ
flp2 value = let v : ℕ = smear_all value in sub64 v (shr v 1)

unfoldable pub clp2 : ℕ → ℕ
clp2 value = add64 (smear_all (sub64 value 1)) 1

-- `-power_of_2` is its two's complement.
unfoldable pub round_up_po2 : ℕ → ℕ → ℕ
round_up_po2 value power_of_2 = bit_and (sub64 (add64 value power_of_2) 1) (sub64 0 power_of_2)

-- `RAND_MOD` is the unparenthesised `RAND_MAX + 1`, so `% RAND_MOD` adds 1 to a remainder.
unfoldable pub rand_next : ℕ → ℕ
rand_next seed = u32 (u32 (1103515245 * seed + 12345) % 0x7fffffff + 1)

unfoldable pub rand_init_seed : ℕ → ℕ
rand_init_seed new_seed = if ltb new_seed 1 then 1 else new_seed

-- The seed that `rand` leaves, and its result.
unfoldable pub rand : ℕ → ℕ × ℕ
unfolding rand_next extract_bit_chunk
rand rand_seed = let s : ℕ = rand_next rand_seed in (s, extract_bit_chunk 16 30 s)

unfoldable pub rand_r : ℕ → ℕ
unfolding rand_next extract_bit_chunk
rand_r seed = extract_bit_chunk 16 30 (rand_next seed)

-- `abs` on the bit pattern of an `int`; `value >> 31` copies the sign.
unfoldable pub abs : ℕ → ℕ
abs value =
    let mask : ℕ = if ltb value (2 ^ 31) then 0 else 2 ^ 32 - 1 in bit_xor (u32 (value + mask)) mask
