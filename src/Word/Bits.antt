-- ===== src/Word/Bits.antt =====
-- The binary digits of a number, and what the bitwise operators and shifts do to each.
use Prim.Native.Nat.{digits, bit_and, bit_or, bit_and-bitwise, bit_or-bitwise}
use native.Mathlib.Nat.{
  pow-succ', one-le-pow, div-div-eq-div-mul, zero-add, suc-add, mod-lt, mod-eq_of_lt, div-add-mod',
  add-mul-mod_self_right, pow-le-pow_right,
}
use almeida_os.Base.{
  ℕ, zero, suc, ◌+◌, ◌-◌, ◌*◌, ◌/◌, ◌%◌, ◌^◌, ◌≤◌, ◌<◌, min, max, ◌≡◌, ◌≢◌, refl, sym, ap, ◌∙◌,
  true, false, ◌==◌, if◌then◌else◌, Bool-cases, inl, inr, ==→eq, eq→==, arith,
}

-- Digit `i` of `x`, the lowest being digit 0.
unfoldable pub digit : ℕ → ℕ → ℕ
digit zero x = x % 2
digit (suc i) x = digit i (x / 2)

-- A count of digits that covers `a` is as good as any other.
module _ (z : ℕ → ℕ) (f : ℕ → ℕ → ℕ) where
  digits_count : (m n a b : ℕ) → a ≤ m → a ≤ n → digits z f m a b ≡ digits z f n a b
  digits_count zero zero a b p q = refl
  digits_count (suc m) zero zero b p q = refl
  digits_count (suc m) zero (suc a) b p q = absurd (omega arith)
  digits_count zero (suc n) zero b p q = refl
  digits_count zero (suc n) (suc a) b p q = absurd (omega arith)
  digits_count (suc m) (suc n) zero b p q = refl
  digits_count (suc m) (suc n) (suc a) b p q =
      ap (λ t. t * 2 + f (suc a % 2) (b % 2))
        (digits_count m n (suc a / 2) (b / 2) (omega arith) (omega arith))

  pub digits-next :
      (a b : ℕ)
      → digits z f (suc a) (suc a) b
        ≡ digits z f (suc a / 2) (suc a / 2) (b / 2) * 2 + f (suc a % 2) (b % 2)
  digits-next a b =
      ap (λ t. t * 2 + f (suc a % 2) (b % 2))
        (digits_count a (suc a / 2) (suc a / 2) (b / 2) (omega arith) (omega arith))

pub bit_and_next : (a b : ℕ) → bit_and a b ≡ bit_and (a / 2) (b / 2) * 2 + min (a % 2) (b % 2)
bit_and_next zero b = omega (arith, bit_and-bitwise 0 b, bit_and-bitwise 0 (b / 2))
bit_and_next (suc a) b =
    bit_and-bitwise (suc a) b
    ∙ digits-next (λ t. 0) min a b
    ∙ ap (λ t. t * 2 + min (suc a % 2) (b % 2)) (sym (bit_and-bitwise (suc a / 2) (b / 2)))

pub bit_or_next : (a b : ℕ) → bit_or a b ≡ bit_or (a / 2) (b / 2) * 2 + max (a % 2) (b % 2)
bit_or_next zero b = omega (arith, bit_or-bitwise 0 b, bit_or-bitwise 0 (b / 2))
bit_or_next (suc a) b =
    bit_or-bitwise (suc a) b
    ∙ digits-next (λ t. t) max a b
    ∙ ap (λ t. t * 2 + max (suc a % 2) (b % 2)) (sym (bit_or-bitwise (suc a / 2) (b / 2)))

pub digit-bit_and : (i a b : ℕ) → digit i (bit_and a b) ≡ min (digit i a) (digit i b)
unfolding digit
digit-bit_and zero a b = omega (arith, bit_and_next a b)
digit-bit_and (suc i) a b = ap (digit i) half ∙ digit-bit_and i (a / 2) (b / 2)
  where
    half : bit_and a b / 2 ≡ bit_and (a / 2) (b / 2)
    half = omega (arith, bit_and_next a b)

pub digit-bit_or : (i a b : ℕ) → digit i (bit_or a b) ≡ max (digit i a) (digit i b)
unfolding digit
digit-bit_or zero a b = omega (arith, bit_or_next a b)
digit-bit_or (suc i) a b = ap (digit i) half ∙ digit-bit_or i (a / 2) (b / 2)
  where
    half : bit_or a b / 2 ≡ bit_or (a / 2) (b / 2)
    half = omega (arith, bit_or_next a b)

pub digit-lt : (i a : ℕ) → digit i a < 2
unfolding digit
digit-lt zero a = omega arith
digit-lt (suc i) a = digit-lt i (a / 2)

pub two-pow_suc : (n : ℕ) → 2 ^ suc n ≡ 2 * 2 ^ n
two-pow_suc n = pow-succ' 2 n

pub two-pow_add : (m n : ℕ) → 2 ^ (m + n) ≡ 2 ^ m * 2 ^ n
two-pow_add zero n = simp zero-add (omega arith)
two-pow_add (suc m) n = simp (suc-add, two-pow_suc, two-pow_add m n) (omega arith)

pub two-pow_pos : (n : ℕ) → 0 < 2 ^ n
two-pow_pos n = one-le-pow n 2 (omega arith)

pub half-shr : (k a : ℕ) → a / 2 ^ suc k ≡ a / 2 / 2 ^ k
half-shr k a = rw (two-pow_suc k) (sym (div-div-eq-div-mul a 2 (2 ^ k)))

-- A right shift moves the digits down.
pub digit-shr : (k i a : ℕ) → digit i (a / 2 ^ k) ≡ digit (i + k) a
unfolding digit
digit-shr zero i a =
    let p : a / 2 ^ 0 ≡ a = omega arith in let q : i + 0 ≡ i = omega arith in rw (p, q)
digit-shr (suc k) i a =
    let q : i + suc k ≡ suc (i + k) = omega arith in rw (half-shr k a, q) (digit-shr k i (a / 2))

-- A number all of whose low digits are 1.
pub digits_all_one : (k a : ℕ) → a < 2 ^ k → ((i : ℕ) → i < k → digit i a ≡ 1) → a + 1 ≡ 2 ^ k
unfolding digit
digits_all_one zero a h d = omega arith
digits_all_one (suc k) a h d = omega (
  arith,
  two-pow_suc k,
  d 0 (omega arith),
  digits_all_one k (a / 2) (omega (arith, two-pow_suc k)) (λ i p. d (suc i) (omega arith)),
)

-- The digits determine the number.
pub digit_ext : (k a b : ℕ) → a < 2 ^ k → b < 2 ^ k → ((i : ℕ) → digit i a ≡ digit i b) → a ≡ b
unfolding digit
digit_ext zero a b p q d = omega arith
digit_ext (suc k) a b p q d = omega (
  arith,
  d 0,
  digit_ext k (a / 2) (b / 2) (omega (arith, two-pow_suc k)) (omega (arith, two-pow_suc k))
      (λ i. d (suc i)),
)

pub bit_or-lt : (k a b : ℕ) → a < 2 ^ k → b < 2 ^ k → bit_or a b < 2 ^ k
bit_or-lt zero a b p q = let e : a ≡ 0 = omega arith in rw e (omega (arith, bit_or-bitwise 0 b))
bit_or-lt (suc k) a b p q = omega (
  arith,
  two-pow_suc k,
  bit_or_next a b,
  bit_or-lt k (a / 2) (b / 2) (omega (arith, two-pow_suc k)) (omega (arith, two-pow_suc k)),
)

pub digit_big : (i a : ℕ) → a < 2 ^ i → digit i a ≡ 0
unfolding digit
digit_big zero a h = omega arith
digit_big (suc i) a h = digit_big i (a / 2) (omega (arith, two-pow_suc i))

-- Of a number with `k + 1` digits the top one is 1.
pub digit_top : (k a : ℕ) → 2 ^ k ≤ a → a < 2 ^ suc k → digit k a ≡ 1
unfolding digit
digit_top zero a p q = omega arith
digit_top (suc k) a p q =
    digit_top k (a / 2) (omega (arith, two-pow_suc k)) (omega (arith, two-pow_suc (suc k)))

bit_and-zero_below : (n a : ℕ) → a ≤ n → bit_and a 0 ≡ 0
bit_and-zero_below zero a h = let e : a ≡ 0 = omega arith in rw e
bit_and-zero_below (suc n) zero h = refl
bit_and-zero_below (suc n) (suc a) h =
    omega (arith, bit_and_next (suc a) 0, bit_and-zero_below n (suc a / 2) (omega arith))

pub bit_and-zero : (a : ℕ) → bit_and a 0 ≡ 0
bit_and-zero a = bit_and-zero_below a a (omega arith)

mod_double : (p a : ℕ) → 0 < p → a % (2 * p) ≡ a / 2 % p * 2 + a % 2
mod_double p a h =
    let e : a ≡ a / 2 % p * 2 + a % 2 + a / 2 / p * (2 * p) =
      omega (arith, ap (λ t. t * 2) (div-add-mod' (a / 2) p)) in
    (ap (λ t. t % (2 * p)) e ∙ add-mul-mod_self_right _ (a / 2 / p) (2 * p))
    ∙ mod-eq_of_lt (omega (arith, mod-lt (a / 2) h))

-- A mask of ones keeps the low digits.
pub bit_and-ones : (k a : ℕ) → bit_and a (2 ^ k - 1) ≡ a % 2 ^ k
bit_and-ones zero a = omega (arith, bit_and-zero a)
bit_and-ones (suc k) a =
    let half : (2 ^ suc k - 1) / 2 ≡ 2 ^ k - 1 = omega (arith, two-pow_suc k, two-pow_pos k) in
    rw (bit_and_next a (2 ^ suc k - 1), half, bit_and-ones k (a / 2))
      (omega (
        arith,
        two-pow_suc k,
        two-pow_pos k,
        ap (λ t. a % t) (two-pow_suc k),
        mod_double (2 ^ k) a (two-pow_pos k),
      ))

-- A mask that ends in `k` zeros clears the low digits.
pub bit_and-shl : (k a m : ℕ) → bit_and a (m * 2 ^ k) ≡ bit_and (a / 2 ^ k) m * 2 ^ k
bit_and-shl zero a m =
    let p : a / 2 ^ 0 ≡ a = omega arith in
    let q : m * 2 ^ 0 ≡ m = omega arith in rw (p, q) (omega arith)
bit_and-shl (suc k) a m =
    let half : m * 2 ^ suc k / 2 ≡ m * 2 ^ k = omega (arith, ap (λ t. m * t) (two-pow_suc k)) in
    rw (bit_and_next a (m * 2 ^ suc k), half, bit_and-shl k (a / 2) m, half-shr k a)
      (omega (
        arith,
        ap (λ t. m * t) (two-pow_suc k),
        ap (λ t. bit_and (a / 2 / 2 ^ k) m * t) (two-pow_suc k),
      ))

pub digit-complement : (k i x : ℕ) → i < k → x < 2 ^ k → digit i (2 ^ k - 1 - x) ≡ 1 - digit i x
unfolding digit
digit-complement zero i x p q = absurd (omega arith)
digit-complement (suc k) zero x p q = omega (arith, two-pow_suc k)
digit-complement (suc k) (suc i) x p q =
    let half : (2 ^ suc k - 1 - x) / 2 ≡ 2 ^ k - 1 - x / 2 = omega (arith, two-pow_suc k) in
    rw half (digit-complement k i (x / 2) (omega arith) (omega (arith, two-pow_suc k)))

-- The digits of a power of two.
pub digit_pow_self : (n : ℕ) → digit n (2 ^ n) ≡ 1
digit_pow_self n = digit_top n (2 ^ n) (omega arith) (omega (arith, two-pow_suc n, two-pow_pos n))

pub digit_pow_ne : (i n : ℕ) → i ≢ n → digit i (2 ^ n) ≡ 0
unfolding digit
digit_pow_ne zero zero h = absurd (h refl)
digit_pow_ne zero (suc n) h = omega (arith, two-pow_suc n)
digit_pow_ne (suc i) zero h = digit_big i (2 ^ 0 / 2) (omega (arith, two-pow_pos i))
digit_pow_ne (suc i) (suc n) h =
    let half : 2 ^ suc n / 2 ≡ 2 ^ n = omega (arith, two-pow_suc n) in
    rw half (digit_pow_ne i n (λ e. h (ap suc e)))

pub digit_pow : (i n : ℕ) → digit i (2 ^ n) ≡ (if i == n then 1 else 0)
digit_pow i n = elim (Bool-cases (i == n)) [
  | inl e ↦ rw (e, ==→eq i n e) (digit_pow_self n)
  | inr e ↦ rw e (digit_pow_ne i n (λ d. absurd (false-ne-true (sym e ∙ eq→== i n d))))
]
  where
    false-ne-true : false ≡ true → ⊥
    false-ne-true h = cc

pub ones-shr : (m w : ℕ) → (2 ^ (m + w) - 1) / 2 ^ m ≡ 2 ^ w - 1
ones-shr zero w = let e : zero + w ≡ w = omega arith in rw e (omega arith)
ones-shr (suc m) w =
    let e : suc m + w ≡ suc (m + w) = omega arith in
    let half : (2 ^ suc (m + w) - 1) / 2 ≡ 2 ^ (m + w) - 1 = omega (arith, two-pow_suc (m + w)) in
    rw (e, half-shr m (2 ^ suc (m + w) - 1), half) (ones-shr m w)

pub two-pow-lt : (n k : ℕ) → n < k → 2 ^ n < 2 ^ k
two-pow-lt n (suc k) h = omega (
  arith,
  two-pow_suc k,
  two-pow_pos k,
  pow-le-pow_right {n = 2} (omega arith) {i = n} {j = k} (omega arith),
)
two-pow-lt n zero h = absurd (omega arith)
