-- ===== src/Maths/Power.antt =====
-- `upow` is the power, reduced to 64 bits.
use Prim.Native.Nat.{bit_and}
use native.Mathlib.Nat.{
  add-mul-mod_self_left, mod-add-div, mul_assoc, mul_comm, pow-succ', pow-suc, pow-zero,
}
use almeida_os.Base.{
  ℕ, zero, suc, ◌+◌, ◌*◌, ◌/◌, ◌%◌, ◌^◌, ◌<◌, ◌≡◌, sym, ap, ◌∙◌, ◌==◌, Bool-cases, inl, inr, arith,
}
use almeida_os.Word.{mul64, shr}
use almeida_os.Word.Bits.{bit_and-ones, two-pow_suc}
use almeida_os.Maths.{upow, upow_loop}

mod-mul-mod : (a b m : ℕ) → a % m * b % m ≡ a * b % m
mod-mul-mod a b m =
    let e : a * b ≡ a % m * b + m * (a / m * b) =
      omega (arith, ap (λ t. t * b) (mod-add-div a m)) in
    sym (ap (λ t. t % m) e ∙ add-mul-mod_self_left (a % m * b) m (a / m * b))

mul-mod-mod : (a b m : ℕ) → a * (b % m) % m ≡ a * b % m
mul-mod-mod a b m = rw (mul_comm a (b % m), mul_comm a b) (mod-mul-mod b a m)

pow-mod : (a n m : ℕ) → (a % m) ^ n % m ≡ a ^ n % m
pow-mod a zero m = rw (pow-zero, pow-zero)
pow-mod a (suc n) m =
    rw (pow-succ' (a % m) n, pow-succ' a n)
      (mod-mul-mod a ((a % m) ^ n) m
        ∙ sym (mul-mod-mod a ((a % m) ^ n) m)
        ∙ ap (λ t. a * t % m) (pow-mod a n m)
        ∙ mul-mod-mod a (a ^ n) m)

pow-double : (p n : ℕ) → p ^ (n + n) ≡ (p * p) ^ n
pow-double p zero = pow-zero p ∙ sym (pow-zero (p * p))
pow-double p (suc n) =
    let e : suc n + suc n ≡ suc (suc (n + n)) = omega arith in
    rw (e, pow-succ' p (suc (n + n)), pow-succ' p (n + n), pow-succ' (p * p) n, pow-double p n)
      (sym (mul_assoc p p ((p * p) ^ n)))

-- An odd exponent gives one factor more than its half.
pow-even : (p e : ℕ) → e % 2 ≡ 0 → p ^ e ≡ (p * p) ^ (e / 2)
pow-even p e h = let s : e ≡ e / 2 + e / 2 = omega arith in ap (λ t. p ^ t) s ∙ pow-double p (e / 2)

pow-odd : (p e : ℕ) → e % 2 ≡ 1 → p ^ e ≡ (p * p) ^ (e / 2) * p
pow-odd p e h =
    let s : e ≡ suc (e / 2 + e / 2) = omega arith in
    ap (λ t. p ^ t) s ∙ pow-suc p (e / 2 + e / 2) ∙ ap (λ t. t * p) (pow-double p (e / 2))

-- One round of the loop, for the value `x` that it may or may not multiply in.
reduced : (q n x : ℕ) → (q % 2 ^ 64) ^ n * x % 2 ^ 64 ≡ q ^ n * x % 2 ^ 64
reduced q n x =
    sym (mod-mul-mod ((q % 2 ^ 64) ^ n) x (2 ^ 64))
    ∙ ap (λ t. t * x % 2 ^ 64) (pow-mod q n (2 ^ 64))
    ∙ mod-mul-mod (q ^ n) x (2 ^ 64)

odd-step : (p e y : ℕ) → e % 2 ≡ 1 → (p * p) ^ (e / 2) * mul64 p y % 2 ^ 64 ≡ p ^ e * y % 2 ^ 64
odd-step p e y h =
    mul-mod-mod ((p * p) ^ (e / 2)) (p * y) (2 ^ 64)
    ∙ ap (λ t. t % 2 ^ 64) (sym (mul_assoc _ p y) ∙ ap (λ t. t * y) (sym (pow-odd p e h)))

last-odd : (p e y : ℕ) → e ≡ 1 → mul64 p y ≡ p ^ e * y % 2 ^ 64
last-odd p e y h =
    let unit : 1 * p ≡ p = omega arith in
    let once : p ^ 1 ≡ p = pow-suc p 0 ∙ ap (λ t. t * p) (pow-zero p) ∙ unit in
    rw h (ap (λ t. t * y % 2 ^ 64) (sym once))

last-even : (p e y : ℕ) → e ≡ 0 → y < 2 ^ 64 → y ≡ p ^ e * y % 2 ^ 64
last-even p e y h g = rw (h, pow-zero) (omega arith)

upow_loop_lem :
    (fuel exp p y : ℕ) → exp < 2 ^ fuel → y < 2 ^ 64 → upow_loop fuel exp p y ≡ p ^ exp * y % 2 ^ 64
unfolding upow_loop
upow_loop_lem zero exp p y h g = let e : exp ≡ 0 = omega arith in rw (e, pow-zero) (omega arith)
upow_loop_lem (suc fuel) exp p y h g =
    let low : bit_and exp 1 ≡ exp % 2 = bit_and-ones 1 exp in
    let less : exp / 2 < 2 ^ fuel = omega (arith, two-pow_suc fuel) in
    let next = λ (x : ℕ) (b : x < 2 ^ 64).
      upow_loop_lem fuel (exp / 2) (mul64 p p) x less b ∙ reduced (p * p) (exp / 2) x in
    elim (Bool-cases (bit_and exp 1 == 0)) [
      | inl even ↦ rw even (elim (Bool-cases (shr exp 1 == 0)) [
        | inl done ↦ rw done (last-even p exp y (ground arith) g)
        | inr more ↦
            rw more (next y g ∙ ap (λ t. t * y % 2 ^ 64) (sym (pow-even p exp (ground arith))))
      ])
      | inr odd ↦ rw odd (elim (Bool-cases (shr exp 1 == 0)) [
        | inl done ↦ rw done (last-odd p exp y (ground arith))
        | inr more ↦ rw more (next (mul64 p y) (omega arith) ∙ odd-step p exp y (ground arith))
      ])
    ]

-- `upow` computes the power modulo 2 ^ 64, for every 64-bit exponent.
pub upow_lem : (base exp : ℕ) → exp < 2 ^ 64 → upow base exp ≡ base ^ exp % 2 ^ 64
unfolding upow
upow_lem base exp h =
    upow_loop_lem 64 exp base 1 h (omega arith) ∙ ap (λ t. t % 2 ^ 64) (omega arith)
