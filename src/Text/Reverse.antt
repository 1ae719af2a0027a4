-- ===== src/Text/Reverse.antt =====
-- strrev of src/kernel/lib/string.c as the reversal of a list, and the digits that ulltoa leaves.
use mathlib.Core.List.{reverse, reverse-cons}
use native.Mathlib.Nat.{mul_comm}
use almeida_os.Base.{
  ℕ, zero, suc, ◌+◌, ◌-◌, ◌*◌, ◌/◌, ◌^◌, ◌≤◌, ◌<◌, ◌≡◌, refl, sym, ap, ap₂, ◌∙◌, ◌≢◌, ◌⊎◌, inl, inr,
  true, [], ◌∷◌, ◌++◌, arith, ltb, ◌==◌, ltb→lt, ==→eq, Bool-cases, length, get_or, set, length-set,
  get_or-set_self, get_or-set_ne, length-append, ok,
}
use almeida_os.Text.{Chars, strrev, strrev_loop}
use almeida_os.Text.Digits.{ulltoa, is_radix, char_digit, value_of, value_of-digits_loop}

-- one swap of the loop
abbrev swap : ℕ → ℕ → Chars → Chars
swap start end str = set (set str start (get_or str end 0)) end (get_or str start 0)

length-swap : (start end : ℕ) (str : Chars) → length (swap start end str) ≡ length str
length-swap start end str =
    length-set (set str start (get_or str end 0)) end (get_or str start 0)
    ∙ length-set str start (get_or str end 0)

swap-other :
    (start end i : ℕ) (str : Chars)
    → start ≢ i
    → end ≢ i
    → get_or (swap start end str) i 0 ≡ get_or str i 0
swap-other start end i str p q =
    get_or-set_ne (set str start (get_or str end 0)) end i (get_or str start 0) 0 q
    ∙ get_or-set_ne str start i (get_or str end 0) 0 p

swap-start :
    (start end : ℕ) (str : Chars)
    → start < end
    → end < length str
    → get_or (swap start end str) start 0 ≡ get_or str end 0
swap-start start end str p q =
    get_or-set_ne (set str start (get_or str end 0)) end start (get_or str start 0) 0
      (λ e. omega arith)
    ∙ get_or-set_self str start (get_or str end 0) 0 (omega arith)

swap-end :
    (start end : ℕ) (str : Chars)
    → end < length str
    → get_or (swap start end str) end 0 ≡ get_or str start 0
swap-end start end str q =
    get_or-set_self (set str start (get_or str end 0)) end (get_or str start 0) 0
      (omega (arith, length-set str start (get_or str end 0)))

length-strrev_loop :
    (rounds start end : ℕ) (str : Chars) → length (strrev_loop rounds start end str) ≡ length str
unfolding strrev_loop
length-strrev_loop zero start end str = refl
length-strrev_loop (suc rounds) start end str =
    length-strrev_loop rounds (suc start) (end - 1) (swap start end str) ∙ length-swap start end str

outside :
    (rounds start end i : ℕ) (str : Chars)
    → start + 2 * rounds ≤ end + 1
    → (i < start) ⊎ (end < i)
    → get_or (strrev_loop rounds start end str) i 0 ≡ get_or str i 0
unfolding strrev_loop
outside zero start end i str room out = refl
outside (suc rounds) start end i str room out =
    let out' : (i < suc start) ⊎ (end - 1 < i) = elim out [
      | inl a ↦ inl (omega arith)
      | inr a ↦ inr (omega arith)
    ] in
    outside rounds (suc start) (end - 1) i (swap start end str) (omega arith) out'
    ∙ swap-other start end i str (λ e. elim out [ inl a ↦ omega arith | inr a ↦ omega arith ])
        (λ e. elim out [ inl a ↦ omega arith | inr a ↦ omega arith ])

mirrored :
    (rounds start end i j : ℕ) (str : Chars)
    → start + 2 * rounds ≤ end + 1
    → end ≤ start + 2 * rounds
    → end < length str
    → start ≤ i
    → i ≤ end
    → i + j ≡ start + end
    → get_or (strrev_loop rounds start end str) i 0 ≡ get_or str j 0
unfolding strrev_loop
mirrored zero start end i j str room all inside a b sum =
    let same : i ≡ j = omega arith in rw same refl
mirrored (suc rounds) start end i j str room all inside a b sum = elim (Bool-cases (i == start)) [
  | inl e ↦
      let first : i ≡ start = ==→eq _ _ e in
      let last : j ≡ end = omega arith in
      outside rounds (suc start) (end - 1) i (swap start end str) (omega arith) (inl (omega arith))
      ∙ rw (first, last) (swap-start start end str (omega arith) inside)
  | inr e ↦ elim (Bool-cases (i == end)) [
    | inl f ↦
        let last : i ≡ end = ==→eq _ _ f in
        let first : j ≡ start = omega arith in
        outside rounds (suc start) (end - 1) i (swap start end str) (omega arith)
          (inr (omega arith))
        ∙ rw (first, last) (swap-end start end str inside)
    | inr f ↦
        mirrored rounds (suc start) (end - 1) i j (swap start end str) (omega arith) (omega arith)
          (omega (arith, length-swap start end str)) (ground arith) (ground arith) (omega arith)
        ∙ swap-other start end j str (λ g. ground arith) (λ g. ground arith)
  ]
]

pub length-reverse : (cs : Chars) → length (reverse cs) ≡ length cs
length-reverse [] = refl
length-reverse (c ∷ cs) =
    rw (reverse-cons c cs) (omega (arith, length-append (reverse cs) (c ∷ []), length-reverse cs))

get_or-append : (xs ys : Chars) (i : ℕ) → i < length xs → get_or (xs ++ ys) i 0 ≡ get_or xs i 0
get_or-append [] ys i h = absurd (omega arith)
get_or-append (x ∷ xs) ys zero h = refl
get_or-append (x ∷ xs) ys (suc i) h = get_or-append xs ys i (omega arith)

get_or-append_last : (xs : Chars) (y i : ℕ) → i ≡ length xs → get_or (xs ++ y ∷ []) i 0 ≡ y
get_or-append_last [] y i h = rw h refl
get_or-append_last (x ∷ xs) y zero h = absurd (omega arith)
get_or-append_last (x ∷ xs) y (suc i) h = get_or-append_last xs y i (omega arith)

get_or-reverse :
    (cs : Chars) (i j : ℕ) → i + j + 1 ≡ length cs → get_or (reverse cs) i 0 ≡ get_or cs j 0
get_or-reverse [] i j h = absurd (omega arith)
get_or-reverse (c ∷ cs) i zero h =
    rw (reverse-cons c cs) (get_or-append_last (reverse cs) c i (omega (arith, length-reverse cs)))
get_or-reverse (c ∷ cs) i (suc j) h = rw (reverse-cons c cs) (
    get_or-append (reverse cs) (c ∷ []) i (omega (arith, length-reverse cs))
    ∙ get_or-reverse cs i j (omega arith))

same_chars :
    (xs ys : Chars)
    → length xs ≡ length ys
    → ((i : ℕ) → i < length xs → get_or xs i 0 ≡ get_or ys i 0)
    → xs ≡ ys
same_chars [] [] e h = refl
same_chars [] (y ∷ ys) e h = absurd (omega arith)
same_chars (x ∷ xs) [] e h = absurd (omega arith)
same_chars (x ∷ xs) (y ∷ ys) e h =
    ap₂ (λ c cs. c ∷ cs) (h 0 (omega arith))
      (same_chars xs ys (omega arith) (λ i l. h (suc i) (omega arith)))

-- `strrev` on the whole length of a string reverses it.
pub strrev_lem : (str : Chars) → strrev str (length str) ≡ reverse str
unfolding strrev
strrev_lem str = elim (Bool-cases (ltb (length str) 2)) [
  | inl e ↦ rw (strrev, e) (short str (ltb→lt _ _ e))
  | inr e ↦
      let loop = strrev_loop (length str / 2) 0 (length str - 1) str in
      let kept = length-strrev_loop (length str / 2) 0 (length str - 1) str in
      rw (strrev, e)
        (same_chars loop (reverse str) (kept ∙ sym (length-reverse str)) (λ i l.
          mirrored (length str / 2) 0 (length str - 1) i (length str - 1 - i) str (ground arith)
            (ground arith) (ground arith) (omega arith) (omega (arith, kept)) (omega (arith, kept))
          ∙ sym (get_or-reverse str i (length str - 1 - i) (omega (arith, kept)))))
]
  where
    short : (cs : Chars) → length cs < 2 → cs ≡ reverse cs
    short [] h = refl
    short (c ∷ []) h = refl
    short (c ∷ d ∷ cs) h = absurd (omega arith)

-- a number read from its digits, the highest first
abbrev pub read_number : ℕ → ℕ → Chars → ℕ
read_number radix acc [] = acc
read_number radix acc (c ∷ cs) = read_number radix (acc * radix + char_digit c) cs

read_number-append :
    (radix acc c : ℕ) (cs : Chars)
    → read_number radix acc (cs ++ c ∷ []) ≡ read_number radix acc cs * radix + char_digit c
read_number-append radix acc c [] = refl
read_number-append radix acc c (d ∷ cs) = read_number-append radix (acc * radix + char_digit d) c cs

pub read_number-reverse :
    (radix : ℕ) (cs : Chars) → read_number radix 0 (reverse cs) ≡ value_of radix cs
read_number-reverse radix [] = refl
read_number-reverse radix (c ∷ cs) =
    ap (read_number radix 0) (reverse-cons c cs)
    ∙ read_number-append radix 0 c (reverse cs)
    ∙ ap (λ n. n * radix + char_digit c) (read_number-reverse radix cs)
    ∙ omega (arith, mul_comm radix (value_of radix cs))

-- `ulltoa` on a number of 64 bits in one of its three bases ends with a string, and the number that is
-- read from that string, the highest digit first, is the one that was written.
pub ulltoa_lem :
    (value radix : ℕ)
    → value < 2 ^ 64
    → is_radix radix ≡ true
    → (str : Chars) × (ulltoa value radix ≡ ok str) × (read_number radix 0 str ≡ value)
unfolding ulltoa
ulltoa_lem value radix a b = elim (Bool-cases (value == 0)) [
  | inl e ↦ (48 ∷ [], rw (ulltoa, b, e) refl, omega (arith, ==→eq value 0 e))
  | inr e ↦
      let (str, run, same) = value_of-digits_loop 64 value radix (ground arith) (ground arith) a in
      (
        reverse str,
        rw (ulltoa, b, e, run) (ap ok (strrev_lem str)),
        read_number-reverse radix str ∙ same,
      )
]
