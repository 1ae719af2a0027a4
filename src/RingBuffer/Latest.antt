-- ===== src/RingBuffer/Latest.antt =====
-- The ring buffer of src/kernel/lib/ringbuffer.c as a window on the items that were put into it.
use native.Mathlib.Nat.{add-zero, mod-eq_of_lt, mod_self}
use almeida_os.Base.{
  ℕ, zero, suc, ◌+◌, ◌-◌, ◌%◌, ◌≤◌, ◌<◌, min, ◌≡◌, refl, sym, ap, ap₂, ◌∙◌, subst, ◌⊎◌, inl, inr,
  false, some, arith, ltb, ◌==◌, if◌then◌else◌, ltb→lt, ==→eq, Bool-cases, ok,
}
use almeida_os.RingBuffer.{
  RingBuffer, ringbuffer_init, ringbuffer_put, advance, ringbuffer_for_each,
}
use almeida_os.RingBuffer.Rounds.{segment, each_unwrapped, each_high}

-- a buffer that holds the last of the first `k` items of a stream, in order from its place 0 or, after
-- the tail, from the place behind it
abbrev at {ℓ} : {A : Type ℓ} → ℕ → (ℕ → A) → ℕ → ℕ → RingBuffer A
at size items h t = record { head = some h; tail = some t; size = size; items = items }

abbrev Holds {ℓ} : {A : Type ℓ} → (ℕ → A) → ℕ → ℕ → RingBuffer A → Type ℓ
Holds {A} s size k buf =
    (items : ℕ → A) × (t : ℕ) × (b : ℕ) × (t < size)
    × (k ≡ b + t + 1)
    × ((i : ℕ) → i ≤ t → items i ≡ s (b + i))
    × (((buf ≡ at size items 0 t) × ((b ≡ 0) ⊎ (t + 1 ≡ size)))
        ⊎ ((buf ≡ at size items (t + 1) t)
            × (t + 1 < size)
            × (c : ℕ) × (b ≡ c + size)
            × ((i : ℕ) → t < i → i < size → items i ≡ s (c + i))))

write_low {ℓ} :
    {A : Type ℓ} (items s : ℕ → A) (b t : ℕ) (item : A)
    → item ≡ s (b + (t + 1))
    → ((i : ℕ) → i ≤ t → items i ≡ s (b + i))
    → (i : ℕ) → i ≤ t + 1
    → (if i == t + 1 then item else items i) ≡ s (b + i)
write_low items s b t item new low i h = elim (Bool-cases (i == t + 1)) [
  | inl e ↦ rw (e, ==→eq i (t + 1) e) new
  | inr e ↦ rw e (low i (ground arith))
]

write_high {ℓ} :
    {A : Type ℓ} (items : ℕ → A) (t i : ℕ) (item : A)
    → t < i
    → (if i == t then item else items i) ≡ items i
write_high items t i item h = let e : (i == t) ≡ false = ground arith in rw e refl

write_first {ℓ} :
    {A : Type ℓ} (items s : ℕ → A) (k : ℕ)
    → (i : ℕ) → i ≤ 0
    → (if i == 0 then s k else items i) ≡ s (k + i)
write_first items s k zero h = rw (add-zero k) refl
write_first items s k (suc i) h = absurd (omega arith)

-- the item that is put into a buffer whose places 0 to `t` are the last that were written
put_unwrapped {ℓ} :
    {A : Type ℓ} (s : ℕ → A) (size k t b : ℕ) (items : ℕ → A)
    → t < size
    → k ≡ b + t + 1
    → ((i : ℕ) → i ≤ t → items i ≡ s (b + i))
    → (b ≡ 0) ⊎ (t + 1 ≡ size)
    → Holds s size (suc k) (ringbuffer_put (s k) (at size items 0 t))
unfolding ringbuffer_put advance
put_unwrapped s size k t b items below count low shape = elim (Bool-cases (ltb (t + 1) size)) [
  | inl e ↦
      let start : b ≡ 0 = elim shape [ inl z ↦ z | inr z ↦ absurd (ground arith) ] in
      (
        λ i. if i == t + 1 then s k else items i,
        t + 1,
        b,
        ltb→lt _ _ e,
        omega arith,
        write_low items s b t (s k) (ap s (omega arith)) low,
        inl (rw (ringbuffer_put, advance, e) refl, inl start),
      )
  | inr e ↦
      let full : t + 1 ≡ size = ground arith in
      let around : (t + 1) % size ≡ 0 = ap (λ x. x % size) full ∙ mod_self size in
      elim (Bool-cases (ltb 1 size)) [
        | inl more ↦
            let head : (0 + 1) % size ≡ 0 + 1 = mod-eq_of_lt (ground arith) in
            (
              λ i. if i == 0 then s k else items i,
              0,
              k,
              omega arith,
              omega arith,
              write_first items s k,
              inr (
                rw (ringbuffer_put, advance, e, head, around) refl,
                ground arith,
                b,
                omega arith,
                λ i a z. write_high items 0 i (s k) a ∙ low i (omega arith),
              ),
            )
        | inr one ↦
            let single : 0 + 1 ≡ size = ground arith in
            let head : (0 + 1) % size ≡ 0 = ap (λ x. x % size) single ∙ mod_self size in
            (
              λ i. if i == 0 then s k else items i,
              0,
              k,
              omega arith,
              omega arith,
              write_first items s k,
              inl (rw (ringbuffer_put, advance, e, head, around) refl, inr single),
            )
      ]
]

put_wrapped {ℓ} :
    {A : Type ℓ} (s : ℕ → A) (size k t b c : ℕ) (items : ℕ → A)
    → t + 1 < size
    → k ≡ b + t + 1
    → b ≡ c + size
    → ((i : ℕ) → i ≤ t → items i ≡ s (b + i))
    → ((i : ℕ) → t < i → i < size → items i ≡ s (c + i))
    → Holds s size (suc k) (ringbuffer_put (s k) (at size items (t + 1) t))
unfolding ringbuffer_put advance
put_wrapped s size k t b c items below count whole low high =
    let later : (t + 1 == 0) ≡ false = ground arith in
    let tail : (t + 1) % size ≡ t + 1 = mod-eq_of_lt below in
    elim (Bool-cases (ltb (t + 2) size)) [
      | inl e ↦
          let head : (t + 1 + 1) % size ≡ t + 1 + 1 = mod-eq_of_lt (ground arith) in
          (
            λ i. if i == t + 1 then s k else items i,
            t + 1,
            b,
            below,
            omega arith,
            write_low items s b t (s k) (ap s (omega arith)) low,
            inr (
              rw (ringbuffer_put, advance, later, head, tail) refl,
              ground arith,
              c,
              whole,
              λ i a z. write_high items (t + 1) i (s k) a ∙ high i (omega arith) z,
            ),
          )
      | inr e ↦
          let full : t + 1 + 1 ≡ size = ground arith in
          let head : (t + 1 + 1) % size ≡ 0 = ap (λ x. x % size) full ∙ mod_self size in
          (
            λ i. if i == t + 1 then s k else items i,
            t + 1,
            b,
            below,
            omega arith,
            write_low items s b t (s k) (ap s (omega arith)) low,
            inl (rw (ringbuffer_put, advance, later, head, tail) refl, inr full),
          )
    ]

-- the calls of `ringbuffer_put` on the first items of a stream
abbrev pub puts {ℓ} : {A : Type ℓ} → (ℕ → A) → ℕ → RingBuffer A → RingBuffer A
puts s zero buf = buf
puts s (suc k) buf = ringbuffer_put (s k) (puts s k buf)

Holds-put {ℓ} :
    {A : Type ℓ} (s : ℕ → A) (size k : ℕ) (buf : RingBuffer A)
    → Holds s size k buf
    → Holds s size (suc k) (ringbuffer_put (s k) buf)
Holds-put s size k buf (items, t, b, below, count, low, inl (same, shape)) =
    subst (λ x. Holds s size (suc k) (ringbuffer_put (s k) x)) (sym same)
      (put_unwrapped s size k t b items below count low shape)
Holds-put s size k buf (items, t, b, below, count, low, inr (same, next, c, whole, high)) =
    subst (λ x. Holds s size (suc k) (ringbuffer_put (s k) x)) (sym same)
      (put_wrapped s size k t b c items next count whole low high)

Holds-puts {ℓ} :
    {A : Type ℓ} (s : ℕ → A) (k : ℕ) (buf : RingBuffer A)
    → 1 ≤ buf.size
    → Holds s buf.size (suc k) (puts s (suc k) (ringbuffer_init buf))
unfolding ringbuffer_init ringbuffer_put advance
Holds-puts s zero buf room = (
  λ i. if i == 0 then s 0 else buf.items i,
  0,
  0,
  omega arith,
  refl,
  write_first buf.items s 0,
  inl (refl, inl refl),
)
Holds-puts s (suc k) buf room =
    Holds-put s buf.size (suc k) (puts s (suc k) (ringbuffer_init buf)) (Holds-puts s k buf room)

each-Holds {ℓ} :
    {A : Type ℓ} (s : ℕ → A) (size k : ℕ) (buf : RingBuffer A)
    → Holds s size k buf
    → ringbuffer_for_each buf ≡ ok (segment s (k - size) (min k size))
unfolding ringbuffer_for_each
each-Holds s size k buf (items, t, b, below, count, low, inl (same, shape)) =
    let e : (size == 0) ≡ false = ground arith in
    let run =
      each_unwrapped size t b items s below low t (size + 1) 0 (omega arith) (omega arith) in
    let first : b + 0 ≡ k - size = elim shape [ inl z ↦ omega arith | inr z ↦ omega arith ] in
    let count' : suc t ≡ min k size = elim shape [ inl z ↦ omega arith | inr z ↦ omega arith ] in
    ap ringbuffer_for_each same
    ∙ rw (ringbuffer_for_each, e, run) (ap₂ (λ x y. ok (segment s x y)) first count')
each-Holds s size k buf (items, t, b, below, count, low, inr (same, next, c, whole, high)) =
    let e : (size == 0) ≡ false = ground arith in
    let run =
      each_high size t b items s below low c (size - t - 2) (size + 1) (t + 1) (size - 1) whole high
        (omega arith) (omega arith) (omega arith) (omega arith) in
    let first : c + (t + 1) ≡ k - size = omega arith in
    let count' : suc (size - 1) ≡ min k size = omega arith in
    ap ringbuffer_for_each same
    ∙ rw (ringbuffer_for_each, e, run) (ap₂ (λ x y. ok (segment s x y)) first count')

-- A buffer with room for at least one item gives, after any number of calls of `ringbuffer_put`, the
-- last items that were put, in the order in which they were: as many as there is room for, or all
-- when they are fewer.
pub ringbuffer_for_each-puts {ℓ} :
    {A : Type ℓ} (s : ℕ → A) (k : ℕ) (buf : RingBuffer A)
    → 1 ≤ buf.size
    → ringbuffer_for_each (puts s k (ringbuffer_init buf))
      ≡ ok (segment s (k - buf.size) (min k buf.size))
unfolding ringbuffer_for_each ringbuffer_init
ringbuffer_for_each-puts s zero buf room =
    let none_put : min zero buf.size ≡ zero = omega arith in rw none_put refl
ringbuffer_for_each-puts s (suc k) buf room =
    each-Holds s buf.size (suc k) (puts s (suc k) (ringbuffer_init buf)) (Holds-puts s k buf room)
