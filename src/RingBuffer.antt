-- ===== src/RingBuffer.antt =====
-- src/kernel/lib/ringbuffer.c: the last lines of the console. The place -1 is `none`.
use almeida_os.Base.{
  ℕ, zero, suc, ◌+◌, ◌%◌, Bool, true, false, ◌&&◌, ◌||◌, not, Option, none, some, List, [], ◌∷◌,
  ltb, leb, ◌==◌, if◌then◌else◌, Run, ok, running, ◌>>=◌,
}
pub mod Latest
pub mod Rounds

-- `ringbuffer_tp`
pub record RingBuffer {ℓ} (A : Type ℓ) : Type ℓ where
  pub head : Option ℕ
  pub tail : Option ℕ
  pub size : ℕ
  pub items : ℕ → A

unfoldable pub ringbuffer_init {ℓ} : {A : Type ℓ} → RingBuffer A → RingBuffer A
ringbuffer_init buf = record buf { head = none; tail = none }

-- the places after one more item
unfoldable pub advance : ℕ → Option ℕ → Option ℕ → ℕ × ℕ
advance size none none = (0, 0)
advance size none (some t) = (0 % size, (t + 1) % size)
advance size (some h) none = if h == 0 && ltb 0 size then (h, 0) else ((h + 1) % size, 0 % size)
advance size (some h) (some t) =
    if h == 0 && ltb (t + 1) size then (h, t + 1) else ((h + 1) % size, (t + 1) % size)

unfoldable pub ringbuffer_put {ℓ} : {A : Type ℓ} → A → RingBuffer A → RingBuffer A
ringbuffer_put item buf =
    let (h, t) = advance buf.size buf.head buf.tail in
    record buf { head = some h; tail = some t; items = λ i. if i == t then item else buf.items i }

-- the items that `ringbuffer_for_each` gives to its function, in order
unfoldable pub each_loop {ℓ} : {A : Type ℓ} → ℕ → ℕ → ℕ → ℕ → (ℕ → A) → ℕ → Run (List A)
each_loop zero head tail size items idx = running
each_loop (suc fuel) head tail size items idx =
    let i : ℕ = idx % size in
    let on : Bool = (ltb head tail && leb (i + 1) tail) || (ltb tail head && not (i + 1 == head)) in
    elim on [
      | true ↦ each_loop fuel head tail size items (i + 1) >>= λ rest. ok (items i ∷ rest)
      | false ↦ ok (items i ∷ [])
    ]

unfoldable pub ringbuffer_for_each {ℓ} : {A : Type ℓ} → RingBuffer A → Run (List A)
ringbuffer_for_each buf = elim buf.head [
  | none ↦ ok []
  | some h ↦ elim buf.tail [
    | none ↦ ok []
    | some t ↦ elim (buf.size == 0) [
      | true ↦ ok []
      | false ↦ each_loop (buf.size + 1) h t buf.size buf.items h
    ]
  ]
]
