-- ===== src/RingBuffer/Rounds.antt =====
-- The loop of ringbuffer_for_each of src/kernel/lib/ringbuffer.c over a buffer whose items are known.
use native.Mathlib.Nat.{mod-eq_of_lt, mod_self, zero-mod}
use almeida_os.Base.{
  ℕ, zero, suc, ◌+◌, ◌%◌, ◌≤◌, ◌<◌, ◌≡◌, refl, sym, ap, ◌∙◌, true, false, ◌&&◌, ◌||◌, not, List, [],
  ◌∷◌, arith, ltb, leb, ◌==◌, Run, ok, ◌>>=◌,
}
use almeida_os.RingBuffer.{each_loop}

-- the items of a stream from a place on
abbrev pub segment {ℓ} : {A : Type ℓ} → (ℕ → A) → ℕ → ℕ → List A
segment s start zero = []
segment s start (suc count) = s start ∷ segment s (start + 1) count

module _ {ℓ} {A : Type ℓ} (size t b : ℕ) (items s : ℕ → A) (below : t < size)
    (holds : (i : ℕ) → i ≤ t → items i ≡ s (b + i)) where
  -- the rounds up to the tail, in a buffer that is not wrapped
  pub each_unwrapped :
      (r fuel idx : ℕ)
      → idx + r ≡ t
      → r < fuel
      → each_loop fuel 0 t size items idx ≡ ok (segment s (b + idx) (suc r))
  unfolding each_loop
  each_unwrapped r zero idx place enough = absurd (omega arith)
  each_unwrapped zero (suc fuel) idx place enough =
      let i : idx % size ≡ idx = mod-eq_of_lt (omega arith) in
      let stop : ((ltb 0 t && leb (idx + 1) t) || (ltb t 0 && not (idx + 1 == 0))) ≡ false =
        ground arith in
      rw (each_loop, i, stop, i, holds idx (omega arith)) refl
  each_unwrapped (suc r) (suc fuel) idx place enough =
      let i : idx % size ≡ idx = mod-eq_of_lt (omega arith) in
      let on : ((ltb 0 t && leb (idx + 1) t) || (ltb t 0 && not (idx + 1 == 0))) ≡ true =
        ground arith in
      let rest = each_unwrapped r fuel (idx + 1) (omega arith) (omega arith) in
      let next : b + (idx + 1) ≡ b + idx + 1 = omega arith in
      rw (each_loop, i, on, i, rest, holds idx (omega arith), next) refl

  -- the rounds up to the tail, in a buffer that is wrapped
  each_low :
      (r fuel idx : ℕ)
      → idx + r ≡ t
      → r < fuel
      → each_loop fuel (t + 1) t size items idx ≡ ok (segment s (b + idx) (suc r))
  unfolding each_loop
  each_low r zero idx place enough = absurd (omega arith)
  each_low zero (suc fuel) idx place enough =
      let i : idx % size ≡ idx = mod-eq_of_lt (omega arith) in
      let stop : ((ltb (t + 1) t && leb (idx + 1) t) || (ltb t (t + 1) && not (idx + 1 == t + 1)))
          ≡ false =
        ground arith in
      rw (each_loop, i, stop, i, holds idx (omega arith)) refl
  each_low (suc r) (suc fuel) idx place enough =
      let i : idx % size ≡ idx = mod-eq_of_lt (omega arith) in
      let on : ((ltb (t + 1) t && leb (idx + 1) t) || (ltb t (t + 1) && not (idx + 1 == t + 1)))
          ≡ true =
        ground arith in
      let rest = each_low r fuel (idx + 1) (omega arith) (omega arith) in
      let next : b + (idx + 1) ≡ b + idx + 1 = omega arith in
      rw (each_loop, i, on, i, rest, holds idx (omega arith), next) refl

  restart : (fuel h : ℕ) → each_loop fuel h t size items size ≡ each_loop fuel h t size items 0
  unfolding each_loop
  restart zero h = refl
  restart (suc fuel) h =
      let round : ℕ → Run (List A) = λ i.
        elim ((ltb h t && leb (i + 1) t) || (ltb t h && not (i + 1 == h))) [
          | true ↦ each_loop fuel h t size items (i + 1) >>= λ rest. ok (items i ∷ rest)
          | false ↦ ok (items i ∷ [])
        ] in
      ap round (mod_self size ∙ sym (zero-mod size))

  -- the rounds from the head on, in a buffer that is wrapped
  pub each_high :
      (c r fuel idx total : ℕ)
      → b ≡ c + size
      → ((i : ℕ) → t < i → i < size → items i ≡ s (c + i))
      → idx + r + 1 ≡ size
      → t < idx
      → r + t + 1 ≡ total
      → total < fuel
      → each_loop fuel (t + 1) t size items idx ≡ ok (segment s (c + idx) (suc total))
  unfolding each_loop
  each_high c r zero idx total whole high place above all enough = absurd (omega arith)
  each_high c zero (suc fuel) idx total whole high place above all enough =
      let i : idx % size ≡ idx = mod-eq_of_lt (omega arith) in
      let on : ((ltb (t + 1) t && leb (idx + 1) t) || (ltb t (t + 1) && not (idx + 1 == t + 1)))
          ≡ true =
        ground arith in
      let end : idx + 1 ≡ size = omega arith in
      let rest = restart fuel (t + 1) ∙ each_low t fuel 0 (omega arith) (omega arith) in
      let count : total ≡ suc t = omega arith in
      let next : b + 0 ≡ c + idx + 1 = omega arith in
      rw (each_loop, i, on, i, end, rest, high idx above (omega arith), next, count) refl
  each_high c (suc r) (suc fuel) idx zero whole high place above all enough = absurd (omega arith)
  each_high c (suc r) (suc fuel) idx (suc total) whole high place above all enough =
      let i : idx % size ≡ idx = mod-eq_of_lt (omega arith) in
      let on : ((ltb (t + 1) t && leb (idx + 1) t) || (ltb t (t + 1) && not (idx + 1 == t + 1)))
          ≡ true =
        ground arith in
      let rest =
        each_high c r fuel (idx + 1) total whole high (omega arith) (omega arith) (omega arith)
          (omega arith) in
      let next : c + (idx + 1) ≡ c + idx + 1 = omega arith in
      rw (each_loop, i, on, i, rest, high idx above (omega arith), next) refl
