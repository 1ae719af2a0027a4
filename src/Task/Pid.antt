-- ===== src/Task/Pid.antt =====
-- src/kernel/task/pid.c: the least identifier that is not taken.
use native.Mathlib.Decide.{ℕ_discrete}
use almeida_os.Base.{
  ℕ, zero, suc, ◌+◌, ◌-◌, ◌≤◌, ◌<◌, ◌≡◌, refl, subst, ◌≢◌, ◌⊎◌, inl, inr, Bool, true, false, not,
  Option, none, some, arith, ◌==◌, if◌then◌else◌, eq→==, Bool-cases, Run, ok, bug,
}

-- PID_MAX, and `pid_map` as the function from identifiers to whether they are taken
abbrev pub pid_max : ℕ
pid_max = 1024

abbrev pub PidMap : Type 0
PidMap = ℕ → Bool

unfoldable pub take_pid : PidMap → ℕ → PidMap
take_pid pid_map i j = if j == i then true else pid_map j

-- the loop from `i` on, with `rounds` identifiers left; -1 is `none`
unfoldable pub pid_loop : ℕ → ℕ → PidMap → Option ℕ
pid_loop zero i pid_map = none
pid_loop (suc rounds) i pid_map =
    if not (pid_map i) then some i else pid_loop rounds (i + 1) pid_map

unfoldable pub find_free_pid : PidMap → Run (ℕ × PidMap)
find_free_pid pid_map = elim (pid_loop (pid_max - 1) 1 pid_map) [
  | none ↦ bug
  | some ret ↦ ok (ret, take_pid pid_map ret)
]

-- The outcome of the loop over the identifiers from `i` up to `i + rounds`.
abbrev Scanned : ℕ → ℕ → PidMap → Option ℕ → Type 0
Scanned rounds i pid_map res =
    ((p : ℕ) × (res ≡ some p)
      × (i ≤ p)
      × (p < i + rounds)
      × (pid_map p ≡ false)
      × ((j : ℕ) → i ≤ j → j < p → pid_map j ≡ true))
    ⊎ ((res ≡ none) × ((j : ℕ) → i ≤ j → j < i + rounds → pid_map j ≡ true))

pid_loop-Scanned :
    (rounds i : ℕ) (pid_map : PidMap) → Scanned rounds i pid_map (pid_loop rounds i pid_map)
unfolding pid_loop
pid_loop-Scanned zero i pid_map = inr (refl, λ j a b. absurd (omega arith))
pid_loop-Scanned (suc rounds) i pid_map = elim (Bool-cases (pid_map i)) [
  | inr e ↦ inl (i, rw e refl, omega arith, omega arith, e, λ j a b. absurd (omega arith))
  | inl e ↦ rw e (later e (pid_loop-Scanned rounds (i + 1) pid_map))
]
  where
    from_next :
        (pid_map i ≡ true) → (j : ℕ) → i ≤ j → (i + 1 ≤ j → pid_map j ≡ true) → pid_map j ≡ true
    from_next e j a f = elim (ℕ_discrete i j) [
      | yes s ↦ subst (λ t. pid_map t ≡ true) s e
      | no n ↦ f (omega arith)
    ]

    later :
        (pid_map i ≡ true)
        → Scanned rounds (i + 1) pid_map (pid_loop rounds (i + 1) pid_map)
        → Scanned (suc rounds) i pid_map (pid_loop rounds (i + 1) pid_map)
    later e (inl (p, x, a, b, c, d)) =
        inl (p, x, omega arith, omega arith, c, λ j s t. from_next e j s (λ u. d j u t))
    later e (inr (x, d)) = inr (x, λ j s t. from_next e j s (λ u. d j u (omega arith)))

-- the outcome of a search for a free identifier: the least one is taken, or none is free
abbrev pub LeastTaken : PidMap → Run (ℕ × PidMap) → Type 0
LeastTaken pid_map res =
    ((p : ℕ) × (after : PidMap) × (res ≡ ok (p, after))
      × (1 ≤ p)
      × (p < 1024)
      × (pid_map p ≡ false)
      × ((j : ℕ) → 1 ≤ j → j < p → pid_map j ≡ true)
      × (after p ≡ true)
      × ((j : ℕ) → j ≢ p → after j ≡ pid_map j))
    ⊎ ((res ≡ bug) × ((j : ℕ) → 1 ≤ j → j < 1024 → pid_map j ≡ true))

-- `find_free_pid` returns the least identifier from 1 to 1023 that is not taken, and takes it and no
-- other; it halts exactly when all of them are taken.
pub find_free_pid_lem : (pid_map : PidMap) → LeastTaken pid_map (find_free_pid pid_map)
unfolding find_free_pid take_pid
find_free_pid_lem pid_map = by_scan (pid_loop-Scanned 1023 1 pid_map)
  where
    by_scan :
        Scanned 1023 1 pid_map (pid_loop 1023 1 pid_map)
        → LeastTaken pid_map (find_free_pid pid_map)
    by_scan (inl (p, x, a, b, c, d)) = inl (
      p,
      take_pid pid_map p,
      rw (find_free_pid, x) refl,
      a,
      omega arith,
      c,
      d,
      rw (eq→== p p refl) refl,
      λ j n. ground arith,
    )
    by_scan (inr (x, d)) = inr (rw (find_free_pid, x) refl, λ j a b. d j a (omega arith))
