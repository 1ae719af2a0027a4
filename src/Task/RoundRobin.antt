-- ===== src/Task/RoundRobin.antt =====
-- Every task of the queue of src/kernel/task/scheduler.c gets its turn.
use mathlib.Core.List.{append_assoc, append-nil}
use almeida_os.Base.{
  ℕ, zero, suc, ◌≤◌, ◌≡◌, refl, sym, ap, subst, Bool, true, false, Option, none, some, List, [],
  ◌∷◌, ◌++◌, arith, length, length-append, Run, ok, ◌>>=◌,
}
use almeida_os.Task.Process.{Machine, process_context_swtich}
use almeida_os.Task.Scheduler.{Scheduler, move_end_of_list, rotate, schedule}

move_end_of_list_lem :
    (e x : ℕ) (xs : List ℕ) → move_end_of_list e (x ∷ xs) ≡ ok ((x ∷ xs) ++ e ∷ [])
unfolding move_end_of_list
move_end_of_list_lem e x [] = refl
move_end_of_list_lem e x (y ∷ rest) = rw (move_end_of_list_lem e y rest) refl

rotate_lem : (e : ℕ) (xs : List ℕ) → rotate e xs ≡ ok (xs ++ e ∷ [])
unfolding rotate
rotate_lem e [] = refl
rotate_lem e (x ∷ xs) = move_end_of_list_lem e x xs

-- a scheduler that has been set up
abbrev pub ready : Option ℕ → List ℕ → Bool → Scheduler
ready curr tasks need_resched = record {
  initialised = true;
  run_queue = record { curr = curr; tasks = tasks; need_resched = need_resched };
}

-- `schedule` by the number of tasks: with none nothing happens; a single one is switched to unless a
-- task runs; with more the first one is switched to and put at the end of the queue.
pub schedule_lem :
    (curr : Option ℕ) (b : Bool) (mc : Machine)
    → (schedule (ready curr [] b) mc ≡ ok (ready curr [] b, mc))
      × ((t x : ℕ) → schedule (ready (some t) (x ∷ []) b) mc ≡ ok (ready (some t) (x ∷ []) b, mc))
      × ((x : ℕ)
          → schedule (ready none (x ∷ []) b) mc
            ≡ ok (ready (some x) (x ∷ []) false, process_context_swtich none x mc))
      × ((x y : ℕ) (rest : List ℕ)
          → schedule (ready curr (x ∷ y ∷ rest) b) mc
            ≡ ok (ready (some x) (y ∷ rest ++ x ∷ []) false, process_context_swtich curr x mc))
unfolding schedule rotate
schedule_lem curr b mc = (refl, λ t x. refl, λ x. refl, many curr)
  where
    many :
        (c : Option ℕ) (x y : ℕ) (rest : List ℕ)
        → schedule (ready c (x ∷ y ∷ rest) b) mc
          ≡ ok (ready (some x) (y ∷ rest ++ x ∷ []) false, process_context_swtich c x mc)
    many none x y rest = rw (move_end_of_list_lem x y rest) refl
    many (some t) x y rest = rw (move_end_of_list_lem x y rest) refl

-- `n` calls of `schedule`, with the tasks that they switch to
abbrev pub current : Option ℕ → List ℕ
current none = []
current (some t) = t ∷ []

unfoldable pub turns : ℕ → Scheduler → Machine → Run (List ℕ × Scheduler × Machine)
turns zero s mc = ok ([], s, mc)
turns (suc n) s mc = do
  (s', mc') ← schedule s mc
  (ran, last, end) ← turns n s' mc'
  ok (current s'.run_queue.curr ++ ran, last, end)

-- What the turns come to: the tasks that ran and the queue that is left.
abbrev pub TurnsTo : Run (List ℕ × Scheduler × Machine) → List ℕ → List ℕ → Type 0
TurnsTo res ran tasks =
    (curr : Option ℕ) × (b : Bool) × (mc : Machine) × (res ≡ ok (ran, ready curr tasks b, mc))

one_turn :
    (x : ℕ) (zs : List ℕ) (curr : Option ℕ) (b : Bool) (mc : Machine)
    → 1 ≤ length zs
    → schedule (ready curr (x ∷ zs) b) mc
      ≡ ok (ready (some x) (zs ++ x ∷ []) false, process_context_swtich curr x mc)
one_turn x [] curr b mc h = absurd (omega arith)
one_turn x (y ∷ rest) curr b mc h = (schedule_lem curr b mc).3 x y rest

some_turns :
    (xs ys : List ℕ) (curr : Option ℕ) (b : Bool) (mc : Machine)
    → 2 ≤ length (xs ++ ys)
    → TurnsTo (turns (length xs) (ready curr (xs ++ ys) b) mc) xs (ys ++ xs)
unfolding turns
some_turns [] ys curr b mc h =
    (curr, b, mc, ap (λ l. ok ([], ready curr l b, mc)) (sym (append-nil ys)))
some_turns (x ∷ xs) ys curr b mc h =
    let mc' : Machine = process_context_swtich curr x mc in
    let order : (xs ++ ys) ++ x ∷ [] ≡ xs ++ (ys ++ x ∷ []) = append_assoc xs ys (x ∷ []) in
    let count = length-append (xs ++ ys) (x ∷ []) in
    let (c, b', end, e) =
      some_turns xs (ys ++ x ∷ []) (some x) false mc'
        (omega (arith, count, ap (λ l. length l) order)) in
    (
      c,
      b',
      end,
      rw (one_turn x (xs ++ ys) curr b mc (omega arith), order, e, append_assoc ys (x ∷ []) xs)
          refl,
    )

pub turns_lem :
    (xs : List ℕ) (curr : Option ℕ) (b : Bool) (mc : Machine)
    → 2 ≤ length xs
    → TurnsTo (turns (length xs) (ready curr xs b) mc) xs xs
turns_lem xs curr b mc h =
    subst (λ l. TurnsTo (turns (length xs) (ready curr l b) mc) xs xs) (append-nil xs)
      (some_turns xs [] curr b mc (omega (arith, ap (λ l. length l) (append-nil xs))))
