-- ===== src/Task/Scheduler.antt =====
-- src/kernel/task/scheduler.c: one run queue, whose tasks take turns. The list holds the addresses of
-- the tasks; the nodes that `kmalloc` gives it carry no other data.
use almeida_os.Base.{
  ℕ, ◌%◌, Bool, true, false, ◌&&◌, ◌||◌, not, Option, none, some, List, [], ◌∷◌, ◌==◌,
  if◌then◌else◌, Run, ok, bug, ◌>>=◌, ◌>>◌, bug_on,
}
use almeida_os.Task.Process.{Machine, process_context_swtich}

-- `sched_run_queue_t`; NULL is `none`
pub record RunQueue : Type 0 where
  pub curr : Option ℕ
  pub tasks : List ℕ
  pub need_resched : Bool

-- the variables of the file
pub record Scheduler : Type 0 where
  pub initialised : Bool
  pub run_queue : RunQueue

abbrev pub is_empty : List ℕ → Bool
is_empty [] = true
is_empty (x ∷ xs) = false

unfoldable pub scheduler_init : ℕ → Scheduler → Run Scheduler
scheduler_init init_proc s = do
  bug_on (not (is_empty s.run_queue.tasks))
  ok (record { initialised = true; run_queue = record s.run_queue { tasks = init_proc ∷ [] } })

abbrev pub is_none : Option ℕ → Bool
is_none none = true
is_none (some t) = false

unfoldable pub scheduler_tick : ℕ → Scheduler → Scheduler
scheduler_tick jiffies s =
    if not s.initialised
    then s
    else if is_none s.run_queue.curr || jiffies % 10 == 0
    then record s { run_queue = record s.run_queue { need_resched = true } }
    else s

-- The walk to the tail; without a head, reading `head->next` is a fatal trap.
unfoldable pub move_end_of_list : ℕ → List ℕ → Run (List ℕ)
move_end_of_list element [] = bug
move_end_of_list element (head ∷ []) = ok (head ∷ element ∷ [])
move_end_of_list element (head ∷ next ∷ rest) = do
  tail ← move_end_of_list element (next ∷ rest)
  ok (head ∷ tail)

unfoldable pub scheduler_add : ℕ → Scheduler → Run Scheduler
scheduler_add task s = do
  tasks ← move_end_of_list task s.run_queue.tasks
  ok (record s { run_queue = record s.run_queue { tasks = tasks } })

-- the queue once its head is put at its end, if it has a second task
unfoldable pub rotate : ℕ → List ℕ → Run (List ℕ)
rotate head [] = ok (head ∷ [])
rotate head (next ∷ rest) = move_end_of_list head (next ∷ rest)

unfoldable pub schedule : Scheduler → Machine → Run (Scheduler × Machine)
schedule s mc = do
  bug_on (not s.initialised)
  elim s.run_queue.tasks [
    | [] ↦ ok (s, mc)
    | head ∷ rest ↦ if not (is_none s.run_queue.curr) && is_empty rest then ok (s, mc) else do
      tasks ← rotate head rest
      ok (
        record s { run_queue = record { curr = some head; tasks = tasks; need_resched = false } },
        process_context_swtich s.run_queue.curr head mc,
      )
  ]
