-- ===== src/Libc/Message.antt =====
-- One message of `umain` of src/user/main.c, from the calls of the program to the screen.
use almeida_os.Base.{
  ℕ, suc, ◌+◌, ◌-◌, ◌/◌, ◌^◌, ◌≤◌, ◌<◌, ◌≡◌, refl, ap, ◌∙◌, subst, ◌≢◌, inl, inr, true, false, ◌&&◌,
  some, List, [], ◌∷◌, ◌++◌, arith, ltb, leb, Bool-cases, length, get_or, length-append, Run, ok,
  bug, running, ◌>>=◌,
}
use almeida_os.Text.{Chars}
use almeida_os.Text.Reverse.{read_number}
use almeida_os.Clock.Rtc.{sys_time}
use almeida_os.Console.Log.{HoldsLog}
use almeida_os.Console.Serial.{chances}
use almeida_os.Console.Printk.{printk_info_level, IsPlain, Printed}
use almeida_os.Syscall.{System, sys_write, sys_getpid, syscall_handler}
use almeida_os.Syscall.Write.{HasText, IsKernelMemory, Keeps, Halts, Written, sys_write_lem}
use almeida_os.Libc.{
  syscall, call_registers, write, getpid, time, process_word, time_words, with_text, umain_message,
}
use almeida_os.Libc.Number.{is_printed, all_printed, all_printed-append, number_lem}

tail_printed : (c : ℕ) (cs : Chars) → all_printed (c ∷ cs) ≡ true → all_printed cs ≡ true
tail_printed c cs h = elim (Bool-cases (is_printed c)) [
  | inl e ↦ subst (λ t. t && all_printed cs ≡ true) e h
  | inr e ↦ let bad : false ≡ true = subst (λ t. t && all_printed cs ≡ true) e h in cc
]

head_printed : (c : ℕ) (cs : Chars) → all_printed (c ∷ cs) ≡ true → (c ≢ 37) × (c ≢ 9) × (c ≢ 0)
head_printed c cs h = (ground arith, ground arith, ground arith)

printed-IsPlain : (cs : Chars) → all_printed cs ≡ true → IsPlain cs
printed-IsPlain [] h = tt
printed-IsPlain (c ∷ cs) h =
    let (a, b, z) = head_printed c cs h in (a, b, printed-IsPlain cs (tail_printed c cs h))

-- A text in a buffer, with a NUL behind it.
printed-HasText :
    (cs : Chars) (bytes : ℕ → ℕ) (i : ℕ)
    → all_printed cs ≡ true
    → ((j : ℕ) → j ≤ length cs → bytes (i + j) ≡ get_or cs j 0)
    → HasText bytes i cs
printed-HasText [] bytes i h at = ap bytes (omega arith) ∙ at 0 (omega arith)
printed-HasText (c ∷ cs) bytes i h at =
    let (a, b, z) = head_printed c cs h in
    (
      ap bytes (omega arith) ∙ at 0 (omega arith),
      z,
      printed-HasText cs bytes (suc i) (tail_printed c cs h)
          (λ j l. ap bytes (omega arith) ∙ at (suc j) (omega arith)),
    )

with_text-HasText :
    (msg : ℕ) (text : Chars) (user : ℕ → ℕ)
    → all_printed text ≡ true
    → length text < 100
    → HasText (with_text msg text user) msg text
unfolding with_text
with_text-HasText msg text user h short =
    printed-HasText text (with_text msg text user) msg h (λ j l.
      let inside : (leb msg (msg + j) && ltb (msg + j) (msg + 100)) ≡ true = ground arith in
      let place : msg + j - msg ≡ j = omega arith in rw (with_text, inside, place) refl)

-- What a message comes to: it names the process and the seconds, and is printed.
abbrev pub Announces : List Chars → ℕ → ℕ → System → Run (Chars × System) → Type 0
Announces log pid seconds s (ok (text, s')) =
    ((p : Chars) × (now : Chars) × (text ≡ process_word ++ (p ++ (time_words ++ now)))
      × (read_number 10 0 p ≡ pid)
      × (read_number 10 0 now ≡ seconds))
    × Printed log text s.printer s'.printer
    × Keeps s.world.memory s'.world.memory
Announces log pid seconds s bug = (n : ℕ) × (n ≤ 100) × Halts n s.world.memory
Announces log pid seconds s running = ⊥

module _ (log : List Chars) (user block : ℕ → ℕ) (reach msg task : ℕ) (s : System)
    (current : s.scheduler.run_queue.curr ≡ some task)
    (positive : (s.world.tasks task).pid < 2 ^ 63) (clock : s.rtc_curr_unixtime < 2 ^ 63)
    (given : 0 < msg) (far : 100 ≤ reach) (memory : IsKernelMemory s.world.memory)
    (room : 100 ≤ s.world.memory.ref.content_mem_reg.length)
    (ready : s.printer.serial.initialised ≡ true)
    (level : printk_info_level ≤ s.printer.logging_level)
    (chance : 100 ≤ chances s.printer.status) where
  abbrev pid : ℕ
  pid = (s.world.tasks task).pid

  abbrev seconds : ℕ
  seconds = s.rtc_curr_unixtime / 1000

  getpid_lem : getpid user block reach s ≡ ok (pid, s)
  unfolding getpid syscall syscall_handler call_registers sys_getpid
  getpid_lem = rw (getpid, syscall, syscall_handler, sys_getpid, current) refl

  time_lem : time user block reach s ≡ ok (seconds, s)
  unfolding time syscall syscall_handler call_registers sys_time
  time_lem = refl

  write_lem :
      (text : Chars)
      → write (with_text msg text user) block reach msg (length text + 1) s
        ≡ sys_write (with_text msg text user) block reach [] msg (length text + 1) s
  unfolding write syscall syscall_handler call_registers
  write_lem text = refl

  -- what a message comes to, from what its `sys_write` comes to
  announced :
      (text p now : Chars)
      → text ≡ process_word ++ (p ++ (time_words ++ now))
      → read_number 10 0 p ≡ pid
      → read_number 10 0 now ≡ seconds
      → length text < 100
      → (res : Run (ℕ × System)) → Written log text (length text + 1) s res
      → Announces log pid seconds s (res >>= λ r. ok (text, r.1))
  announced text p now e a b short (ok (n, s')) (same, printed, kept, rest) =
      ((p, now, e, a, b), printed, kept)
  announced text p now e a b short bug halts = (length text + 1, omega arith, halts)
  announced text p now e a b short running w = absurd w

  message_printed :
      (p now : Chars)
      → all_printed p ≡ true
      → all_printed now ≡ true
      → length p ≤ 19
      → length now ≤ 19
      → (all_printed (process_word ++ (p ++ (time_words ++ now))) ≡ true)
        × (length (process_word ++ (p ++ (time_words ++ now))) < 100)
  message_printed p now a b c d = (
    all_printed-append process_word (p ++ (time_words ++ now)) refl
        (all_printed-append p (time_words ++ now) a (all_printed-append time_words now refl b)),
    omega (
      arith,
      length-append process_word (p ++ (time_words ++ now)),
      length-append p (time_words ++ now),
      length-append time_words now,
    ),
  )

  pub umain_message_lem :
      HoldsLog log s.printer.console
      → Announces log pid seconds s (umain_message user block reach msg s)
  unfolding umain_message
  umain_message_lem holds =
      let (p, run, p_value, p_printed, p_short) = number_lem pid positive in
      let (now, run', now_value, now_printed, now_short) = number_lem seconds (omega arith) in
      let text : Chars = process_word ++ (p ++ (time_words ++ now)) in
      let (whole, short) = message_printed p now p_printed now_printed p_short now_short in
      let user' : ℕ → ℕ = with_text msg text user in
      rw
        (umain_message, getpid_lem, ◌>>=◌, run, ◌>>=◌, time_lem, ◌>>=◌, run', ◌>>=◌, write_lem text)
        (announced text p now refl p_value now_value short
          (sys_write user' block reach [] msg (length text + 1) s)
          (sys_write_lem log text user' block reach msg (length text + 1) s given
            (with_text-HasText msg text user whole short) (omega arith) (omega arith) memory
            (omega arith) holds (printed-IsPlain text whole) ready level (omega arith)
            (omega arith)))
