-- ===== src/Console/Log.antt =====
-- The screen of src/kernel/video/vga_console.c as a window on the log of all lines.
use almeida_os.Base.{
  ℕ, zero, suc, ◌+◌, ◌-◌, ◌*◌, ◌≤◌, ◌<◌, min, ◌≡◌, refl, sym, ap, ◌∙◌, List, [], ◌∷◌, ◌++◌, arith,
  length, ok,
}
use almeida_os.RingBuffer.{RingBuffer, ringbuffer_init, ringbuffer_put, ringbuffer_for_each}
use almeida_os.RingBuffer.Rounds.{segment}
use almeida_os.RingBuffer.Latest.{puts, ringbuffer_for_each-puts}
use almeida_os.Text.{Chars}
use almeida_os.Console.{Console, write_lines, text_loop, put_rest, write_console, update_cursor}
use almeida_os.Console.Lines.{
  lines_from, put_all, put_all-append, text_loop_lem, NoBreak, AllLines, lines_from-AllLines,
}
use almeida_os.Console.Shown.{cell_of, nth_line, rows_here, rows_end}

put_all-puts :
    (xs : List Chars) (s : ℕ → Chars) (k : ℕ) (b : RingBuffer Chars)
    → ((i : ℕ) → i < length xs → s (k + i) ≡ nth_line xs i)
    → put_all xs (puts s k b) ≡ puts s (k + length xs) b
put_all-puts [] s k b h = let e : k + 0 ≡ k = omega arith in rw e refl
put_all-puts (x ∷ xs) s k b h =
    let first : s k ≡ x = ap s (omega arith) ∙ h 0 (omega arith) in
    let more : k + suc (length xs) ≡ suc k + length xs = omega arith in
    ap (λ y. put_all xs (ringbuffer_put y (puts s k b))) (sym first)
    ∙ put_all-puts xs s (suc k) b (λ i l. ap s (omega arith) ∙ h (suc i) (omega arith))
    ∙ ap (λ n. puts s n b) (sym more)

nth-segment :
    (s : ℕ → Chars) (start n j : ℕ) → j < n → nth_line (segment s start n) j ≡ s (start + j)
nth-segment s start zero j h = absurd (omega arith)
nth-segment s start (suc n) zero h = ap s (omega arith)
nth-segment s start (suc n) (suc j) h =
    nth-segment s (start + 1) n j (omega arith) ∙ ap s (omega arith)

length-segment : (s : ℕ → Chars) (start n : ℕ) → length (segment s start n) ≡ n
length-segment s start zero = refl
length-segment s start (suc n) = ap suc (length-segment s (start + 1) n)

AllLines-nth :
    (ls : List Chars) (i : ℕ)
    → AllLines ls
    → i < length ls
    → (length (nth_line ls i) ≤ 79) × NoBreak (nth_line ls i)
AllLines-nth [] i all h = absurd (omega arith)
AllLines-nth (l ∷ ls) zero (a, b, all) h = (a, b)
AllLines-nth (l ∷ ls) (suc i) (a, b, all) h = AllLines-nth ls i all (omega arith)

AllLines-segment :
    (s : ℕ → Chars) (start n : ℕ)
    → ((i : ℕ) → i < start + n → (length (s i) ≤ 79) × NoBreak (s i))
    → AllLines (segment s start n)
AllLines-segment s start zero h = tt
AllLines-segment s start (suc n) h =
    let (a, b) = h start (omega arith) in
    (a, b, AllLines-segment s (start + 1) n (λ i l. h i (omega arith)))

AllLines-append : (xs ys : List Chars) → AllLines xs → AllLines ys → AllLines (xs ++ ys)
AllLines-append [] ys a b = b
AllLines-append (x ∷ xs) ys (p, q, a) b = (p, q, AllLines-append xs ys a b)

-- The ring buffer has got the lines of a log, each of at most 79 characters and with no break in it.
abbrev pub HoldsLog : List Chars → Console → Type 0
HoldsLog log c =
    ((b : RingBuffer Chars) × (b.size ≡ 24) × (c.msg_buffer ≡ put_all log (ringbuffer_init b)))
    × AllLines log

-- The first 79 cells of the upper rows show the last lines of a log, 24 or as many as it has.
abbrev pub ShowsLog : List Chars → Console → Type 0
ShowsLog log c =
    (row col : ℕ)
    → row < min (length log) 24
    → col < 79
    → c.screen (row * 80 + col) ≡ cell_of (nth_line log (length log - 24 + row)) col

log_shown :
    (log : List Chars) (b : RingBuffer Chars)
    → b.size ≡ 24
    → ringbuffer_for_each (put_all log (ringbuffer_init b))
      ≡ ok (segment (nth_line log) (length log - 24) (min (length log) 24))
log_shown log b e =
    let all : 0 + length log ≡ length log = omega arith in
    ap ringbuffer_for_each (
      put_all-puts log (nth_line log) 0 (ringbuffer_init b) (λ i h. ap (nth_line log) (omega arith))
      ∙ ap (λ n. puts (nth_line log) n (ringbuffer_init b)) all)
    ∙ ringbuffer_for_each-puts (nth_line log) (length log) b (omega (arith, e))
    ∙ ap (λ n. ok (segment (nth_line log) (length log - n) (min (length log) n))) e

cursor_keeps :
    (row : ℕ) (c : Console)
    → ((update_cursor row 0 c).msg_buffer ≡ c.msg_buffer)
      × ((update_cursor row 0 c).screen ≡ c.screen)
unfolding update_cursor
cursor_keeps row c = (refl, refl)

pub write_console_lem :
    (log : List Chars) (text : Chars) (c : Console)
    → HoldsLog log c
    → (c' : Console) × (write_console text c ≡ ok c')
      × HoldsLog (log ++ lines_from text []) c'
      × ShowsLog (log ++ lines_from text []) c'
unfolding write_console
write_console_lem log text c ((b, size, held), all) =
    let log' : List Chars = log ++ lines_from text [] in
    let n : ℕ = min (length log') 24 in
    let lines : List Chars = segment (nth_line log') (length log' - 24) n in
    let buffer : put_rest (text_loop text [] c.msg_buffer).0 (text_loop text [] c.msg_buffer).1
        ≡ put_all log' (ringbuffer_init b) =
      text_loop_lem text [] c.msg_buffer
      ∙ ap (put_all (lines_from text [])) held
      ∙ sym (put_all-append log (lines_from text []) (ringbuffer_init b)) in
    let all' : AllLines log' =
      AllLines-append log (lines_from text []) all (lines_from-AllLines text [] (omega arith) tt) in
    let short : AllLines lines =
      AllLines-segment (nth_line log') (length log' - 24) n
        (λ i h. AllLines-nth log' i all' (omega arith)) in
    let from : Console = record c { msg_buffer = put_all log' (ringbuffer_init b); row = 0 } in
    let shown : Console = write_lines lines from in
    let (kept, screen) = cursor_keeps shown.row shown in
    (
      update_cursor shown.row 0 shown,
      rw (write_console, buffer, log_shown log' b size) refl,
      ((b, size, kept ∙ (rows_end lines from).1), all'),
      λ row col h w.
          let place : row * 80 + col ≡ (0 + row) * 80 + col = omega arith in
          ap (λ f. f (row * 80 + col)) screen
          ∙ ap shown.screen place
          ∙ rows_here lines from row col short
              (omega (arith, length-segment (nth_line log') (length log' - 24) n)) w
          ∙ ap (λ l. cell_of l col) (nth-segment (nth_line log') (length log' - 24) n row h),
    )
