-- ===== src/Console.antt =====
-- src/kernel/video/vga_console.c: the screen of 25 rows of 80 cells, over the ring buffer of the last
-- lines. A cell is its character; each is written with the attribute 0xf.
pub mod Lines
pub mod Shown
pub mod Log
pub mod Serial
pub mod Printk
use almeida_os.Base.{
  ℕ, zero, suc, ◌+◌, ◌-◌, ◌*◌, ◌/◌, ◌%◌, ◌^◌, ◌≤◌, ◌<◌, min, max, ◌≡◌, refl, sym, ap, ap₂, ◌∙◌,
  subst, fun_ext, ◌≢◌, ◌↔◌, ◌⊎◌, inl, inr, Bool, true, false, ◌&&◌, ◌||◌, not, Option, none, some,
  List, [], ◌∷◌, ◌++◌, map, arith, ltb, leb, ◌==◌, if◌then◌else◌, ltb→lt, lt→ltb, ltb→le, le→ltb,
  ==→eq, eq→==, tests, Bool-cases, Option-cases, length, get_or, set, length-set, get_or-set_self,
  get_or-set_ne, length-append, Run, ok, bug, running, ◌>>=◌, ◌>>◌, bug_on,
}
use almeida_os.Word.{u8, u16}
use almeida_os.RingBuffer.{RingBuffer, ringbuffer_init, ringbuffer_put, ringbuffer_for_each}
use almeida_os.Text.{Chars}
use almeida_os.Text.Format.{write_chars}

-- the variables of the file, the video memory and the place of the cursor
pub record Console : Type 0 where
  pub row : ℕ
  pub msg_buffer : RingBuffer Chars
  pub screen : ℕ → ℕ
  pub cursor : ℕ

abbrev pub vga_max_cols : ℕ
vga_max_cols = 80

abbrev pub vga_max_rows : ℕ
vga_max_rows = 25

-- The two halves of the position go to the ports in turn.
unfoldable pub update_cursor : ℕ → ℕ → Console → Console
update_cursor row col c =
    let visible : ℕ = if row == vga_max_rows then row - 1 else if row == 0 then row + 1 else row in
    record c { cursor = u16 (visible * vga_max_cols + col) }

abbrev pub repeat : ℕ → ℕ → Chars
repeat zero c = []
repeat (suc n) c = c ∷ repeat n c

unfoldable pub clear_console : Console → Console
clear_console c = update_cursor 0 0 (record c {
  screen = write_chars (repeat (vga_max_cols * vga_max_rows) 32) 0 c.screen;
  row = 0;
})

unfoldable pub vga_console_init : Console → Console
vga_console_init c = clear_console (record c { msg_buffer = ringbuffer_init c.msg_buffer })

-- what the loop before the test of its end writes of a line: its characters, or the NUL alone
abbrev pub written : Chars → Chars
written [] = 0 ∷ []
written (c ∷ cs) = c ∷ cs

-- The rest of the line is blanked, up to its last cell but one; `idx` is a byte.
unfoldable pub write_line_to_dma : Chars → Console → Console
write_line_to_dma buf c =
    let line : Chars = written buf in
    record c {
      screen =
          write_chars (line ++ repeat (vga_max_cols - 1 - u8 (length line)) 32)
            (c.row * vga_max_cols) c.screen;
      row = c.row + 1;
    }

-- the loop over the text, with the line that it has begun
unfoldable pub text_loop : Chars → Chars → RingBuffer Chars → Chars × RingBuffer Chars
text_loop [] line buf = (line, buf)
text_loop (c ∷ cs) line buf =
    let line' : Chars = if not (c == 10) then line ++ c ∷ [] else line in
    elim (c == 10 || length line' == vga_max_cols - 1) [
      | true ↦ text_loop cs [] (ringbuffer_put line' buf)
      | false ↦ text_loop cs line' buf
    ]

-- the last line, if it is begun
unfoldable pub put_rest : Chars → RingBuffer Chars → RingBuffer Chars
put_rest [] buf = buf
put_rest (c ∷ cs) buf = ringbuffer_put (c ∷ cs) buf

unfoldable pub write_lines : List Chars → Console → Console
write_lines [] c = c
write_lines (l ∷ ls) c = write_lines ls (write_line_to_dma l c)

-- The text is given without the NUL that `buf_size` counts.
unfoldable pub write_console : Chars → Console → Run Console
write_console text c = do
  let (line, buf) = text_loop text [] c.msg_buffer
  let msg_buffer : RingBuffer Chars = put_rest line buf
  lines ← ringbuffer_for_each msg_buffer
  let shown : Console = write_lines lines (record c { msg_buffer = msg_buffer; row = 0 })
  ok (update_cursor shown.row 0 shown)
