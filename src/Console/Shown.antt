-- ===== src/Console/Shown.antt =====
-- What the screen of src/kernel/video/vga_console.c shows: the last 24 lines that were written.
use almeida_os.Base.{
  ℕ, zero, suc, ◌+◌, ◌-◌, ◌*◌, ◌≤◌, ◌<◌, ◌≡◌, refl, ap, ◌∙◌, ◌⊎◌, inl, inr, true, false, ◌&&◌, List,
  [], ◌∷◌, ◌++◌, arith, ltb, leb, ◌==◌, if◌then◌else◌, Bool-cases, length, get_or, length-append,
}
use almeida_os.Word.{u8}
use almeida_os.Text.{Chars}
use almeida_os.Text.Format.{write_chars}
use almeida_os.Console.{Console, repeat, written, write_line_to_dma, write_lines}
use almeida_os.Console.Lines.{AllLines}

pub write_chars_lem :
    (cs : Chars) (pos : ℕ) (buf : ℕ → ℕ) (i : ℕ)
    → write_chars cs pos buf i
      ≡ (if leb pos i && ltb i (pos + length cs) then get_or cs (i - pos) 0 else buf i)
unfolding write_chars
write_chars_lem [] pos buf i =
    let e : (leb pos i && ltb i (pos + 0)) ≡ false = ground arith in rw e refl
write_chars_lem (c ∷ cs) pos buf i =
    write_chars_lem cs (suc pos) (λ j. if j == pos then c else buf j) i
    ∙ here (Bool-cases (i == pos))
  where
    here :
        ((i == pos) ≡ true) ⊎ ((i == pos) ≡ false)
        → (if leb (suc pos) i && ltb i (suc pos + length cs)
            then get_or cs (i - suc pos) 0
            else (if i == pos then c else buf i))
          ≡ (if leb pos i && ltb i (pos + length (c ∷ cs))
              then get_or (c ∷ cs) (i - pos) 0
              else buf i)
    here (inl e) =
        let out : (leb (suc pos) i && ltb i (suc pos + length cs)) ≡ false = ground arith in
        let in_ : (leb pos i && ltb i (pos + length (c ∷ cs))) ≡ true = ground arith in
        let z : i - pos ≡ 0 = ground arith in rw (out, in_, e, z) refl
    here (inr e) = elim (Bool-cases (leb (suc pos) i && ltb i (suc pos + length cs))) [
      | inl in_ ↦
          let in' : (leb pos i && ltb i (pos + length (c ∷ cs))) ≡ true = ground arith in
          let z : i - pos ≡ suc (i - suc pos) = ground arith in rw (in_, in', z) refl
      | inr out ↦
          let out' : (leb pos i && ltb i (pos + length (c ∷ cs))) ≡ false = ground arith in
          rw (out, out', e) refl
    ]

length-repeat : (n c : ℕ) → length (repeat n c) ≡ n
length-repeat zero c = refl
length-repeat (suc n) c = ap suc (length-repeat n c)

get_or-repeat : (n c i : ℕ) → i < n → get_or (repeat n c) i 0 ≡ c
get_or-repeat zero c i h = absurd (omega arith)
get_or-repeat (suc n) c zero h = refl
get_or-repeat (suc n) c (suc i) h = get_or-repeat n c i (omega arith)

-- what a line shows in one of the first 79 cells of its row
abbrev pub cell_of : Chars → ℕ → ℕ
cell_of l col = if ltb col (length (written l)) then get_or (written l) col 0 else 32

cells_of :
    (l : Chars) (n col : ℕ)
    → col < length l + n
    → get_or (l ++ repeat n 32) col 0 ≡ (if ltb col (length l) then get_or l col 0 else 32)
cells_of [] n col h =
    let e : ltb col 0 ≡ false = ground arith in rw e (get_or-repeat n 32 col (omega arith))
cells_of (c ∷ cs) n zero h = let e : ltb 0 (suc (length cs)) ≡ true = ground arith in rw e refl
cells_of (c ∷ cs) n (suc col) h =
    let e : ltb (suc col) (suc (length cs)) ≡ ltb col (length cs) = ground arith in
    rw e (cells_of cs n col (omega arith))

length-written : (l : Chars) → length l ≤ 79 → (1 ≤ length (written l)) × (length (written l) ≤ 79)
length-written [] h = (omega arith, omega arith)
length-written (c ∷ cs) h = (omega arith, h)

-- one line on the screen
module _ (l : Chars) (c : Console) (short : length l ≤ 79) where
  line_length : length (written l ++ repeat (80 - 1 - u8 (length (written l))) 32) ≡ 79
  line_length =
      let fits = length-written l short in
      let n = length-append (written l) (repeat (80 - 1 - u8 (length (written l))) 32) in
      let m = length-repeat (80 - 1 - u8 (length (written l))) 32 in omega (arith, fits, n, m)

  line_here :
      (col : ℕ) → col < 79 → (write_line_to_dma l c).screen (c.row * 80 + col) ≡ cell_of l col
  unfolding write_line_to_dma
  line_here col h =
      let k = 80 - 1 - u8 (length (written l)) in
      let fits = length-written l short in
      let inside : (leb (c.row * 80) (c.row * 80 + col)
            && ltb (c.row * 80 + col) (c.row * 80 + length (written l ++ repeat k 32)))
          ≡ true =
        ground (arith, line_length) in
      let place : c.row * 80 + col - c.row * 80 ≡ col = omega arith in
      write_chars_lem (written l ++ repeat k 32) (c.row * 80) c.screen (c.row * 80 + col)
      ∙ rw (inside, place) (cells_of (written l) k col (omega (arith, fits)))

  line_other :
      (i : ℕ)
      → (i < c.row * 80) ⊎ (c.row * 80 + 79 ≤ i)
      → (write_line_to_dma l c).screen i ≡ c.screen i
  unfolding write_line_to_dma
  line_other i out =
      let k = 80 - 1 - u8 (length (written l)) in
      let outside : (leb (c.row * 80) i && ltb i (c.row * 80 + length (written l ++ repeat k 32)))
          ≡ false =
        elim out [ inl a ↦ ground (arith, line_length) | inr a ↦ ground (arith, line_length) ] in
      write_chars_lem (written l ++ repeat k 32) (c.row * 80) c.screen i ∙ rw outside refl

line_row : (l : Chars) (c : Console) → (write_line_to_dma l c).row ≡ c.row + 1
unfolding write_line_to_dma
line_row l c = refl

line_buffer : (l : Chars) (c : Console) → (write_line_to_dma l c).msg_buffer ≡ c.msg_buffer
unfolding write_line_to_dma
line_buffer l c = refl

abbrev pub nth_line : List Chars → ℕ → Chars
nth_line ls j = get_or ls j []

rows_above :
    (ls : List Chars) (c : Console) (i : ℕ)
    → AllLines ls
    → i < c.row * 80
    → (write_lines ls c).screen i ≡ c.screen i
unfolding write_lines
rows_above [] c i all h = refl
rows_above (l ∷ ls) c i (short, _, all) h =
    rows_above ls (write_line_to_dma l c) i all (omega (arith, line_row l c))
    ∙ line_other l c short i (inl h)

pub rows_here :
    (ls : List Chars) (c : Console) (j col : ℕ)
    → AllLines ls
    → j < length ls
    → col < 79
    → (write_lines ls c).screen ((c.row + j) * 80 + col) ≡ cell_of (nth_line ls j) col
unfolding write_lines
rows_here [] c j col all h w = absurd (omega arith)
rows_here (l ∷ ls) c zero col (short, _, all) h w =
    let place : (c.row + zero) * 80 + col ≡ c.row * 80 + col = omega arith in
    ap (write_lines ls (write_line_to_dma l c)).screen place
    ∙ rows_above ls (write_line_to_dma l c) (c.row * 80 + col) all (omega (arith, line_row l c))
    ∙ line_here l c short col w
rows_here (l ∷ ls) c (suc j) col (short, _, all) h w =
    let row = line_row l c in
    let place : (c.row + suc j) * 80 + col ≡ ((write_line_to_dma l c).row + j) * 80 + col =
      omega (arith, row) in
    ap (write_lines ls (write_line_to_dma l c)).screen place
    ∙ rows_here ls (write_line_to_dma l c) j col all (omega arith) w

pub rows_end :
    (ls : List Chars) (c : Console)
    → ((write_lines ls c).row ≡ c.row + length ls) × ((write_lines ls c).msg_buffer ≡ c.msg_buffer)
unfolding write_lines
rows_end [] c = (omega arith, refl)
rows_end (l ∷ ls) c =
    let (row, buf) = rows_end ls (write_line_to_dma l c) in
    (omega (arith, row, line_row l c), buf ∙ line_buffer l c)
