-- ===== src/Console/Screen.antt =====
-- The cursor stays in the content area and the row of the status bar is left alone.
use hypnos.Base.{
  ◌==◌, List, [], ◌∷◌, Option, none, some, ℕ, zero, suc, ◌+◌, ◌*◌, ◌-◌, ◌<◌, ◌≤◌, ◌^◌, ◌%◌, ◌≡◌,
  refl, ◌∙◌, Bool, true, false, ◌||◌, if◌then◌else◌, ltb, leb, ltb→lt, arith, length, get_or, set,
  length-set, get_or-set_ne,
}
use hypnos.Console.{
  Console, console_put_at, move_row, move_rows, fill, scroll_up, console_scroll,
  console_clear_to_eol, vga_set_hw_cursor, sync, next_row, new_line, back_space, vga_width,
  vga_entry, make_room, console_write, put_char, console_putc, write_all, CString,
}

-- The cursor is above the status row, and at most one place behind the end of its row.
pub record IsScreen (c : Console) : Type 0 where
  pub cells : length c.vga_buffer ≡ 2000
  pub row_in : c.row < 24
  pub col_in : c.col ≤ 80

-- The cells from `new` are as many as before, and those of the status row are the same.
pub record SameStatus (old new : List ℕ) : Type 0 where
  pub size : length new ≡ length old
  pub status : (i : ℕ) → 1920 ≤ i → get_or new i 0 ≡ get_or old i 0

-- The screen is right again, with the same status row.
pub record Keeps (c c' : Console) : Type 0 where
  pub screen : IsScreen c'
  pub same : SameStatus c.vga_buffer c'.vga_buffer

SameStatus_refl : (cells : List ℕ) → SameStatus cells cells
SameStatus_refl cells = record { size = refl; status = λ i le. refl }

SameStatus_trans : (a b c : List ℕ) → SameStatus a b → SameStatus b c → SameStatus a c
SameStatus_trans a b c p q = record {
  size = q.size ∙ p.size;
  status = λ i le. q.status i le ∙ p.status i le;
}

set-SameStatus : (cells : List ℕ) (j v : ℕ) → j < 1920 → SameStatus cells (set cells j v)
set-SameStatus cells j v lt = record {
  size = length-set cells j v;
  status = λ i le. get_or-set_ne cells j i v 0 (omega arith);
}

fill-SameStatus :
    (v i rounds : ℕ) (cells : List ℕ) → i + rounds ≤ 1920 → SameStatus cells (fill v i rounds cells)
unfolding fill
fill-SameStatus v i zero cells le = SameStatus_refl cells
fill-SameStatus v i (suc r) cells le =
    SameStatus_trans _ _ _ (set-SameStatus cells i v (omega arith))
      (fill-SameStatus v (i + 1) r (set cells i v) (omega arith))

move_row-SameStatus :
    (y x rounds : ℕ) (cells : List ℕ)
    → y ≤ 23
    → x + rounds ≤ 80
    → SameStatus cells (move_row y x rounds cells)
unfolding move_row
move_row-SameStatus y x zero cells ly lx = SameStatus_refl cells
move_row-SameStatus y x (suc r) cells ly lx =
    SameStatus_trans _ _ _ (set-SameStatus cells ((y - 1) * vga_width + x) _ (omega arith))
      (move_row-SameStatus y (x + 1) r _ ly (omega arith))

move_rows-SameStatus :
    (y rounds : ℕ) (cells : List ℕ) → y + rounds ≤ 24 → SameStatus cells (move_rows y rounds cells)
unfolding move_rows
move_rows-SameStatus y zero cells le = SameStatus_refl cells
move_rows-SameStatus y (suc r) cells le =
    SameStatus_trans _ _ _ (move_row-SameStatus y 0 80 cells (omega arith) (omega arith))
      (move_rows-SameStatus (y + 1) r _ (omega arith))

Keeps-of :
    (c c' : Console)
    → length c.vga_buffer ≡ 2000
    → SameStatus c.vga_buffer c'.vga_buffer
    → c'.row < 24
    → c'.col ≤ 80
    → Keeps c c'
Keeps-of c c' len same row col = record {
  screen = record { cells = same.size ∙ len; row_in = row; col_in = col };
  same = same;
}

if-Keeps :
    (b : Bool) (c x y : Console)
    → (b ≡ true → Keeps c x)
    → (b ≡ false → Keeps c y)
    → Keeps c (if b then x else y)
if-Keeps true c x y p q = p refl
if-Keeps false c x y p q = q refl

Keeps-trans : (a b c : Console) → Keeps a b → Keeps b c → Keeps a c
Keeps-trans a b c p q = record { screen = q.screen; same = SameStatus_trans _ _ _ p.same q.same }

scroll_up-Keeps : (c : Console) → length c.vga_buffer ≡ 2000 → c.col ≤ 80 → Keeps c (scroll_up c)
unfolding scroll_up vga_set_hw_cursor
scroll_up-Keeps c len col =
    Keeps-of c (scroll_up c) len
      (SameStatus_trans _ _ _ (move_rows-SameStatus 1 23 c.vga_buffer (omega arith))
        (fill-SameStatus (vga_entry b' ' c.color) 1840 80 _ (omega arith)))
      (omega arith) (ground arith)

console_scroll-Keeps :
    (c : Console) → length c.vga_buffer ≡ 2000 → c.col ≤ 80 → Keeps c (console_scroll c)
unfolding console_scroll
console_scroll-Keeps c len col =
    if-Keeps (ltb c.row 24) c c (scroll_up c)
      (λ e. Keeps-of c c len (SameStatus_refl c.vga_buffer) (ltb→lt c.row 24 e) col)
      (λ e. scroll_up-Keeps c len col)

console_clear_to_eol-Keeps : (c : Console) → IsScreen c → Keeps c (console_clear_to_eol c)
unfolding console_clear_to_eol vga_set_hw_cursor
console_clear_to_eol-Keeps c v =
    Keeps-of c (console_clear_to_eol c) v.cells
      (fill-SameStatus (vga_entry b' ' c.color) (c.row * 80 + c.col) (80 - c.col) c.vga_buffer
        (omega (arith, v.row_in, v.col_in)))
      v.row_in v.col_in

next_row-Keeps : (c : Console) → IsScreen c → Keeps c (next_row c)
unfolding next_row
next_row-Keeps c v =
    let r =
      console_scroll-Keeps (record c { row = (c.row + 1) % 2 ^ 32; col = 0 }) v.cells
        (omega arith) in
    Keeps-of c (next_row c) v.cells r.same r.screen.row_in r.screen.col_in

new_line-Keeps : (c : Console) → IsScreen c → Keeps c (new_line c)
unfolding new_line sync vga_set_hw_cursor
new_line-Keeps c v =
    let a = console_clear_to_eol-Keeps c v in
    let b = next_row-Keeps (console_clear_to_eol c) a.screen in
    let r = Keeps-trans _ _ _ a b in
    Keeps-of c (new_line c) v.cells r.same r.screen.row_in r.screen.col_in

if-same_col : (b : Bool) (x y : Console) → x.col ≡ y.col → (if b then x else y).col ≡ y.col
if-same_col true x y p = p
if-same_col false x y p = refl

put_at-col : (ch x y : ℕ) (c : Console) → (console_put_at ch x y c).col ≡ c.col
unfolding console_put_at
put_at-col ch x y c = if-same_col (leb 80 x || leb 25 y) c _ refl

-- A character that is put above the status row moves nothing.
put_at-Keeps : (ch x y : ℕ) (c : Console) → y < 24 → IsScreen c → Keeps c (console_put_at ch x y c)
unfolding console_put_at
put_at-Keeps ch x y c ly v =
    if-Keeps (leb 80 x || leb 25 y) c c _
      (λ e. Keeps-of c c v.cells (SameStatus_refl c.vga_buffer) v.row_in v.col_in)
      (λ e.
        let lx : x < 80 = ground arith in
        Keeps-of c (record c { vga_buffer = set c.vga_buffer (y * 80 + x) (vga_entry ch c.color) })
          v.cells (set-SameStatus c.vga_buffer (y * 80 + x) (vga_entry ch c.color) (omega arith))
          v.row_in v.col_in)

sync-Keeps : (c d : Console) → IsScreen c → Keeps c d → Keeps c (sync d)
unfolding sync vga_set_hw_cursor
sync-Keeps c d v k = Keeps-of c (sync d) v.cells k.same k.screen.row_in k.screen.col_in

back_space-Keeps : (c : Console) → IsScreen c → Keeps c (back_space c)
unfolding back_space
back_space-Keeps c v =
    let left : Console = record c { col = c.col - 1 } in
    let moved : IsScreen left = record {
      cells = v.cells;
      row_in = v.row_in;
      col_in = omega (arith, v.col_in);
    } in
    let put = put_at-Keeps b' ' (c.col - 1) c.row left v.row_in moved in
    if-Keeps (ltb 0 c.col) c _ (sync c)
      (λ e. sync-Keeps c _ v (
        Keeps-of c (console_put_at b' ' (c.col - 1) c.row left) v.cells put.same put.screen.row_in
          put.screen.col_in))
      (λ e.
        sync-Keeps c c v (Keeps-of c c v.cells (SameStatus_refl c.vga_buffer) v.row_in v.col_in))

-- Kept, with room in its row for one more character.
record Roomy (c d : Console) : Type 0 where
  kept : Keeps c d
  room : d.col < 80

if-Roomy :
    (b : Bool) (c x y : Console)
    → (b ≡ true → Roomy c x)
    → (b ≡ false → Roomy c y)
    → Roomy c (if b then x else y)
if-Roomy true c x y p q = p refl
if-Roomy false c x y p q = q refl

if-col : (b : Bool) (x y : Console) → x.col < 80 → y.col < 80 → (if b then x else y).col < 80
if-col true x y p q = p
if-col false x y p q = q

scroll_up-col : (c : Console) → (scroll_up c).col < 80
unfolding scroll_up vga_set_hw_cursor
scroll_up-col c = ground arith

next_row-col : (c : Console) → (next_row c).col < 80
unfolding next_row console_scroll
next_row-col c =
    let d : Console = record c { row = (c.row + 1) % 2 ^ 32; col = 0 } in
    if-col (ltb d.row 24) d (scroll_up d) (omega arith) (scroll_up-col d)

make_room-Roomy : (c : Console) → IsScreen c → Roomy c (make_room c)
unfolding make_room
make_room-Roomy c v =
    let wrapped : Console = if leb 80 c.col then next_row c else c in
    let w : Roomy c wrapped =
      if-Roomy (leb 80 c.col) c (next_row c) c
        (λ e. record { kept = next_row-Keeps c v; room = next_row-col c })
        (λ e. record {
          kept = Keeps-of c c v.cells (SameStatus_refl c.vga_buffer) v.row_in v.col_in;
          room = ground arith;
        }) in
    if-Roomy (leb 24 wrapped.row) c (console_scroll wrapped) wrapped
      (λ e. absurd (ground (arith, w.kept.screen.row_in))) (λ e. w)

put_char-Keeps : (ch : ℕ) (c : Console) → IsScreen c → c.col < 80 → Keeps c (put_char ch c)
unfolding put_char
put_char-Keeps ch c v lt =
    let put = put_at-Keeps ch c.col c.row c v.row_in v in
    let col : (console_put_at ch c.col c.row c).col ≡ c.col = put_at-col ch c.col c.row c in
    sync-Keeps c _ v (
      Keeps-of c
        (record (console_put_at ch c.col c.row c) {
          col = ((console_put_at ch c.col c.row c).col + 1) % 2 ^ 32;
        })
        v.cells put.same put.screen.row_in (omega (arith, col)))

-- On a screen whose cursor is above the status row, every character leaves the cursor above the
-- status row and at most one place behind the end of its row, and no cell of the status row changes.
pub console_putc-Keeps : (ch : ℕ) (c : Console) → IsScreen c → Keeps c (console_putc ch c)
unfolding console_putc
console_putc-Keeps ch c v =
    let r = make_room-Roomy c v in
    if-Keeps (ch == b'\n') c _ _ (λ e. new_line-Keeps c v)
      (λ e.
        if-Keeps (ch == b'\r') c _ _
          (λ e.
            sync-Keeps c (record c { col = 0 }) v
              (Keeps-of c (record c { col = 0 }) v.cells (SameStatus_refl c.vga_buffer) v.row_in
                (omega arith)))
          (λ e.
            if-Keeps (ch == 8) c _ _ (λ e. back_space-Keeps c v)
              (λ e.
                Keeps-trans c (make_room c) (put_char ch (make_room c)) r.kept
                  (put_char-Keeps ch (make_room c) r.kept.screen r.room))))

write_all-Keeps : (s : CString) (c : Console) → IsScreen c → Keeps c (write_all s c)
unfolding write_all
write_all-Keeps [] c v = Keeps-of c c v.cells (SameStatus_refl c.vga_buffer) v.row_in v.col_in
write_all-Keeps (ch ∷ s) c v =
    let k = console_putc-Keeps ch c v in
    Keeps-trans c (console_putc ch c) _ k (write_all-Keeps s (console_putc ch c) k.screen)

-- Whatever string is written to a screen whose cursor is above the status row, the cursor stays above
-- it and no cell of the status row changes.
pub console_write-Keeps :
    (s : Option CString) (c : Console) → IsScreen c → Keeps c (console_write s c)
unfolding console_write
console_write-Keeps none c v = Keeps-of c c v.cells (SameStatus_refl c.vga_buffer) v.row_in v.col_in
console_write-Keeps (some s) c v = write_all-Keeps s c v
