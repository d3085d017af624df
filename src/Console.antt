-- ===== src/Console.antt =====
-- kernel/console.h: the text screen. The 80 by 25 cells are a list of 2000 words, and the hardware
-- cursor is the position its two registers hold. Each C file has its own copy of the cursor and the
-- colour; this is one of them. `size_t` has 32 bits.
pub mod Screen
mod Tests
use hypnos.Base.{
  ℕ, zero, suc, ◌+◌, ◌-◌, ◌*◌, ◌%◌, ◌/◌, ◌^◌, Bool, ◌||◌, List, [], ◌∷◌, Option, none, some, bit_or,
  ◌==◌, ltb, leb, if◌then◌else◌, get_or, set,
}
use hypnos.CStr.{CString}

-- VGA_WIDTH
abbrev pub vga_width : ℕ
vga_width = 80

-- VGA_HEIGHT
abbrev pub vga_height : ℕ
vga_height = 25

pub record Console : Type 0 where
  pub vga_buffer : List ℕ
  pub row : ℕ
  pub col : ℕ
  pub color : ℕ
  pub hw_cursor : ℕ

abbrev pub clamp : ℕ → ℕ → ℕ
clamp size n = if leb size n then size - 1 else n

-- `vga_set_hw_cursor`
unfoldable pub vga_set_hw_cursor : ℕ → ℕ → Console → Console
vga_set_hw_cursor row col c = record c {
  hw_cursor = (clamp vga_height row * vga_width + clamp vga_width col) % 2 ^ 16;
}

-- `vga_get_hw_cursor`
unfoldable pub vga_get_hw_cursor : Console → ℕ × ℕ
vga_get_hw_cursor c =
    (clamp vga_height (c.hw_cursor / vga_width), clamp vga_width (c.hw_cursor % vga_width))

-- `console_get_cursor`, which takes over what the hardware says.
unfoldable pub console_get_cursor : Console → (ℕ × ℕ) × Console
unfolding vga_get_hw_cursor
console_get_cursor c = let (r, k) = vga_get_hw_cursor c in ((r, k), record c { row = r; col = k })

-- `console_set_cursor`
unfoldable pub console_set_cursor : ℕ → ℕ → Console → Console
unfolding vga_set_hw_cursor
console_set_cursor row col c =
    vga_set_hw_cursor (clamp vga_height row) (clamp vga_width col)
      (record c { row = clamp vga_height row; col = clamp vga_width col })

-- `vga_entry` of two bytes
abbrev pub vga_entry : ℕ → ℕ → ℕ
vga_entry ch color = bit_or ch (color * 2 ^ 8)

-- `console_set_color`, with `vga_entry_color`
unfoldable pub console_set_color : ℕ → ℕ → Console → Console
console_set_color fg bg c = record c { color = bit_or fg (bg * 2 ^ 4 % 2 ^ 8) % 2 ^ 8 }

-- `console_put_at`
unfoldable pub console_put_at : ℕ → ℕ → ℕ → Console → Console
console_put_at ch x y c =
    if leb vga_width x || leb vga_height y
    then c
    else record c { vga_buffer = set c.vga_buffer (y * vga_width + x) (vga_entry ch c.color) }

-- The loop that moves row `y` up by one, from column `x` on.
unfoldable pub move_row : ℕ → ℕ → ℕ → List ℕ → List ℕ
move_row y x zero cells = cells
move_row y x (suc rounds) cells =
    move_row y (x + 1) rounds
      (set cells ((y - 1) * vga_width + x) (get_or cells (y * vga_width + x) 0))

-- The loop over the rows from `y` on.
unfoldable pub move_rows : ℕ → ℕ → List ℕ → List ℕ
unfolding move_row
move_rows y zero cells = cells
move_rows y (suc rounds) cells = move_rows (y + 1) rounds (move_row y 0 vga_width cells)

-- The loops that write `v` to the cells from `i` on.
unfoldable pub fill : ℕ → ℕ → ℕ → List ℕ → List ℕ
fill v i zero cells = cells
fill v i (suc rounds) cells = fill v (i + 1) rounds (set cells i v)

-- The part of `console_scroll` after its guard.
unfoldable pub scroll_up : Console → Console
unfolding move_rows fill vga_set_hw_cursor
scroll_up c =
    let to = if leb vga_width c.col then 0 else c.col in
    vga_set_hw_cursor (vga_height - 2) to (record {
      vga_buffer =
          fill (vga_entry b' ' c.color) ((vga_height - 2) * vga_width) vga_width
            (move_rows 1 (vga_height - 2) c.vga_buffer);
      row = vga_height - 2;
      col = to;
      color = c.color;
      hw_cursor = c.hw_cursor;
    })

-- `console_scroll`
unfoldable pub console_scroll : Console → Console
unfolding scroll_up
console_scroll c = if ltb c.row (vga_height - 1) then c else scroll_up c

-- `console_clear`; the cells are written in order.
unfoldable pub console_clear : Console → Console
unfolding fill vga_set_hw_cursor
console_clear c = vga_set_hw_cursor 0 0 (record c {
  vga_buffer = fill (vga_entry b' ' c.color) 0 (vga_height * vga_width) c.vga_buffer;
  row = 0;
  col = 0;
})

-- `console_clear_to_eol`
unfoldable pub console_clear_to_eol : Console → Console
unfolding fill vga_set_hw_cursor
console_clear_to_eol c = vga_set_hw_cursor c.row c.col (record c {
  vga_buffer =
      fill (vga_entry b' ' c.color) (c.row * vga_width + c.col) (vga_width - c.col) c.vga_buffer;
})

-- The end of every branch of `console_putc`.
unfoldable pub sync : Console → Console
unfolding vga_set_hw_cursor
sync c = vga_set_hw_cursor c.row c.col c

-- The next row, scrolled when it is the last.
unfoldable pub next_row : Console → Console
unfolding console_scroll
next_row c = console_scroll (record c { row = (c.row + 1) % 2 ^ 32; col = 0 })

-- The branch of a line feed.
unfoldable pub new_line : Console → Console
unfolding sync next_row console_clear_to_eol
new_line c = sync (next_row (console_clear_to_eol c))

-- The branch of a backspace.
unfoldable pub back_space : Console → Console
unfolding sync console_put_at
back_space c =
    if ltb 0 c.col
    then sync (console_put_at b' ' (c.col - 1) c.row (record c { col = c.col - 1 }))
    else sync c

-- The cursor's place for one more character.
unfoldable pub make_room : Console → Console
unfolding next_row console_scroll
make_room c =
    let wrapped = if leb vga_width c.col then next_row c else c in
    if leb (vga_height - 1) wrapped.row then console_scroll wrapped else wrapped

-- The branch of any other character, once there is room for it.
unfoldable pub put_char : ℕ → Console → Console
unfolding sync console_put_at
put_char ch c =
    let shown = console_put_at ch c.col c.row c in
    sync (record shown { col = (shown.col + 1) % 2 ^ 32 })

-- `console_putc`
unfoldable pub console_putc : ℕ → Console → Console
unfolding new_line back_space make_room put_char sync
console_putc ch c =
    if ch == b'\n'
    then new_line c
    else if ch == b'\r'
    then sync (record c { col = 0 })
    else if ch == 8
    then back_space c
    else put_char ch (make_room c)

write_all : CString → Console → Console
unfolding console_putc
write_all [] c = c
write_all (ch ∷ s) c = write_all s (console_putc ch c)

-- `console_write`; a null pointer is `none`.
unfoldable pub console_write : Option CString → Console → Console
unfolding write_all
console_write none c = c
console_write (some s) c = write_all s c

-- `console_set_theme_default`: light grey on black
unfoldable pub console_set_theme_default : Console → Console
unfolding console_set_color
console_set_theme_default c = console_set_color 7 0 c

-- `console_set_theme_banner`: light cyan on black
unfoldable pub console_set_theme_banner : Console → Console
unfolding console_set_color
console_set_theme_banner c = console_set_color 11 0 c

-- `console_set_theme_error`: light red on black
unfoldable pub console_set_theme_error : Console → Console
unfolding console_set_color
console_set_theme_error c = console_set_color 12 0 c

-- `console_set_theme_ok`: light green on black
unfoldable pub console_set_theme_ok : Console → Console
unfolding console_set_color
console_set_theme_ok c = console_set_color 10 0 c
