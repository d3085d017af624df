-- ===== src/Console/Tests.antt =====
-- The theorems on the screen, at an empty screen.
use hypnos.Base.{refl, some, [], ◌∷◌, replicate, arith}
use hypnos.Console.{Console, console_write}
use hypnos.Console.Screen.{IsScreen, Keeps, console_write-Keeps}

-- The cursor is at the end of the last content row.
abbrev at_end : Console
at_end = record {
  vga_buffer = replicate 2000 0x720;
  row = 23;
  col = 80;
  color = 7;
  hw_cursor = 1919;
}

at_end-IsScreen : IsScreen at_end
at_end-IsScreen = record { cells = refl; row_in = omega arith; col_in = omega arith }

console_write-Keeps_example : Keeps at_end (console_write (some (b'o' ∷ b'k' ∷ b'\n' ∷ [])) at_end)
console_write-Keeps_example =
    console_write-Keeps (some (b'o' ∷ b'k' ∷ b'\n' ∷ [])) at_end at_end-IsScreen
