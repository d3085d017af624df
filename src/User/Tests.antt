-- ===== src/User/Tests.antt =====
-- Three rounds of the program, on an empty screen.
use hypnos.Base.{◌≡◌, refl, some, arith, replicate}
use hypnos.Console.{Console, console_write}
use hypnos.Console.Screen.{IsScreen, Keeps}
use hypnos.User.{user_program_main}
use hypnos.User.Rounds.{complaints, user_program_main-Keeps}

abbrev blank : Console
blank = record { vga_buffer = replicate 2000 0x720; row = 0; col = 0; color = 7; hw_cursor = 0 }

blank-IsScreen : IsScreen blank
blank-IsScreen = record { cells = refl; row_in = omega arith; col_in = omega arith }

user_program_main-Keeps_example :
    (user_program_main 3 blank ≡ console_write (some (complaints 4)) blank)
    × Keeps blank (user_program_main 3 blank)
user_program_main-Keeps_example = user_program_main-Keeps 3 blank blank-IsScreen
