-- ===== src/Syscall.antt =====
-- kernel/syscall.c: the system calls and the printing of numbers. The tick counter of the timer and
-- the strings at user addresses are not part of it; `syscall_init` stands in Install.
pub mod Decimal
pub mod Install
mod Tests
use hypnos.Base.{
  ℕ, zero, suc, ◌+◌, ◌-◌, ◌/◌, ◌%◌, ◌^◌, List, [], ◌∷◌, Option, some, ◌==◌, if◌then◌else◌,
}
use hypnos.CStr.{CString}
use hypnos.Console.{Console, console_write, console_putc}

-- SYS_PUTS
abbrev pub sys_puts : ℕ
sys_puts = 1

-- SYS_GET_TICKS
abbrev pub sys_get_ticks : ℕ
sys_get_ticks = 2

-- The loop that fills `buf`, with `room` bytes left; the last byte that it wrote comes first.
unfoldable pub digits : ℕ → ℕ → CString → CString
digits zero v buf = buf
digits (suc room) zero buf = buf
digits (suc room) (suc v) buf = digits room (suc v / 10) ((b'0' + suc v % 10) ∷ buf)

-- The loop that prints `buf` from its last byte.
unfoldable pub put_all : CString → Console → Console
put_all [] c = c
put_all (d ∷ buf) c = put_all buf (console_putc d c)

-- `kprint_u32`
unfoldable pub kprint_u32 : ℕ → Console → Console
unfolding digits put_all
kprint_u32 v c = if v == 0 then console_write (some (b'0' ∷ [])) c else put_all (digits 16 v []) c

abbrev unknown : CString
unknown =
    b'[' ∷ b'K' ∷ b'E' ∷ b'R' ∷ b'N' ∷ b'E' ∷ b'L' ∷ b']' ∷ b' ' ∷ b'U' ∷ b'n' ∷ b'k' ∷ b'n' ∷ b'o'
    ∷ b'w' ∷ b'n' ∷ b' ' ∷ b's' ∷ b'y' ∷ b's' ∷ b'c' ∷ b'a' ∷ b'l' ∷ b'l' ∷ b':' ∷ b' ' ∷ []

-- `syscall_handler`: `text` is the string at `a1`, `ticks` the timer's counter. The unused arguments
-- are left out.
unfoldable pub syscall_handler : ℕ → Option CString → ℕ → Console → ℕ × Console
unfolding kprint_u32
syscall_handler num text ticks c =
    if num == sys_puts
    then (0, console_write text c)
    else if num == sys_get_ticks
    then (ticks, c)
    else (
      2 ^ 32 - 1,
      console_write (some (b'\n' ∷ [])) (kprint_u32 num (console_write (some unknown) c)),
    )
