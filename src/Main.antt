-- ===== src/Main.antt =====
-- kernel/kernel_main.c: the messages, the pauses and the tasks of the start. The calls of the console
-- are those of this file, which has its own copy of the cursor; its numbers are printed with the loop of
-- the system calls.
pub mod Sleep
pub mod Machine
pub mod Start
pub mod Phases
pub mod Room
pub mod Started
mod Tests
use hypnos.Base.{
  ℕ, zero, suc, ◌+◌, ◌-◌, ◌%◌, ◌^◌, ◌||◌, Option, none, some, [], ◌∷◌, String, codes, ◌==◌, ltb,
  leb, if◌then◌else◌,
}
use hypnos.CStr.{CString}
use hypnos.Console.{
  Console, vga_width, console_set_color, console_put_at, console_set_theme_default,
}
use hypnos.Cpu.Idt.{IdtEntry}
use hypnos.Kernel.{
  KernelM, set_color, put_char, pure, stuck, ◌>>=◌, ◌>>◌, gets, modify, call, print,
}
use hypnos.Shell.Bar.{shell_print_prompt}
use hypnos.Shell.Line.{shell_init, shell_run}
use hypnos.Syscall.{digits}

-- `sleep_timer` of kernel/console.h
abbrev pub sleep_timer : ℕ
sleep_timer = 1000

-- The last loop of `sleep_ticks`, which halts until the next interrupt: `reading n` is what
-- `timer_get_ticks` gives after n halts. The result is the number of halts.
unfoldable pub sleep_loop : (ℕ → ℕ) → ℕ → ℕ → ℕ → ℕ → Option ℕ
sleep_loop reading zero n start ticks = none
sleep_loop reading (suc fuel) n start ticks =
    let rest = sleep_loop reading fuel (n + 1) start ticks in
    if ltb ((reading n + 2 ^ 32 - start) % 2 ^ 32) ticks then rest else some n

module _ {D : Type 0} where
  woken : (ℕ → ℕ) → Option ℕ → KernelM D (Unit {0})
  woken reading none = stuck
  woken reading (some n) = modify (λ k. record k { ticks = reading n })

  -- `sleep_ticks`; the busy loop of a timer that does not run yet changes nothing.
  unfoldable pub sleep_ticks : (ℕ → ℕ) → ℕ → ℕ → KernelM D (Unit {0})
  unfolding sleep_loop woken
  sleep_ticks reading fuel ticks = do
    k ← gets (λ k. k)
    if ticks == 0 || k.ticks == 0
        then pure tt
        else woken reading (sleep_loop reading fuel 0 k.ticks ticks)

  -- The loop of `kprint_u32` that prints the digits.
  unfoldable pub put_chars : CString → KernelM D (Unit {0})
  put_chars [] = pure tt
  put_chars (c ∷ s) = do call (put_char c); put_chars s

  -- `kprint_u32`
  unfoldable pub kprint_u32 : ℕ → KernelM D (Unit {0})
  unfolding put_chars
  kprint_u32 v = if v == 0 then print "0" else put_chars (digits 16 v [])

  -- What `kernel_main` prints of the gate of the timer.
  unfoldable pub show_gate : IdtEntry → KernelM D (Unit {0})
  unfolding kprint_u32 call
  show_gate e = do
    print "IRQ0 flags = "
    kprint_u32 e.flags
    print " base_lo = "
    kprint_u32 e.base_lo
    print " base_hi = "
    kprint_u32 e.base_hi
    print "\n"

  -- The themes of kernel/console.h: light grey, light cyan and light green on black.
  abbrev pub theme_default : KernelM D (Unit {0})
  theme_default = call (set_color 7 0)

  abbrev pub theme_banner : KernelM D (Unit {0})
  theme_banner = call (set_color 11 0)

  abbrev pub theme_ok : KernelM D (Unit {0})
  theme_ok = call (set_color 10 0)

  -- `print_ascii_banner`
  unfoldable pub print_ascii_banner : KernelM D (Unit {0})
  print_ascii_banner = do
    theme_banner
    print " _   _                          \n"
    print "| | | | _   _ _ __   ___  ___   \n"
    print "| |_| || | | | '_ \\ / __|/ _ \\  \n"
    print "|  _  || |_| | | | |\\__ \\  __/  \n"
    print "|_| |_| \\__,_|_| |_||___/\\___|  \n"
    print "           H Y P N O S          \n\n"
    theme_default

  -- `ok`
  unfoldable pub ok : String → KernelM D (Unit {0})
  ok msg = do theme_ok; print "[OK] "; theme_default; print msg; print "\n"

  -- `banner`
  unfoldable pub banner : String → KernelM D (Unit {0})
  banner msg = do theme_banner; print msg; print "\n"; theme_default

  -- `loading_animation`; its delay changes nothing.
  unfoldable pub loading_animation : String → KernelM D (Unit {0})
  loading_animation msg = do print msg; print "."; print "."; print "."; print "\n"

  -- `shell_thread` up to the loop of `shell_run`.
  unfoldable pub shell_thread : KernelM D (Unit {0})
  unfolding shell_init shell_run
  shell_thread = do shell_init; shell_run

-- The loop that clears row `y` from column `i` on.
unfoldable pub clear_row : ℕ → ℕ → ℕ → Console → Console
clear_row y zero i c = c
clear_row y (suc rounds) i c = clear_row y rounds (i + 1) (console_put_at b' ' i y c)

-- A round of the loop of `demo_task` before it yields, at column `x`: the next column.
unfoldable pub demo_round : ℕ → Console → ℕ × Console
unfolding clear_row
demo_round x c =
    let shown = console_put_at b'.' x 10 (console_set_color 2 0 c) in
    if leb vga_width (x + 1)
    then (0, console_set_theme_default (clear_row 10 vga_width 0 shown))
    else (x + 1, console_set_theme_default shown)
