-- ===== src/User/Rounds.antt =====
-- What the system calls of the user mode do.
use hypnos.Base.{
  ℕ, zero, suc, ◌+◌, ◌*◌, ◌/◌, ◌<◌, ◌^◌, ◌-◌, ◌≡◌, refl, ap, sym, ◌∙◌, Option, some, [], ◌∷◌, ◌++◌,
  codes, arith,
}
use hypnos.CStr.{CString}
use hypnos.Console.{Console, console_write, console_putc}
use hypnos.Console.Screen.{IsScreen, Keeps, console_write-Keeps}
use hypnos.Syscall.{syscall_handler, kprint_u32, digits, put_all}
use hypnos.User.{rounds, user_program_main, sys_puts, sys_call3, isr80_syscall}

write-append :
    (s t : CString) (c : Console)
    → console_write (some (s ++ t)) c ≡ console_write (some t) (console_write (some s) c)
unfolding console_write
write-append [] t c = refl
write-append (x ∷ s) t c = write-append s t (console_putc x c)

-- The line that the handler prints for the number 16.
abbrev pub complaint : CString
complaint = codes "[KERNEL] Unknown syscall: 16\n"

-- So many complaints.
unfoldable pub complaints : ℕ → CString
complaints zero = []
complaints (suc n) = complaint ++ complaints n

print_sixteen : (c : Console) → kprint_u32 16 c ≡ console_write (some (codes "16")) c
unfolding kprint_u32 digits put_all codes console_write
print_sixteen c = refl

refused :
    (text : Option CString) (ticks : ℕ) (c : Console)
    → syscall_handler 16 text ticks c ≡ (2 ^ 32 - 1, console_write (some complaint) c)
unfolding syscall_handler codes console_write
refused text ticks c =
    ap (λ d. (2 ^ 32 - 1, console_write (some (b'\n' ∷ [])) d))
      (print_sixteen (console_write (some (codes "[KERNEL] Unknown syscall: ")) c))

-- Every call with a number below 2 ^ 16 is refused.
sys_call3_lem :
    (num : ℕ) (text : Option CString) (ticks : ℕ) (c : Console)
    → num < 2 ^ 16
    → sys_call3 num text ticks c ≡ (2 ^ 32 - 1, console_write (some complaint) c)
unfolding sys_call3 isr80_syscall
sys_call3_lem num text ticks c h =
    let e : num / 2 ^ 16 * 2 ^ 16 + 0x10 ≡ 16 = omega arith in
    ap (λ n. syscall_handler n text ticks c) e ∙ refused text ticks c

sys_puts_lem : (s : CString) (c : Console) → sys_puts s c ≡ console_write (some complaint) c
unfolding sys_puts
sys_puts_lem s c = ap (λ p. p.1) (sys_call3_lem 1 (some s) 0 c (omega arith))

rounds-complaints : (n : ℕ) (c : Console) → rounds n c ≡ console_write (some (complaints n)) c
unfolding rounds complaints console_write
rounds-complaints zero c = refl
rounds-complaints (suc n) c =
    ap (rounds n) (sys_puts_lem (codes ".") c)
    ∙ (rounds-complaints n (console_write (some complaint) c)
        ∙ sym (write-append complaint (complaints n) c))

-- From a screen whose cursor is above the status row, whatever the number of rounds, none of the
-- program's own text is printed: the entry of the interrupt hands the number 16 to the handler, which
-- prints a complaint for the greeting and one for each round. The cursor stays above the status row,
-- and no cell of that row has changed.
pub user_program_main-Keeps :
    (n : ℕ) (c : Console)
    → IsScreen c
    → (user_program_main n c ≡ console_write (some (complaints (suc n))) c)
      × Keeps c (user_program_main n c)
unfolding user_program_main complaints
user_program_main-Keeps n c h =
    let e : user_program_main n c ≡ console_write (some (complaints (suc n))) c =
      ap (rounds n) (sys_puts_lem (codes "[USER] Hello...\n") c)
      ∙ (rounds-complaints n (console_write (some complaint) c)
          ∙ sym (write-append complaint (complaints n) c)) in
    (e, rw e (console_write-Keeps _ c h))
