-- ===== src/User.antt =====
-- kernel/user/user_program.c, kernel/user/syscall.h and the entry of the interrupt 0x80 in
-- kernel/arch/i386/cpu/isr.S: the program of the user mode and the way of its system calls to the
-- handler. The string at an address is an argument.
pub mod Rounds
mod Tests
use hypnos.Base.{ℕ, zero, suc, ◌+◌, ◌*◌, ◌/◌, ◌^◌, Option, some, none, codes}
use hypnos.CStr.{CString}
use hypnos.Console.{Console}
use hypnos.Syscall.{syscall_handler}

-- `isr80_syscall`: the kernel's data selector is moved into the low half of eax before eax is pushed as
-- the number of the call.
unfoldable pub isr80_syscall : ℕ → Option CString → ℕ → Console → ℕ × Console
unfolding syscall_handler
isr80_syscall eax text ticks c = syscall_handler (eax / 2 ^ 16 * 2 ^ 16 + 0x10) text ticks c

-- `sys_call3`; the two last arguments are not read.
unfoldable pub sys_call3 : ℕ → Option CString → ℕ → Console → ℕ × Console
unfolding isr80_syscall
sys_call3 num text ticks c = isr80_syscall num text ticks c

-- `sys_puts`, which drops the result.
unfoldable pub sys_puts : CString → Console → Console
unfolding sys_call3
sys_puts s c = (sys_call3 1 (some s) 0 c).1

-- `sys_get_ticks`
unfoldable pub sys_get_ticks : ℕ → Console → ℕ × Console
unfolding sys_call3
sys_get_ticks ticks c = sys_call3 2 none ticks c

-- The first rounds of the loop of `user_program_main`; the counting changes nothing.
unfoldable pub rounds : ℕ → Console → Console
unfolding sys_puts
rounds zero c = c
rounds (suc n) c = rounds n (sys_puts (codes ".") c)

-- `user_program_main` up to the end of so many rounds.
unfoldable pub user_program_main : ℕ → Console → Console
unfolding rounds
user_program_main n c = rounds n (sys_puts (codes "[USER] Hello...\n") c)
