-- ===== src/Syscall/Install.antt =====
-- `syscall_init`: the gate of the system calls, and what it prints.
use hypnos.Base.{ℕ, some, codes, String, get_or}
use hypnos.Console.{Console, console_write}
use hypnos.Cpu.Idt.{Idt, IdtEntry, syscall_gate}
use hypnos.Syscall.{kprint_u32}

abbrev print : String → Console → Console
print s c = console_write (some (codes s)) c

abbrev no_entry : IdtEntry
no_entry = record { base_lo = 0; sel = 0; always0 = 0; flags = 0; base_hi = 0 }

-- `idt_get_array` and an entry of it
unfoldable pub idt_entry : ℕ → Idt → IdtEntry
idt_entry n idt = get_or idt n no_entry

-- `syscall_init`
unfoldable pub syscall_init : ℕ → Idt × Console → Idt × Console
unfolding idt_entry
syscall_init isr80_syscall (idt, c) =
    let c1 = print "\n" (kprint_u32 isr80_syscall (print "Installing syscall at: " c)) in
    let installed = syscall_gate isr80_syscall idt in
    let e = idt_entry 0x80 installed in
    let c2 = kprint_u32 e.base_hi (print "IDT[80] base_hi: " c1) in
    let c3 = kprint_u32 e.base_lo (print " base_lo: " c2) in
    let c4 = kprint_u32 e.flags (print " flags: " c3) in (installed, print "\n" c4)
