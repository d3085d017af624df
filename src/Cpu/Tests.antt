-- ===== src/Cpu/Tests.antt =====
-- The theorems on the tables of the processor, at small addresses.
use hypnos.Base.{ℕ, ◌≡◌, refl, Option, some, List, arith, ◌+◌, ◌%◌, ◌^◌, if◌then◌else◌, ◌==◌}
use hypnos.Base.Int.{pos}
use hypnos.Cpu.Gdt.{empty_gdt, gdt_init}
use hypnos.Cpu.Gdt.Decode.{Segments, gdt_init-Segments}
use hypnos.Cpu.Idt.{empty_idt, idt_init, irq_gates, syscall_gate}
use hypnos.Cpu.Idt.Gates.{gate}
use hypnos.Cpu.Idt.Wanted.{wanted, IsWanted, syscall_gate-IsWanted}
use hypnos.Cpu.Irq.{irq_handler_c, irq_register_handler, no_handlers}
use hypnos.Cpu.Irq.Dispatch.{irq_handler_c-register}

abbrev isr_stub : ℕ → ℕ
isr_stub n = 0x100000

abbrev irq_stub : ℕ → ℕ
irq_stub n = 0x110000

syscall_gate-IsWanted_example :
    IsWanted isr_stub irq_stub 0x120000
      (wanted isr_stub irq_stub 0x120000 33)
      (gate empty_idt 33)
      (gate (syscall_gate 0x120000 (irq_gates irq_stub (idt_init isr_stub empty_idt))) 33)
syscall_gate-IsWanted_example =
    syscall_gate-IsWanted isr_stub irq_stub 0x120000 empty_idt refl 33 (λ m. omega arith)
      (λ m. omega arith) (omega arith)

gdt_init-Segments_example :
    Segments (gdt_init 0x100000 0x200000 empty_gdt).1 0x100000 ((0x100000 + 104) % 2 ^ 32 % 2 ^ 20)
gdt_init-Segments_example = gdt_init-Segments 0x100000 0x200000 (omega arith)

abbrev none_yet : List (Option ℕ)
none_yet = no_handlers

irq_handler_c-register_example :
    irq_handler_c 8 (irq_register_handler (pos 8) 5 none_yet)
    ≡ (if 8 == 8 then some 5 else (irq_handler_c 8 none_yet).0, (irq_handler_c 8 none_yet).1)
irq_handler_c-register_example = irq_handler_c-register 8 8 5 none_yet (omega arith) refl
