-- ===== src/Cpu/Idt.antt =====
-- kernel/arch/i386/cpu/idt.c, with the gates that isr.c, irq.c and syscall.c install. The addresses of
-- the assembler entry points are parameters; loading the table into the processor is left out.
pub mod Gates
pub mod Wanted
use hypnos.Base.{ℕ, zero, suc, ◌+◌, ◌-◌, ◌/◌, ◌%◌, ◌^◌, List, set, replicate}

-- `struct idt_entry`
pub record IdtEntry : Type 0 where
  pub base_lo : ℕ
  pub sel : ℕ
  pub always0 : ℕ
  pub flags : ℕ
  pub base_hi : ℕ

-- `idt`, 256 entries that are zero at the start
abbrev pub Idt : Type 0
Idt = List IdtEntry

abbrev pub empty_idt : Idt
empty_idt = replicate 256 (record { base_lo = 0; sel = 0; always0 = 0; flags = 0; base_hi = 0 })

-- `idt_set_gate`
unfoldable pub idt_set_gate : ℕ → ℕ → ℕ → ℕ → Idt → Idt
idt_set_gate num base sel flags idt = set idt (num % 2 ^ 8) (record {
  base_lo = base % 2 ^ 16;
  sel = sel;
  always0 = 0;
  flags = flags;
  base_hi = base / 2 ^ 16 % 2 ^ 16;
})

-- `count` calls of `idt_set_gate` for kernel gates, from number `num` on.
unfoldable pub set_gates : (ℕ → ℕ) → ℕ → ℕ → Idt → Idt
set_gates entry num zero idt = idt
set_gates entry num (suc count) idt =
    set_gates entry (num + 1) count (idt_set_gate num (entry num) 0x08 0x8E idt)

-- `isr_install`: gate n goes to `isr n`.
unfoldable pub isr_install : (ℕ → ℕ) → Idt → Idt
isr_install isr idt = set_gates isr 0 32 idt

-- The gates of `irq_install`: gate 32 + n goes to `irq n`.
unfoldable pub irq_gates : (ℕ → ℕ) → Idt → Idt
irq_gates irq idt = set_gates (λ n. irq (n - 32)) 32 16 idt

-- `idt_init`: the loop that clears the gates of the exceptions, and `isr_install`.
unfoldable pub idt_init : (ℕ → ℕ) → Idt → Idt
idt_init isr idt = isr_install isr (set_gates (λ n. 0) 0 32 idt)

-- The gate that `syscall_init` installs.
unfoldable pub syscall_gate : ℕ → Idt → Idt
syscall_gate isr80_syscall idt = idt_set_gate 0x80 isr80_syscall 0x08 0xEE idt
