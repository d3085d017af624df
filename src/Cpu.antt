-- ===== src/Cpu.antt =====
-- kernel/arch/i386/cpu: the tables of the processor and the interrupts.
pub mod Idt
pub mod Gdt
pub mod Irq
pub mod Isr
mod Tests
