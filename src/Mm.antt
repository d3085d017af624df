-- ===== src/Mm.antt =====
-- Memory management, kernel/arch/i386/mm: the kernel heap and the physical frames.
pub mod Kmalloc
pub mod Physmem
