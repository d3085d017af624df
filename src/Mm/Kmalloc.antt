-- ===== src/Mm/Kmalloc.antt =====
-- kernel/arch/i386/mm/kmalloc.c: the bump allocator of the kernel heap. Its one variable is
-- `heap_offset`; the messages on the console are left out. A pointer is its address.
pub mod Bounds
pub mod Sequence
mod Tests
use hypnos.Base.{ℕ, ◌+◌, ◌%◌, ◌^◌, Option, none, some, List, [], ◌∷◌, leb, if◌then◌else◌}

-- KHEAP_START
abbrev pub kheap_start : ℕ
kheap_start = 0x1000000

-- KHEAP_SIZE
abbrev pub kheap_size : ℕ
kheap_size = 0x100000

pub record Kheap : Type 0 where
  pub heap_offset : ℕ

unfoldable pub kmalloc_init : Kheap
kmalloc_init = record { heap_offset = 0 }

-- `none` is the null pointer. The sum of two `uint32_t` wraps.
unfoldable pub kmalloc : ℕ → Kheap → Option ℕ × Kheap
kmalloc size k = if leb kheap_size ((k.heap_offset + size) % 2 ^ 32) then (none, k) else (
  some (kheap_start + k.heap_offset),
  record { heap_offset = (k.heap_offset + size) % 2 ^ 32 },
)

-- The heap after a sequence of requests.
pub after : List ℕ → Kheap → Kheap
after [] k = k
after (size ∷ sizes) k = after sizes (kmalloc size k).1
