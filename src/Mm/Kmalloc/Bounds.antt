-- ===== src/Mm/Kmalloc/Bounds.antt =====
-- One request of the kernel heap: where the block lies, and what wraps.
use hypnos.Base.{ℕ, ◌+◌, ◌-◌, ◌^◌, ◌≤◌, ◌<◌, ◌≡◌, refl, ap, Option, none, some, arith}
use hypnos.Mm.Kmalloc.{Kheap, kheap_start, kheap_size, kmalloc}

-- What every request leaves true: the offset lies inside the heap.
abbrev pub IsValid : Kheap → Type 0
IsValid k = k.heap_offset < kheap_size

-- Any request, also one whose sum wraps, leaves the offset inside the heap.
pub kmalloc-IsValid : (size : ℕ) (k : Kheap) → IsValid k → IsValid (kmalloc size k).1
unfolding kmalloc
kmalloc-IsValid size k v = ground arith

-- The outcome of a request that does not wrap.
abbrev pub Outcome : ℕ → Kheap → Option ℕ × Kheap → Type 0
Outcome size k (none, k') = (kheap_size ≤ k.heap_offset + size) × (k' ≡ k)
Outcome size k (some p, k') =
    (p ≡ kheap_start + k.heap_offset)
    × (p + size < kheap_start + kheap_size)
    × (k'.heap_offset ≡ k.heap_offset + size)

-- A request of a heap with a valid offset, small enough that the 32-bit sum does not wrap, either
-- fails because the heap has too little room, and changes nothing, or returns a block that begins
-- at the current offset and ends inside the heap, and moves the offset to its end.
pub kmalloc-Outcome :
    (size : ℕ) (k : Kheap)
    → IsValid k
    → k.heap_offset + size < 2 ^ 32
    → Outcome size k (kmalloc size k)
unfolding kmalloc
kmalloc-Outcome size k v h = ground arith

-- A request of 2 ^ 32 - m bytes moves the offset back by m.
kmalloc_wraps :
    (m : ℕ) (k : Kheap)
    → IsValid k
    → 0 < m
    → m ≤ k.heap_offset
    → kmalloc (2 ^ 32 - m) k
      ≡ (some (kheap_start + k.heap_offset), record { heap_offset = k.heap_offset - m })
unfolding kmalloc
kmalloc_wraps m k v h le = ground arith

-- A request that fits.
kmalloc_fits :
    (size : ℕ) (k : Kheap)
    → k.heap_offset + size < kheap_size
    → kmalloc size k
      ≡ (some (kheap_start + k.heap_offset), record { heap_offset = k.heap_offset + size })
unfolding kmalloc
kmalloc_fits size k h = ground arith

-- The three requests of a block of n bytes, of 2 ^ 32 - m bytes and of `size` bytes, where the third
-- block begins m bytes before the end of the first, and inside it.
pub record Overlap (n m size : ℕ) (k : Kheap) : Type 0 where
  pub first : (kmalloc n k).0 ≡ some (kheap_start + k.heap_offset)
  pub huge : (kmalloc (2 ^ 32 - m) (kmalloc n k).1).0 ≡ some (kheap_start + k.heap_offset + n)
  pub third : ℕ
  pub next : (kmalloc size (kmalloc (2 ^ 32 - m) (kmalloc n k).1).1).0 ≡ some third
  pub begins : third + m ≡ kheap_start + k.heap_offset + n
  pub inside : (kheap_start + k.heap_offset ≤ third) × (third < kheap_start + k.heap_offset + n)

-- On a heap with a valid offset and room for a block of n bytes: after that block, a request of
-- 2 ^ 32 - m bytes, with m from 1 to n, succeeds though the heap is far smaller, and the next
-- request that fits is given a block that begins m bytes before the end of the first one, inside it.
pub kmalloc_overlaps :
    (n m size : ℕ) (k : Kheap)
    → IsValid k
    → k.heap_offset + n < kheap_size
    → 0 < m
    → m ≤ n
    → k.heap_offset + n - m + size < kheap_size
    → Overlap n m size k
kmalloc_overlaps n m size k v room pos le fits =
    let k1 : Kheap = record { heap_offset = k.heap_offset + n } in
    let k2 : Kheap = record { heap_offset = k.heap_offset + n - m } in
    let e1 = kmalloc_fits n k room in
    let e2 = kmalloc_wraps m k1 room pos (omega arith) in
    let e3 = kmalloc_fits size k2 fits in
    record {
      first = rw e1 refl;
      huge = rw (e1, e2) (ap some (omega arith));
      third = kheap_start + k2.heap_offset;
      next = rw (e1, e2, e3) refl;
      begins = omega arith;
      inside = (omega arith, omega arith);
    }
