-- ===== src/Mm/Kmalloc/Sequence.antt =====
-- Blocks of the kernel heap over a sequence of requests.
use hypnos.Base.{ℕ, ◌+◌, ◌^◌, ◌≤◌, ◌≡◌, Option, none, some, List, [], ◌∷◌, All, arith, ◌-◌}
use hypnos.Mm.Kmalloc.{Kheap, kheap_start, kheap_size, kmalloc, after}
use hypnos.Mm.Kmalloc.Bounds.{IsValid, Outcome, kmalloc-Outcome, kmalloc-IsValid}

-- The sizes that cannot wrap, whatever the offset.
abbrev pub IsSmall : ℕ → Type 0
IsSmall size = size ≤ 2 ^ 32 - kheap_size

Outcome-le :
    (size : ℕ) (k : Kheap) (r : Option ℕ × Kheap)
    → Outcome size k r
    → k.heap_offset ≤ (r.1).heap_offset
Outcome-le size k (none, k') o = ground arith
Outcome-le size k (some p, k') o = omega arith

kmalloc-le :
    (size : ℕ) (k : Kheap)
    → IsValid k
    → IsSmall size
    → k.heap_offset ≤ (kmalloc size k).1.heap_offset
kmalloc-le size k v h = Outcome-le size k _ (kmalloc-Outcome size k v (omega arith))

after-IsValid : (sizes : List ℕ) (k : Kheap) → IsValid k → IsValid (after sizes k)
unfolding after
after-IsValid [] k v = v
after-IsValid (n ∷ sizes) k v = after-IsValid sizes (kmalloc n k).1 (kmalloc-IsValid n k v)

after-le :
    (sizes : List ℕ) (k : Kheap)
    → IsValid k
    → All IsSmall sizes
    → k.heap_offset ≤ (after sizes k).heap_offset
unfolding after
after-le [] k v small = omega arith
after-le (n ∷ sizes) k v small = omega (
  arith,
  kmalloc-le n k v small.0,
  after-le sizes (kmalloc n k).1 (kmalloc-IsValid n k v) small.1,
)

block_end :
    (size p : ℕ) (k : Kheap) (r : Option ℕ × Kheap)
    → Outcome size k r
    → r.0 ≡ some p
    → p + size ≡ kheap_start + (r.1).heap_offset
block_end size p k (none, k') o e = absurd (cc)
block_end size p k (some q, k') o e = ground arith

block_start :
    (size p : ℕ) (k : Kheap) (r : Option ℕ × Kheap)
    → Outcome size k r
    → r.0 ≡ some p
    → p ≡ kheap_start + k.heap_offset
block_start size p k (none, k') o e = absurd (cc)
block_start size p k (some q, k') o e = ground arith

-- Blocks do not overlap: when a request of m bytes returns p, and after any further requests one of
-- n bytes returns q, with no size above 2 ^ 32 - 2 ^ 20, then q lies at or behind the end of p.
pub kmalloc_disjoint :
    (m n p q : ℕ) (sizes : List ℕ) (k : Kheap)
    → IsValid k
    → IsSmall m
    → IsSmall n
    → All IsSmall sizes
    → (kmalloc m k).0 ≡ some p
    → (kmalloc n (after sizes (kmalloc m k).1)).0 ≡ some q
    → p + m ≤ q
kmalloc_disjoint m n p q sizes k v hm hn small ep eq =
    let k1 : Kheap = (kmalloc m k).1 in
    let v1 = kmalloc-IsValid m k v in
    let v2 = after-IsValid sizes k1 v1 in
    omega (
      arith,
      block_end m p k _ (kmalloc-Outcome m k v (omega arith)) ep,
      block_start n q (after sizes k1) _ (kmalloc-Outcome n (after sizes k1) v2 (omega arith)) eq,
      after-le sizes k1 v1 small,
    )
