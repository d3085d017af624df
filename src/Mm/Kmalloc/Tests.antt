-- ===== src/Mm/Kmalloc/Tests.antt =====
-- Runs of the kernel heap, and its theorems at concrete requests.
use hypnos.Base.{◌+◌, ◌≤◌, ◌≡◌, refl, some, [], ◌∷◌, arith}
use hypnos.Mm.Kmalloc.{Kheap, kmalloc_init, kmalloc, after}
use hypnos.Mm.Kmalloc.Bounds.{Outcome, kmalloc-Outcome, Overlap, kmalloc_overlaps}
use hypnos.Mm.Kmalloc.Sequence.{kmalloc_disjoint}

abbrev used : Kheap
used = record { heap_offset = 100 }

two_blocks : (kmalloc 32 (kmalloc 8 kmalloc_init).1).0 ≡ some 0x1000008
unfolding kmalloc kmalloc_init
two_blocks = refl

kmalloc-Outcome_example : Outcome 56 used (kmalloc 56 used)
kmalloc-Outcome_example = kmalloc-Outcome 56 used (omega arith) (omega arith)

kmalloc_overlaps_example : Overlap 64 64 32 used
kmalloc_overlaps_example =
    kmalloc_overlaps 64 64 32 used (omega arith) (omega arith) (omega arith) (omega arith)
      (omega arith)

kmalloc_disjoint_example : 0x1000064 + 56 ≤ 0x10000c4
unfolding kmalloc after
kmalloc_disjoint_example =
    kmalloc_disjoint 56 8 0x1000064 0x10000c4 (40 ∷ []) used (omega arith) (omega arith)
      (omega arith) (omega arith, tt) first second
  where
    first : (kmalloc 56 used).0 ≡ some 0x1000064
    first = refl

    second : (kmalloc 8 (after (40 ∷ []) (kmalloc 56 used).1)).0 ≡ some 0x10000c4
    second = refl
