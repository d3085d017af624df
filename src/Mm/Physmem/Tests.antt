-- ===== src/Mm/Physmem/Tests.antt =====
-- Runs of the frame allocator, and its theorems at a bitmap after boot.
use hypnos.Base.{ℕ, ◌≡◌, ◌⊎◌, refl, false, arith}
use hypnos.Mm.Physmem.{
  Bitmap, set_frame, test_frame, scan_bits, scan_words, first_free_frame, reserve, phys_init,
  phys_alloc_frame, phys_free_frame,
}
use hypnos.Mm.Physmem.View.{IsBitmap, used}
use hypnos.Mm.Physmem.Ops.{IsFull, Took, phys_alloc_frame_outcome, phys_free_frame_lem}
use hypnos.Mm.Physmem.Init.{phys_init_lem}

-- The bitmap of a kernel whose image ends in the second frame.
booted : Bitmap
booted = phys_init 5000

booted-IsBitmap : IsBitmap booted
unfolding booted
booted-IsBitmap = (phys_init_lem 5000 0 (omega arith)).0

first_address : (phys_alloc_frame booted).0 ≡ 8192
unfolding booted phys_init reserve phys_alloc_frame first_free_frame scan_words scan_bits test_frame
    set_frame
first_address = refl

phys_alloc_frame_outcome_example :
    (IsFull booted × (phys_alloc_frame booted ≡ (0, booted)))
    ⊎ ((f : ℕ) × Took booted f (phys_alloc_frame booted))
phys_alloc_frame_outcome_example = phys_alloc_frame_outcome booted booted-IsBitmap

phys_free_frame_lem_example : used (phys_free_frame 4096 booted) 1 ≡ false
phys_free_frame_lem_example = phys_free_frame_lem 4096 booted 1 booted-IsBitmap
