-- ===== src/Mm/Physmem/Ops.antt =====
-- `phys_alloc_frame` and `phys_free_frame` against the set of used frames.
use hypnos.Base.{
  ℕ, ◌*◌, ◌/◌, ◌%◌, ◌^◌, ◌<◌, ◌≡◌, ◌≢◌, ◌⊎◌, inl, inr, refl, true, false, none, some, arith, ◌==◌,
  ltb, ◌&&◌, not, if◌then◌else◌, Option-cases,
}
use hypnos.Mm.Physmem.{
  Bitmap, max_frames, page_size, set_frame, first_free_frame, phys_alloc_frame, phys_free_frame,
}
use hypnos.Mm.Physmem.View.{
  IsBitmap, used, used-set_frame, used-clear_frame, set_frame-IsBitmap, clear_frame-IsBitmap,
}
use hypnos.Mm.Physmem.Search.{Lowest, first_free_frame-Lowest}

-- All frames are in use.
abbrev pub IsFull : Bitmap → Type 0
IsFull bm = (g : ℕ) → g < max_frames → used bm g ≡ true

-- A successful request: `f` is the lowest free frame, the address is its first byte, and afterwards
-- it is in use while every other frame is as before.
pub record Took (bm : Bitmap) (f : ℕ) (out : ℕ × Bitmap) : Type 0 where
  pub in_range : f < max_frames
  pub was_free : used bm f ≡ false
  pub lowest : (g : ℕ) → g < f → used bm g ≡ true
  pub address : out.0 ≡ f * page_size
  pub frames : (g : ℕ) → used out.1 g ≡ (if f == g then true else used bm g)
  pub sized : IsBitmap out.1

Took-set_frame :
    (bm : Bitmap) (f : ℕ)
    → IsBitmap bm
    → Lowest 0 max_frames bm (some f)
    → Took bm f (f * page_size % 2 ^ 32, set_frame f bm)
Took-set_frame bm f h low = record {
  in_range = low.1;
  was_free = low.2;
  lowest = λ g l. low.3 g (omega arith) l;
  address = omega (arith, low.1);
  frames = λ g. used-set_frame bm f g h low.1;
  sized = set_frame-IsBitmap f bm h;
}

-- On a bitmap of the right size, a request either takes the lowest free frame, or, when all frames
-- are in use, returns 0 and leaves the bitmap alone.
pub phys_alloc_frame_outcome :
    (bm : Bitmap)
    → IsBitmap bm
    → (IsFull bm × (phys_alloc_frame bm ≡ (0, bm))) ⊎ ((f : ℕ) × Took bm f (phys_alloc_frame bm))
unfolding phys_alloc_frame
phys_alloc_frame_outcome bm h = elim (Option-cases (first_free_frame bm)) [
  | inl e ↦
      let low : Lowest 0 max_frames bm none = rw e at (first_free_frame-Lowest bm) in
      rw (e, phys_alloc_frame) (inl (λ g l. low g (omega arith) l, refl))
  | inr (f, e) ↦
      let low : Lowest 0 max_frames bm (some f) = rw e at (first_free_frame-Lowest bm) in
      rw (e, phys_alloc_frame) (inr (f, Took-set_frame bm f h low))
]

-- On a bitmap of the right size, freeing an address gives back the frame that holds it and no other
-- frame; the address 0 and those from 2 GB up change nothing.
pub phys_free_frame_lem :
    (addr : ℕ) (bm : Bitmap) (g : ℕ)
    → IsBitmap bm
    → used (phys_free_frame addr bm) g ≡ (
        if not (addr == 0) && (ltb (addr / page_size) max_frames && (addr / page_size == g))
        then false
        else used bm g)
unfolding phys_free_frame
phys_free_frame_lem addr bm g h = ground (arith, used-clear_frame bm (addr / page_size) g h)

pub phys_free_frame-IsBitmap :
    (addr : ℕ) (bm : Bitmap) → IsBitmap bm → IsBitmap (phys_free_frame addr bm)
unfolding phys_free_frame
phys_free_frame-IsBitmap addr bm h = ground (arith, clear_frame-IsBitmap (addr / page_size) bm h)

Took-free :
    (bm : Bitmap) (f g : ℕ) (out : ℕ × Bitmap)
    → Took bm f out
    → out.0 ≢ 0
    → used (phys_free_frame out.0 out.1) g ≡ used bm g
Took-free bm f g out t ne =
    let e : out.0 / page_size ≡ f = omega (arith, t.address) in
    ground (arith, e, t.frames g, t.was_free, t.in_range, phys_free_frame_lem out.0 out.1 g t.sized)

-- Freeing the address that a request returned, when it is not the failure value 0, leaves the same
-- frames in use as before the request.
free-alloc :
    (bm : Bitmap) (g : ℕ)
    → IsBitmap bm
    → (phys_alloc_frame bm).0 ≢ 0
    → used (phys_free_frame (phys_alloc_frame bm).0 (phys_alloc_frame bm).1) g ≡ used bm g
free-alloc bm g h ne = elim (phys_alloc_frame_outcome bm h) [
  | inl (full, e) ↦ absurd (ne (ground (arith, e)))
  | inr (f, t) ↦ Took-free bm f g (phys_alloc_frame bm) t ne
]
