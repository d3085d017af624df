-- ===== src/Mm/Physmem/View.antt =====
-- The bitmap as a set of used frames.
use hypnos.Base.{
  ℕ, ◌-◌, ◌/◌, ◌%◌, ◌^◌, ◌<◌, ◌≡◌, Bool, true, false, not, arith, ◌==◌, if◌then◌else◌, get_or, set,
  length, length-set, get_or-set_self, get_or-set_ne, bit_and, bit_or, ◌∙◌,
}
use hypnos.Base.Bits.{
  bit, bit-lt, bit-bit_or, bit-bit_and, bit-pow, bit-not_pow, bit_and-pow-eq-zero,
}
use native.Mathlib.Decide.{ℕ_discrete}
use hypnos.Mm.Physmem.{Bitmap, num_words, max_frames, set_frame, clear_frame, test_frame}

-- The bitmap has a word for each 32 frames.
abbrev pub IsBitmap : Bitmap → Type 0
IsBitmap bm = length bm ≡ num_words

-- Frame `f` is in use.
unfoldable pub used : Bitmap → ℕ → Bool
used bm f = bit (get_or bm (f / 32) 0) (f % 32) == 1

pub test_frame-eq-zero : (f : ℕ) (bm : Bitmap) → (test_frame f bm == 0) ≡ not (used bm f)
unfolding test_frame used
test_frame-eq-zero f bm = ground (
  arith,
  bit_and-pow-eq-zero (get_or bm (f / 32) 0) (f % 32),
  bit-lt (get_or bm (f / 32) 0) (f % 32),
)

pub set_frame-IsBitmap : (f : ℕ) (bm : Bitmap) → IsBitmap bm → IsBitmap (set_frame f bm)
unfolding set_frame
set_frame-IsBitmap f bm h =
    omega (arith, length-set bm (f / 32) (bit_or (get_or bm (f / 32) 0) (2 ^ (f % 32))))

pub clear_frame-IsBitmap : (f : ℕ) (bm : Bitmap) → IsBitmap bm → IsBitmap (clear_frame f bm)
unfolding clear_frame
clear_frame-IsBitmap f bm h =
    omega
      (arith, length-set bm (f / 32) (bit_and (get_or bm (f / 32) 0) (2 ^ 32 - 1 - 2 ^ (f % 32))))

-- The digit of frame `g` after word `f / 32` was replaced by `w`.
used-set :
    (bm : Bitmap) (f g w : ℕ)
    → IsBitmap bm
    → f < max_frames
    → used (set bm (f / 32) w) g ≡ (if f / 32 == g / 32 then bit w (g % 32) == 1 else used bm g)
unfolding used
used-set bm f g w h lt = elim (ℕ_discrete (f / 32) (g / 32)) [
  | yes e ↦ ground (arith, get_or-set_self bm (f / 32) w 0 (omega arith))
  | no ne ↦ ground (arith, get_or-set_ne bm (f / 32) (g / 32) w 0 ne)
]

used_set :
    (bm : Bitmap) (f g : ℕ)
    → (if f / 32 == g / 32
        then bit (bit_or (get_or bm (f / 32) 0) (2 ^ (f % 32))) (g % 32) == 1
        else used bm g)
      ≡ (if f == g then true else used bm g)
unfolding used
used_set bm f g = ground (
  arith,
  bit-bit_or (get_or bm (f / 32) 0) (2 ^ (f % 32)) (g % 32),
  bit-pow (f % 32) (g % 32),
  bit-lt (get_or bm (f / 32) 0) (g % 32),
)

-- `set_frame` marks its frame and no other.
pub used-set_frame :
    (bm : Bitmap) (f g : ℕ)
    → IsBitmap bm
    → f < max_frames
    → used (set_frame f bm) g ≡ (if f == g then true else used bm g)
unfolding set_frame
used-set_frame bm f g h lt =
    used-set bm f g (bit_or (get_or bm (f / 32) 0) (2 ^ (f % 32))) h lt ∙ used_set bm f g

used_clear :
    (bm : Bitmap) (f g : ℕ)
    → (if f / 32 == g / 32
        then bit (bit_and (get_or bm (f / 32) 0) (2 ^ 32 - 1 - 2 ^ (f % 32))) (g % 32) == 1
        else used bm g)
      ≡ (if f == g then false else used bm g)
unfolding used
used_clear bm f g = ground (
  arith,
  bit-bit_and (get_or bm (f / 32) 0) (2 ^ 32 - 1 - 2 ^ (f % 32)) (g % 32),
  bit-not_pow 32 (f % 32) (g % 32) (omega arith) (omega arith),
  bit-lt (get_or bm (f / 32) 0) (g % 32),
)

-- `clear_frame` gives back its frame and no other.
pub used-clear_frame :
    (bm : Bitmap) (f g : ℕ)
    → IsBitmap bm
    → f < max_frames
    → used (clear_frame f bm) g ≡ (if f == g then false else used bm g)
unfolding clear_frame
used-clear_frame bm f g h lt =
    used-set bm f g (bit_and (get_or bm (f / 32) 0) (2 ^ 32 - 1 - 2 ^ (f % 32))) h lt
    ∙ used_clear bm f g
