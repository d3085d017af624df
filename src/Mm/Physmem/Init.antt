-- ===== src/Mm/Physmem/Init.antt =====
-- `phys_init` reserves the frames of the kernel's image and leaves the others free.
use hypnos.Base.{
  ℕ, zero, suc, ◌+◌, ◌-◌, ◌*◌, ◌/◌, ◌%◌, ◌^◌, ◌≤◌, ◌≡◌, refl, true, false, arith, ltb, leb, ◌&&◌,
  if◌then◌else◌, replicate, get_or, length-replicate,
}
use hypnos.Base.Bits.{bit-zero}
use hypnos.Mm.Physmem.{Bitmap, max_frames, num_words, page_size, set_frame, reserve, phys_init}
use hypnos.Mm.Physmem.View.{IsBitmap, used, used-set_frame, set_frame-IsBitmap}

get_or-replicate : (n i : ℕ) → get_or (replicate {A = ℕ} n 0) i 0 ≡ 0
get_or-replicate zero i = refl
get_or-replicate (suc n) zero = refl
get_or-replicate (suc n) (suc i) = get_or-replicate n i

used-replicate : (n g : ℕ) → used (replicate {A = ℕ} n 0) g ≡ false
unfolding used
used-replicate n g = ground (arith, get_or-replicate n (g / 32), bit-zero (g % 32))

reserve-IsBitmap : (n rounds : ℕ) (bm : Bitmap) → IsBitmap bm → IsBitmap (reserve n rounds bm)
unfolding reserve
reserve-IsBitmap n zero bm h = h
reserve-IsBitmap n (suc r) bm h =
    reserve-IsBitmap n r (set_frame (n - suc r) bm) (set_frame-IsBitmap (n - suc r) bm h)

used-reserve :
    (n rounds : ℕ) (bm : Bitmap) (g : ℕ)
    → IsBitmap bm
    → n ≤ max_frames
    → rounds ≤ n
    → used (reserve n rounds bm) g ≡ (if leb (n - rounds) g && ltb g n then true else used bm g)
unfolding reserve
used-reserve n zero bm g h hn hr = ground arith
used-reserve n (suc r) bm g h hn hr = ground (
  arith,
  used-reserve n r (set_frame (n - suc r) bm) g (set_frame-IsBitmap (n - suc r) bm h) hn,
  used-set_frame bm (n - suc r) g h,
)

-- When the kernel ends in the first 2 GB, exactly the frames that hold a byte below its end are in
-- use after `phys_init`, and the bitmap has the right size.
pub phys_init_lem :
    (kernel_end g : ℕ)
    → kernel_end ≤ max_frames * page_size
    → IsBitmap (phys_init kernel_end)
      × (used (phys_init kernel_end) g ≡ ltb (g * page_size) kernel_end)
unfolding phys_init
phys_init_lem ke g h =
    let n : ℕ = (ke + page_size - 1) % 2 ^ 32 / page_size * page_size / page_size in
    let zeros : Bitmap = replicate num_words 0 in
    let sized : IsBitmap zeros = length-replicate {A = ℕ} num_words 0 in
    let small : n ≤ max_frames = omega arith in
    (
      reserve-IsBitmap n n zeros sized,
      ground (arith, used-reserve n n zeros g sized small, used-replicate num_words g),
    )
