-- ===== src/Mm/Physmem.antt =====
-- kernel/arch/i386/mm/physmem.c: the allocator of physical frames. The state is `frame_bitmap`, one
-- bit for a frame, as a list of 32-bit words. The messages on the console are left out.
pub mod View
pub mod Search
pub mod Ops
pub mod Init
mod Tests
use hypnos.Base.{
  ℕ, zero, suc, ◌+◌, ◌-◌, ◌*◌, ◌/◌, ◌%◌, ◌^◌, Bool, not, ◌&&◌, Option, none, some, List, bit_and,
  bit_or, ltb, ◌==◌, if◌then◌else◌, get_or, set, replicate,
}

-- PAGE_SIZE
abbrev pub page_size : ℕ
page_size = 4096

-- MAX_FRAMES: 2 GB of frames
abbrev pub max_frames : ℕ
max_frames = 2048 * 1024 * 1024 / page_size

-- The words of `frame_bitmap`.
abbrev pub num_words : ℕ
num_words = max_frames / 32

abbrev pub Bitmap : Type 0
Bitmap = List ℕ

unfoldable pub set_frame : ℕ → Bitmap → Bitmap
set_frame frame bm = set bm (frame / 32) (bit_or (get_or bm (frame / 32) 0) (2 ^ (frame % 32)))

unfoldable pub clear_frame : ℕ → Bitmap → Bitmap
clear_frame frame bm =
    set bm (frame / 32) (bit_and (get_or bm (frame / 32) 0) (2 ^ 32 - 1 - 2 ^ (frame % 32)))

-- The C result is an `int` that is zero for a free frame.
unfoldable pub test_frame : ℕ → Bitmap → ℕ
test_frame frame bm = bit_and (get_or bm (frame / 32) 0) (2 ^ (frame % 32))

-- The inner loop over `j`, with `32 - j` rounds left.
unfoldable pub scan_bits : Bitmap → ℕ → ℕ → Option ℕ
scan_bits bm i zero = none
scan_bits bm i (suc rounds) =
    let rest = scan_bits bm i rounds in
    let frame = i * 32 + (31 - rounds) in
    if ltb frame max_frames && (test_frame frame bm == 0) then some frame else rest

pub or_else : Option ℕ → Option ℕ → Option ℕ
or_else none o = o
or_else (some f) o = some f

-- The outer loop over `i`, with `num_words - i` rounds left.
unfoldable pub scan_words : Bitmap → ℕ → Option ℕ
unfolding or_else
scan_words bm zero = none
scan_words bm (suc rounds) =
    let i = num_words - suc rounds in
    let rest = scan_words bm rounds in
    if not (get_or bm i 0 == 0xFFFFFFFF) then or_else (scan_bits bm i 32) rest else rest

-- `none` is the C result (uint32_t)-1.
unfoldable pub first_free_frame : Bitmap → Option ℕ
first_free_frame bm = scan_words bm num_words

-- The loop that reserves the frames below `n`, from `i` up, with `n - i` rounds left.
unfoldable pub reserve : ℕ → ℕ → Bitmap → Bitmap
reserve n zero bm = bm
reserve n (suc rounds) bm = reserve n rounds (set_frame (n - suc rounds) bm)

-- `kernel_end` is the address that the linker gives to the symbol of that name.
unfoldable pub phys_init : ℕ → Bitmap
phys_init kernel_end =
    let first_free_addr = (kernel_end + page_size - 1) % 2 ^ 32 / page_size * page_size in
    let n = first_free_addr / page_size in reserve n n (replicate num_words 0)

-- The result 0 stands for a failure.
unfoldable pub phys_alloc_frame : Bitmap → ℕ × Bitmap
phys_alloc_frame bm = elim (first_free_frame bm) [
  | none ↦ (0, bm)
  | some frame ↦ (frame * page_size % 2 ^ 32, set_frame frame bm)
]

unfoldable pub phys_free_frame : ℕ → Bitmap → Bitmap
phys_free_frame addr bm =
    if addr == 0
    then bm
    else if ltb (addr / page_size) max_frames
    then clear_frame (addr / page_size) bm
    else bm
