-- ===== src/Ramdisk.antt =====
-- kernel/fs/ramdisk.c: a block device in memory. The data is a list of bytes; a buffer that a call
-- reads holds `count` sectors at least, as the interface asks. `name` and the function pointers of
-- the device are left out.
pub mod Ops
mod Tests
use hypnos.Base.{
  ℕ, zero, suc, ◌+◌, ◌*◌, ◌/◌, ◌%◌, ◌^◌, Bool, Option, none, some, List, [], ◌∷◌, ◌++◌, ltb,
  if◌then◌else◌, take, drop, replicate, length,
}
use hypnos.Mm.Kmalloc.{Kheap, kmalloc}

-- SECTOR_SIZE
abbrev pub sector_size : ℕ
sector_size = 512

pub record Disk : Type 0 where
  pub bytes : List ℕ
  pub size_bytes : ℕ
  pub num_sectors : ℕ

-- `offset + bytes > size_bytes` in 64 bits; `count` is a `uint32_t`.
abbrev pub out_of_range : ℕ → ℕ → Disk → Bool
out_of_range lba count d =
    ltb d.size_bytes ((lba * sector_size % 2 ^ 64 + count * sector_size) % 2 ^ 64)

abbrev pub offset : ℕ → ℕ
offset lba = lba * sector_size % 2 ^ 64

-- `ramdisk_read`: what it copies to the buffer, `none` for -1.
unfoldable pub ramdisk_read : ℕ → ℕ → Disk → Option (List ℕ)
ramdisk_read lba count d =
    if out_of_range lba count d
    then none
    else some (take (count * sector_size) (drop (offset lba) d.bytes))

-- The loop that copies the first `n` bytes of `src` over the bytes from index `i` on.
unfoldable pub overwrite : List ℕ → ℕ → ℕ → List ℕ → List ℕ
overwrite old zero zero src = old
overwrite old zero (suc n) [] = old
overwrite [] zero (suc n) (c ∷ src) = []
overwrite (b ∷ old) zero (suc n) (c ∷ src) = c ∷ overwrite old zero n src
overwrite [] (suc i) n src = []
overwrite (b ∷ old) (suc i) n src = b ∷ overwrite old i n src

-- `ramdisk_write`: `none` for -1.
unfoldable pub ramdisk_write : ℕ → ℕ → List ℕ → Disk → Option Disk
ramdisk_write lba count buffer d =
    if out_of_range lba count d
    then none
    else some (record d { bytes = overwrite d.bytes (offset lba) (count * sector_size) buffer })

-- sizeof(ramdisk_t) on i386
abbrev pub sizeof_ramdisk : ℕ
sizeof_ramdisk = 32

create_on : ℕ → Option ℕ × Kheap → Option Disk × Kheap
create_on size (none, h) = (none, h)
create_on size (some p, h) = (
  some (record { bytes = replicate size 0; size_bytes = size; num_sectors = size / sector_size }),
  h,
)

create_with : ℕ → Option ℕ × Kheap → Option Disk × Kheap
unfolding create_on
create_with size (none, h) = (none, h)
create_with size (some p, h) = create_on size (kmalloc (size % 2 ^ 32) h)

-- `ramdisk_create`: the `size_t` that `kmalloc` is asked for has 32 bits.
unfoldable pub ramdisk_create : ℕ → Kheap → Option Disk × Kheap
unfolding create_with
ramdisk_create size h = create_with size (kmalloc sizeof_ramdisk h)
