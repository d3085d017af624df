-- ===== src/Ramdisk/Ops.antt =====
-- What a write leaves is what a read finds.
use hypnos.Base.{
  ◌%◌, ◌^◌, ℕ, zero, suc, ◌+◌, ◌*◌, ◌<◌, ◌≤◌, ◌≡◌, refl, ap, ◌∙◌, List, [], ◌∷◌, some, take, drop,
  length, false, arith, ltb,
}
use hypnos.Ramdisk.{Disk, sector_size, out_of_range, offset, ramdisk_read, ramdisk_write, overwrite}

length-overwrite :
    (old : List ℕ) (i n : ℕ) (src : List ℕ) → length (overwrite old i n src) ≡ length old
unfolding overwrite
length-overwrite old zero zero src = refl
length-overwrite old zero (suc n) [] = refl
length-overwrite [] zero (suc n) (c ∷ src) = refl
length-overwrite (b ∷ old) zero (suc n) (c ∷ src) = ap suc (length-overwrite old zero n src)
length-overwrite [] (suc i) n src = refl
length-overwrite (b ∷ old) (suc i) n src = ap suc (length-overwrite old i n src)

overwrite_read :
    (old : List ℕ) (i n : ℕ) (src : List ℕ)
    → i + n ≤ length old
    → n ≤ length src
    → take n (drop i (overwrite old i n src)) ≡ take n src
unfolding overwrite
overwrite_read old zero zero src le ls = refl
overwrite_read old zero (suc n) [] le ls = absurd (omega arith)
overwrite_read [] zero (suc n) (c ∷ src) le ls = absurd (omega arith)
overwrite_read (b ∷ old) zero (suc n) (c ∷ src) le ls =
    ap (λ t. c ∷ t) (overwrite_read old zero n src (omega arith) (omega arith))
overwrite_read [] (suc i) n src le ls = absurd (omega arith)
overwrite_read (b ∷ old) (suc i) n src le ls = overwrite_read old i n src (omega arith) ls

-- The bytes that a disk says it has are there, fewer than 2 ^ 32, so that they fit in memory.
pub record IsDisk (d : Disk) : Type 0 where
  pub size : length d.bytes ≡ d.size_bytes
  pub small : d.size_bytes < 2 ^ 32

in_range :
    (d : Disk) (lba count : ℕ)
    → IsDisk d
    → (lba + count) * sector_size ≤ d.size_bytes
    → out_of_range lba count d ≡ false
in_range d lba count v le =
    let e : (lba * sector_size % 2 ^ 64 + count * sector_size) % 2 ^ 64
        ≡ (lba + count) * sector_size =
      omega (arith, v.small) in
    let r : ltb d.size_bytes ((lba + count) * sector_size) ≡ false = ground arith in rw e r

pub ramdisk_read-write :
    (d : Disk) (lba count : ℕ) (buffer : List ℕ)
    → IsDisk d
    → (lba + count) * sector_size ≤ d.size_bytes
    → count * sector_size ≤ length buffer
    → (d' : Disk) × (ramdisk_write lba count buffer d ≡ some d')
      × IsDisk d'
      × (ramdisk_read lba count d' ≡ some (take (count * sector_size) buffer))
unfolding ramdisk_write ramdisk_read
ramdisk_read-write d lba count buffer v le ls =
    let at : offset lba ≡ lba * 512 = omega (arith, v.small) in
    let ok : out_of_range lba count d ≡ false = in_range d lba count v le in
    let d' : Disk = record d {
      bytes = overwrite d.bytes (offset lba) (count * sector_size) buffer;
    } in
    (
      d',
      rw (ramdisk_write, ok),
      record {
        size = length-overwrite d.bytes (offset lba) (count * sector_size) buffer ∙ v.size;
        small = v.small;
      },
      rw (ramdisk_read, ok)
          (ap some (
            overwrite_read d.bytes (offset lba) (count * sector_size) buffer (omega (arith, v.size))
              ls)),
    )

-- A write does not change the size of the disk.
pub ramdisk_write-size :
    (d : Disk) (lba count : ℕ) (buffer : List ℕ) (d' : Disk)
    → ramdisk_write lba count buffer d ≡ some d'
    → d'.size_bytes ≡ d.size_bytes
unfolding ramdisk_write
ramdisk_write-size d lba count buffer d' w = ground arith
