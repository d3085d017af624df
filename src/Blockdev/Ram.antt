-- ===== src/Blockdev/Ram.antt =====
-- The RAM disk of kernel/fs/ramdisk.c as a block device.
use hypnos.Base.{ℕ, ◌/◌, ◌≡◌, refl, arith, ◌∙◌, Bool, true, false, Option, none, some, List}
use hypnos.Blockdev.{BlockDevice, Answers, Retains}
use hypnos.Ramdisk.{Disk, ramdisk_read, ramdisk_write}
use hypnos.Ramdisk.Ops.{IsDisk, ramdisk_read-write, ramdisk_write-size}

-- What a call of a driver gives back, with the state of the disk that it did not change.
abbrev pub read_result : Option (List ℕ) → Disk → Option (Option (List ℕ) × Disk)
read_result r d = some (r, d)

abbrev pub write_result : Option Disk → Disk → Option (Bool × Disk)
write_result none d = some (false, d)
write_result (some d') d = some (true, d')

-- The device of a disk of `size` bytes, with the function pointers of `ramdisk_create`.
abbrev pub ramdisk_device : ℕ → BlockDevice Disk
ramdisk_device size = record {
  num_sectors = size / 512;
  read = λ lba count d. read_result (ramdisk_read lba count d) d;
  write = λ lba count buffer d. write_result (ramdisk_write lba count buffer d) d;
}

-- A disk of that size, with all its bytes.
abbrev pub IsReady : ℕ → Disk → Type 0
IsReady size d = IsDisk d × (d.size_bytes ≡ size)

-- The RAM disk keeps what the interface of block devices promises.
pub ramdisk-Retains : (size : ℕ) → Retains (ramdisk_device size) (IsReady size)
ramdisk-Retains size = record {
  read-write = λ d lba count buffer v le ls.
      let (d', w, v', r) = ramdisk_read-write d lba count buffer v.0 (omega (arith, v.1)) ls in
      let ready : IsReady size d' = (v', ramdisk_write-size d lba count buffer d' w ∙ v.1) in
      (d', rw w refl, ready, d', rw r refl, ready);
}

written :
    (r : Option Disk) (d : Disk)
    → (ok : Bool) × (d' : Disk) × (write_result r d ≡ some (ok, d')) × Unit {0}
written none d = (false, d, refl, tt)
written (some d') d = (true, d', refl, tt)

-- Every call of the RAM disk returns, whatever its state.
pub ramdisk-Answers : (size : ℕ) → Answers (λ d. Unit {0}) (ramdisk_device size)
ramdisk-Answers size = record {
  reads = λ lba count d ready. (ramdisk_read lba count d, d, refl, tt);
  writes = λ lba count buffer d ready full. written (ramdisk_write lba count buffer d) d;
}
