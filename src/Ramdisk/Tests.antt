-- ===== src/Ramdisk/Tests.antt =====
-- The round trip of the disk, at a disk of one sector.
use hypnos.Base.{replicate}
use hypnos.Ramdisk.{Disk}

abbrev one_sector : Disk
one_sector = record { bytes = replicate 512 0; size_bytes = 512; num_sectors = 1 }
