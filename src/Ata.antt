-- ===== src/Ata.antt =====
-- kernel/arch/i386/drivers/ata_pio.c: the disk behind the ports of the ATA controller. What the drive
-- does at a port is a parameter: the state `D` of the drive, and the operations of a port on it.
pub mod Transfer
pub mod Answering
mod Tests
use hypnos.Base.{
  ℕ, zero, suc, ◌+◌, ◌-◌, ◌*◌, ◌/◌, ◌%◌, ◌^◌, Option, none, some, List, [], ◌∷◌, ◌++◌, bit_and,
  bit_or, Bool, true, false, not, ◌==◌, ltb, if◌then◌else◌, get_or, drop,
}
use hypnos.Blockdev.{BlockDevice}
use hypnos.Base.Int.{ℤ, pos, negsuc}

-- The ports of the drive: `inb` and `inw` read one, `outb` and `outw` write one.
pub record Ports (D : Type 0) : Type 0 where
  pub inb : ℕ → D → ℕ × D
  pub inw : ℕ → D → ℕ × D
  pub outb : ℕ → ℕ → D → D
  pub outw : ℕ → ℕ → D → D

abbrev pub primary_io : ℕ
primary_io = 0x1F0

abbrev pub primary_ctrl : ℕ
primary_ctrl = 0x3F6

abbrev pub status_port : ℕ
status_port = 0x1F7

-- ATA_SR_BSY, ATA_SR_DRQ and ATA_SR_ERR
abbrev pub is_busy : ℕ → Bool
is_busy status = not (bit_and status 0x80 == 0)

abbrev pub is_done : ℕ → Bool
is_done status = not (bit_and status (bit_or 0x08 0x01) == 0)

abbrev pub is_error : ℕ → Bool
is_error status = not (bit_and status 0x01 == 0)

module _ {D : Type 0} (ports : Ports D) where
  -- The first loop of `ata_wait`: the status when the drive is no longer busy.
  unfoldable pub wait_busy : ℕ → D → Option (ℕ × D)
  wait_busy zero d = none
  wait_busy (suc fuel) d =
      let (status, d') = ports.inb status_port d in
      let rest = wait_busy fuel d' in if is_busy status then rest else some (status, d')

  -- The second loop of `ata_wait`.
  unfoldable pub wait_done : ℕ → ℕ → D → Option (ℕ × D)
  wait_done zero status d = none
  wait_done (suc fuel) status d =
      let (status', d') = ports.inb status_port d in
      let rest = wait_done fuel status' d' in if is_done status then some (status, d) else rest

  waited : Option (ℕ × D) → Option (Bool × D)
  waited none = none
  waited (some (status, d)) = some (not (is_error status), d)

  then_done : ℕ → Option (ℕ × D) → Option (ℕ × D)
  unfolding wait_done
  then_done fuel none = none
  then_done fuel (some (status, d)) = wait_done fuel status d

  -- `ata_wait`: whether it returns 0. The loops read the port as long as the drive makes them; `none` is
  -- that they were not over after `fuel` rounds.
  unfoldable pub ata_wait : ℕ → D → Option (Bool × D)
  unfolding wait_busy then_done waited
  ata_wait fuel d = waited (then_done fuel (wait_busy fuel d))

  -- The command that starts a transfer.
  unfoldable pub start : ℕ → ℕ → ℕ → D → D
  start cmd lba count d =
      let d1 = ports.outb primary_ctrl 0 d in
      let d2 = ports.outb (primary_io + 6) (bit_or 0xE0 (lba / 2 ^ 24 % 2 ^ 4)) d1 in
      let d3 = ports.outb (primary_io + 2) count d2 in
      let d4 = ports.outb (primary_io + 3) (lba % 2 ^ 8) d3 in
      let d5 = ports.outb (primary_io + 4) (lba / 2 ^ 8 % 2 ^ 8) d4 in
      let d6 = ports.outb (primary_io + 5) (lba / 2 ^ 16 % 2 ^ 8) d5 in
      ports.outb (primary_io + 7) cmd d6

  -- The loop that reads the words of a sector.
  unfoldable pub read_words : ℕ → D → List ℕ × D
  read_words zero d = ([], d)
  read_words (suc n) d =
      let (w, d') = ports.inw primary_io d in
      let (rest, d'') = read_words n d' in (w % 2 ^ 8 ∷ (w / 2 ^ 8 % 2 ^ 8) ∷ rest, d'')

  -- What follows a sector that was read.
  read_more : List ℕ → Option (Option (List ℕ) × D) → Option (Option (List ℕ) × D)
  read_more bytes none = none
  read_more bytes (some (none, d)) = some (none, d)
  read_more bytes (some (some rest, d)) = some (some (bytes ++ rest), d)

  read_sector :
      (D → Option (Option (List ℕ) × D)) → Option (Bool × D) → Option (Option (List ℕ) × D)
  unfolding read_more
  read_sector again none = none
  read_sector again (some (false, d)) = some (none, d)
  read_sector again (some (true, d)) =
      let (bytes, d') = read_words 256 d in read_more bytes (again d')

  -- The loop of `ata_read_sectors`: the bytes, or none when the drive reports an error.
  unfoldable pub read_loop : ℕ → ℕ → D → Option (Option (List ℕ) × D)
  unfolding read_sector
  read_loop fuel zero d = some (some [], d)
  read_loop fuel (suc count) d = read_sector (read_loop fuel count) (ata_wait fuel d)

  -- `ata_read_sectors`
  unfoldable pub ata_read_sectors : ℕ → ℕ → ℕ → D → Option (Option (List ℕ) × D)
  unfolding read_loop start
  ata_read_sectors fuel lba count d =
      if count == 0 then some (some [], d) else read_loop fuel count (start 0x20 lba count d)

  -- The loop that writes the words of a sector, and the rest of the buffer; a buffer that is too short
  -- has no result.
  unfoldable pub write_words : ℕ → List ℕ → D → Option (List ℕ × D)
  write_words zero buffer d = some (buffer, d)
  write_words (suc n) [] d = none
  write_words (suc n) (a ∷ []) d = none
  write_words (suc n) (a ∷ b ∷ buffer) d =
      write_words n buffer (ports.outw primary_io (a + b * 2 ^ 8) d)

  write_more : (List ℕ → D → Option (Bool × D)) → Option (List ℕ × D) → Option (Bool × D)
  write_more again none = none
  write_more again (some (buffer, d)) = again buffer d

  write_sector : (List ℕ → D → Option (Bool × D)) → List ℕ → Option (Bool × D) → Option (Bool × D)
  unfolding write_more
  write_sector again buffer none = none
  write_sector again buffer (some (false, d)) = some (false, d)
  write_sector again buffer (some (true, d)) = write_more again (write_words 256 buffer d)

  -- The loop of `ata_write_sectors`: whether it returns 0.
  unfoldable pub write_loop : ℕ → ℕ → List ℕ → D → Option (Bool × D)
  unfolding write_sector
  write_loop fuel zero buffer d = some (true, d)
  write_loop fuel (suc count) buffer d =
      write_sector (write_loop fuel count) buffer (ata_wait fuel d)

  -- `ata_write_sectors`
  unfoldable pub ata_write_sectors : ℕ → ℕ → ℕ → List ℕ → D → Option (Bool × D)
  unfolding write_loop start
  ata_write_sectors fuel lba count buffer d =
      if count == 0 then some (true, d) else write_loop fuel count buffer (start 0x30 lba count d)

  -- `ata_block_read`
  unfoldable pub ata_block_read : ℕ → ℕ → ℕ → D → Option (Option (List ℕ) × D)
  ata_block_read fuel lba count d =
      if count == 0
      then some (some [], d)
      else if ltb 0x0FFFFFFF lba
      then some (none, d)
      else ata_read_sectors fuel lba (if ltb 255 count then 255 else count) d

  -- `ata_block_write`
  unfoldable pub ata_block_write : ℕ → ℕ → ℕ → List ℕ → D → Option (Bool × D)
  ata_block_write fuel lba count buffer d =
      if count == 0
      then some (true, d)
      else if ltb 0x0FFFFFFF lba
      then some (false, d)
      else ata_write_sectors fuel lba (if ltb 255 count then 255 else count) buffer d

-- `dev.num_sectors` of `ata_pio_init`
abbrev pub ata_num_sectors : ℕ
ata_num_sectors = 8192 * 1024 * 1024 / 512

-- The device of `ata_pio_init`, on a drive behind these ports; its name and the message are left out.
unfoldable pub ata_pio_init : {D : Type 0} → Ports D → ℕ → BlockDevice D
unfolding ata_block_read ata_block_write
ata_pio_init ports fuel = record {
  num_sectors = ata_num_sectors;
  read = ata_block_read ports fuel;
  write = ata_block_write ports fuel;
}
