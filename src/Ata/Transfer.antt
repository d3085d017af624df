-- ===== src/Ata/Transfer.antt =====
-- What a read of the disk transfers.
use hypnos.Base.{
  ℕ, zero, suc, ◌+◌, ◌*◌, ◌≤◌, ◌<◌, ◌≡◌, refl, true, false, Option, some, List, min, arith, length,
  length-append, ltb, ◌==◌, Bool-cases, inl, inr,
}
use hypnos.Ata.{
  Ports, status_port, is_busy, is_done, is_error, wait_busy, wait_done, waited, then_done, ata_wait,
  read_words, read_more, read_sector, read_loop, ata_read_sectors, ata_block_read, start,
}

module _ {D : Type 0} (ports : Ports D) where
  -- The drive is ready at every read of its status: not busy, with data to transfer and without an error.
  pub record IsReady : Type 0 where
    pub free : (d : D) → is_busy (ports.inb status_port d).0 ≡ false
    pub done : (d : D) → is_done (ports.inb status_port d).0 ≡ true
    pub fine : (d : D) → is_error (ports.inb status_port d).0 ≡ false

  module _ (ready : IsReady) where
    pub ata_wait-ready :
        (fuel : ℕ) (d : D)
        → 0 < fuel
        → ata_wait ports fuel d ≡ some (true, (ports.inb status_port d).1)
    unfolding ata_wait wait_busy wait_done waited then_done
    ata_wait-ready zero d h = absurd (omega arith)
    ata_wait-ready (suc fuel) d h = rw (ready.free d, ready.done d, ready.fine d) refl

  length-read_words : (n : ℕ) (d : D) → length (read_words ports n d).0 ≡ n * 2
  unfolding read_words
  length-read_words zero d = refl
  length-read_words (suc n) d = omega (arith, length-read_words n (ports.inw 0x1F0 d).1)

  -- The transfer succeeds with that many bytes.
  pub data Transfers (n : ℕ) : Option (Option (List ℕ) × D) → Type 0 where
    transfers : {bytes : List ℕ} {d : D} → length bytes ≡ n → Transfers n (some (some bytes, d))

  read_more-Transfers :
      (bytes : List ℕ) (m n : ℕ) {o : Option (Option (List ℕ) × D)}
      → length bytes ≡ m
      → Transfers n o
      → Transfers (m + n) (read_more ports bytes o)
  unfolding read_more
  read_more-Transfers bytes m n h (transfers {bytes = rest} e) =
      transfers (omega (arith, length-append bytes rest))

  module _ (ready : IsReady) where
    read_loop-Transfers :
        (fuel count : ℕ) (d : D) → 0 < fuel → Transfers (count * 512) (read_loop ports fuel count d)
    unfolding read_loop read_sector
    read_loop-Transfers fuel zero d h = transfers refl
    read_loop-Transfers fuel (suc count) d h =
        let d' = (ports.inb status_port d).1 in
        let (bytes, d'') = read_words ports 256 d' in
        let size : length bytes ≡ 512 = length-read_words 256 d' in
        let t : Transfers (512 + count * 512)
            (read_more ports bytes (read_loop ports fuel count d'')) =
          read_more-Transfers bytes 512 (count * 512) size (read_loop-Transfers fuel count d'' h) in
        let total : suc count * 512 ≡ 512 + count * 512 = omega arith in
        rw (ata_wait-ready ready fuel d h, total) t

    -- From a drive that is ready at every read of its status, a read of one sector or more at an address
    -- of 28 bits returns without an error after one round of each loop, with as many sectors as asked for
    -- or 255, whichever is less.
    pub ata_block_read-Transfers :
        (fuel lba count : ℕ) (d : D)
        → 0 < fuel
        → 0 < count
        → lba ≤ 0x0FFFFFFF
        → Transfers (min count 255 * 512) (ata_block_read ports fuel lba count d)
    unfolding ata_block_read ata_read_sectors
    ata_block_read-Transfers fuel lba count d h pos small =
        let n : (count == 0) ≡ false = ground arith in
        let l : ltb 0x0FFFFFFF lba ≡ false = ground arith in
        elim (Bool-cases (ltb 255 count)) [
          | inl e ↦
              let m : min count 255 ≡ 255 = ground arith in
              rw (n, l, e, m) (read_loop-Transfers fuel 255 (start ports 0x20 lba 255 d) h)
          | inr e ↦
              let m : min count 255 ≡ count = ground arith in
              rw (n, l, e, m, n) (read_loop-Transfers fuel count (start ports 0x20 lba count d) h)
        ]
