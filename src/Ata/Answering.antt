-- ===== src/Ata/Answering.antt =====
-- The device of a drive that is ready answers every call.
use hypnos.Base.{
  ℕ, zero, suc, ◌+◌, ◌*◌, ◌≤◌, ◌<◌, ◌≡◌, refl, true, false, Option, none, some, List, [], ◌∷◌,
  arith, length, ltb, ◌==◌, Bool-cases, inl, inr,
}
use hypnos.Ata.{
  Ports, status_port, write_words, write_more, write_sector, write_loop, ata_write_sectors,
  ata_block_read, ata_block_write, ata_pio_init, start,
}
use hypnos.Ata.Transfer.{IsReady, Transfers, transfers, ata_wait-ready, ata_block_read-Transfers}
use hypnos.Blockdev.{Answers}

module _ {D : Type 0} (ports : Ports D) where
  write_words-returns :
      (n : ℕ) (buffer : List ℕ) (d : D)
      → n * 2 ≤ length buffer
      → (rest : List ℕ) × (d' : D) × (write_words ports n buffer d ≡ some (rest, d'))
        × (length rest + n * 2 ≡ length buffer)
  unfolding write_words
  write_words-returns zero buffer d h = (buffer, d, refl, omega arith)
  write_words-returns (suc n) [] d h = absurd (omega arith)
  write_words-returns (suc n) (a ∷ []) d h = absurd (omega arith)
  write_words-returns (suc n) (a ∷ b ∷ buffer) d h =
      let (rest, d', e, size) = write_words-returns n buffer _ (omega arith) in
      (rest, d', e, omega (arith, size))

  -- A result of some kind.
  abbrev Result : {A : Type 0} → Option (A × D) → Type 0
  Result {A} o = (r : A) × (d' : D) × (o ≡ some (r, d')) × Unit {0}

  read-Result : {n : ℕ} {o : Option (Option (List ℕ) × D)} → Transfers ports n o → Result o
  read-Result (transfers {bytes} {d} e) = (some bytes, d, refl, tt)

  module _ (ready : IsReady ports) (fuel : ℕ) (pos : 0 < fuel) where
    write_loop-Result :
        (count : ℕ) (buffer : List ℕ) (d : D)
        → count * 512 ≤ length buffer
        → Result (write_loop ports fuel count buffer d)
    unfolding write_loop write_sector write_more
    write_loop-Result zero buffer d h = (true, d, refl, tt)
    write_loop-Result (suc count) buffer d h =
        let (rest, d', e, size) =
          write_words-returns 256 buffer (ports.inb status_port d).1 (omega arith) in
        rw (ata_wait-ready ports ready fuel d pos, e)
          (write_loop-Result count rest d' (omega (arith, size)))

    sectors-Result :
        (lba count : ℕ) (buffer : List ℕ) (d : D)
        → count * 512 ≤ length buffer
        → Result (ata_write_sectors ports fuel lba count buffer d)
    unfolding ata_write_sectors
    sectors-Result lba count buffer d h = elim (Bool-cases (count == 0)) [
      | inl e ↦ rw e (true, d, refl, tt)
      | inr e ↦ rw e (write_loop-Result count buffer (start ports 0x30 lba count d) h)
    ]

    write-Result :
        (lba count : ℕ) (buffer : List ℕ) (d : D)
        → count * 512 ≤ length buffer
        → Result (ata_block_write ports fuel lba count buffer d)
    unfolding ata_block_write
    write-Result lba count buffer d h = elim (Bool-cases (count == 0)) [
      | inl e ↦ rw e (true, d, refl, tt)
      | inr e ↦ elim (Bool-cases (ltb 0x0FFFFFFF lba)) [
        | inl l ↦ rw (e, l) (false, d, refl, tt)
        | inr l ↦ elim (Bool-cases (ltb 255 count)) [
          | inl m ↦ rw (e, l, m) (sectors-Result lba 255 buffer d (ground arith))
          | inr m ↦ rw (e, l, m) (sectors-Result lba count buffer d h)
        ]
      ]
    ]

    block_read-Result : (lba count : ℕ) (d : D) → Result (ata_block_read ports fuel lba count d)
    unfolding ata_block_read
    block_read-Result lba count d = elim (Bool-cases (count == 0)) [
      | inl e ↦ rw e (some [], d, refl, tt)
      | inr e ↦ elim (Bool-cases (ltb 0x0FFFFFFF lba)) [
        | inl l ↦ rw (e, l) (none, d, refl, tt)
        | inr l ↦ read-Result (
            ata_block_read-Transfers ports ready fuel lba count d pos (ground arith) (ground arith))
      ]
    ]

    -- The disk of a drive that is ready at every read of its status answers every call.
    pub ata_pio_init-Answers : Answers (λ d. Unit {0}) (ata_pio_init ports fuel)
    unfolding ata_pio_init
    ata_pio_init-Answers = record {
      reads = λ lba count d r. block_read-Result lba count d;
      writes = λ lba count buffer d r full. write-Result lba count buffer d full;
    }
