-- ===== src/Ata/Tests.antt =====
-- The theorem on transfers, at a drive that is always ready and holds the same word everywhere.
use hypnos.Base.{ℕ, refl, arith, min, ◌*◌}
use hypnos.Ata.{Ports, ata_block_read}
use hypnos.Ata.Transfer.{IsReady, Transfers, ata_block_read-Transfers}

abbrev steady : Ports ℕ
steady = record {
  inb = λ port d. (0x58, d);
  inw = λ port d. (0x4241, d);
  outb = λ port v d. d;
  outw = λ port v d. d;
}

steady-IsReady : IsReady steady
steady-IsReady = record { free = λ d. refl; done = λ d. refl; fine = λ d. refl }

ata_block_read-Transfers_example :
    Transfers steady (min 256 255 * 512) (ata_block_read steady 1 7 256 0)
ata_block_read-Transfers_example =
    ata_block_read-Transfers steady steady-IsReady 1 7 256 0 (omega arith) (omega arith)
      (omega arith)
