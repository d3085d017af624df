-- ===== src/Shell/Disk.antt =====
-- The commands of the shell that read and write a sector of the root disk.
use hypnos.Base.{
  ℕ, Bool, true, false, ◌+◌, ◌*◌, ◌-◌, ◌%◌, ◌^◌, ◌&&◌, ◌||◌, Option, none, some, List, [], ◌∷◌,
  ◌++◌, ltb, leb, if◌then◌else◌, take, length, replicate,
}
use hypnos.CStr.{CString}
use hypnos.Blockdev.{BlockDevice, blockdev_get_root}
use hypnos.Kernel.{KernelM, put_char, pure, ◌>>=◌, ◌>>◌, gets, call, print}
use hypnos.Shell.Command.{skip_spaces}

-- The loop that reads a number of 32 bits: the number and the rest.
unfoldable pub number_from : ℕ → CString → ℕ × CString
number_from n [] = (n, [])
number_from n (c ∷ s) =
    let rest = number_from ((n * 10 + (c - b'0')) % 2 ^ 32) s in
    if leb b'0' c && leb c b'9' then rest else (n, c ∷ s)

-- The bytes that are printed of a sector: those that are no text become dots.
unfoldable pub shown_byte : ℕ → ℕ
shown_byte c = if ltb c 32 || ltb 126 c then b'.' else c

-- The sector that `diskwrite` fills: at most 511 bytes of the text, and zeros.
unfoldable pub sector_of : CString → List ℕ
sector_of text = let t = take 511 text in t ++ replicate (512 - length t) 0

module _ {D : Type 0} where
  unfoldable pub put_bytes : List ℕ → KernelM D (Unit {0})
  unfolding shown_byte call
  put_bytes [] = pure tt
  put_bytes (c ∷ s) = do call (put_char (shown_byte c)); put_bytes s

  unfoldable pub show_sector : Option (List ℕ) → KernelM D (Unit {0})
  unfolding put_bytes
  show_sector none = print "diskread: read error\n"
  show_sector (some bytes) = do print "Sector "; put_bytes (take 64 bytes); print "\n"

  -- A call of the driver, which leaves the disk in a new state, if it returns.
  unfoldable pub on_disk : {A : Type 0} → Option (A × D) → KernelM D A
  on_disk none k = none
  on_disk (some (a, d)) k = some (a, record k { root = record k.root { disk = d } })

  unfoldable pub read_from : Option (BlockDevice D) → ℕ → KernelM D (Unit {0})
  unfolding show_sector on_disk
  read_from none lba = print "diskread: no root block device\n"
  read_from (some dev) lba = do
    k ← gets (λ k. k)
    r ← on_disk (dev.read lba 1 k.root.disk)
    show_sector r

  -- `cmd_diskread`
  unfoldable pub cmd_diskread : CString → KernelM D (Unit {0})
  unfolding read_from number_from
  cmd_diskread arg = do
    k ← gets (λ k. k)
    let (lba, rest) = number_from 0 (skip_spaces arg)
    read_from (blockdev_get_root k.root) lba

  unfoldable pub wrote : Bool → KernelM D (Unit {0})
  unfolding call
  wrote false = print "diskwrite: write error\n"
  wrote true = print "diskwrite: wrote sector\n"

  unfoldable pub write_to : Option (BlockDevice D) → ℕ → CString → KernelM D (Unit {0})
  unfolding wrote sector_of on_disk
  write_to none lba text = print "diskwrite: no root block device\n"
  write_to (some dev) lba text = do
    k ← gets (λ k. k)
    ok ← on_disk (dev.write lba 1 (sector_of text) k.root.disk)
    wrote ok

  -- `cmd_diskwrite`
  unfoldable pub cmd_diskwrite : CString → KernelM D (Unit {0})
  unfolding write_to number_from
  cmd_diskwrite arg = do
    k ← gets (λ k. k)
    let (lba, rest) = number_from 0 (skip_spaces arg)
    write_to (blockdev_get_root k.root) lba (skip_spaces rest)
