-- ===== src/Blockdev.antt =====
-- kernel/fs/blockdev.h and kernel/fs/blockdev.c: the interface of a disk, over the state `D` of its
-- driver, and the one root device.
pub mod Ram
use hypnos.Base.{ℕ, ◌+◌, ◌*◌, ◌≤◌, ◌≡◌, Bool, true, Option, none, some, List, length, take}

-- `struct block_device`: `read` and `write` have no result when they do not return. `read` gives the
-- bytes that it puts into the buffer, `none` for an error, and `write` whether it returns 0; both may
-- change the state of the driver.
pub record BlockDevice (D : Type 0) : Type 0 where
  pub num_sectors : ℕ
  pub read : ℕ → ℕ → D → Option (Option (List ℕ) × D)
  pub write : ℕ → ℕ → List ℕ → D → Option (Bool × D)

-- Every call of the device returns, a write when its buffer is full. `IsReady` is what the driver keeps
-- true of its state.
pub record Answers {D : Type 0} (IsReady : D → Type 0) (dev : BlockDevice D) : Type 0 where
  pub reads :
      (lba count : ℕ) (d : D)
      → IsReady d
      → (r : Option (List ℕ)) × (d' : D) × (dev.read lba count d ≡ some (r, d')) × IsReady d'
  pub writes :
      (lba count : ℕ) (buffer : List ℕ) (d : D)
      → IsReady d
      → count * 512 ≤ length buffer
      → (ok : Bool) × (d' : D) × (dev.write lba count buffer d ≡ some (ok, d')) × IsReady d'

-- What a client relies on: a write of sectors of the disk, with a full buffer, succeeds, and a read
-- of the same sectors finds it. `IsReady` is what the driver keeps true of its state.
pub record Retains {D : Type 0} (dev : BlockDevice D) (IsReady : D → Type 0) : Type 0 where
  pub read-write :
      (d : D) (lba count : ℕ) (buffer : List ℕ)
      → IsReady d
      → lba + count ≤ dev.num_sectors
      → count * 512 ≤ length buffer
      → (d' : D) × (dev.write lba count buffer d ≡ some (true, d'))
        × IsReady d'
        × (e : D) × (dev.read lba count d' ≡ some (some (take (count * 512) buffer), e))
        × IsReady e

-- `g_root_dev`, with the driver's state. The variable is null at the start.
pub record Root (D : Type 0) : Type 0 where
  pub device : Option (BlockDevice D)
  pub disk : D

-- The root device answers, if there is one.
abbrev pub HasAnswers : {D : Type 0} → (D → Type 0) → Root D → Type 0
HasAnswers {D} IsReady r =
    ((dev : BlockDevice D) → r.device ≡ some dev → Answers IsReady dev) × IsReady r.disk

-- `blockdev_get_root`
unfoldable pub blockdev_get_root : {D : Type 0} → Root D → Option (BlockDevice D)
blockdev_get_root r = r.device

-- `blockdev_set_root`
unfoldable pub blockdev_set_root : {D : Type 0} → Option (BlockDevice D) → Root D → Root D
blockdev_set_root dev r = record r { device = dev }
