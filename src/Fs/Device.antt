-- ===== src/Fs/Device.antt =====
-- The contract between lab4_fs/rawdisk.c and its clients: a disk of numbered blocks, of which
-- `Rawdisk` is an implementation.
use edan35_os_lund_univ.Common.{ℕ, ◌<◌, ◌≡◌, Option, some, ◌==◌, if◌then◌else◌}
use edan35_os_lund_univ.Fs.Bytes.{Block, Same}

pub record BlockDevice : Type 1 where
  pub Disk : Type 0
  pub read_block : Disk → ℕ → Block → Disk × Block × Option ℕ
  pub write_block : Disk → ℕ → Block → Disk × Option ℕ
  -- the blocks that a disk holds, and how many
  pub blocks : Disk → ℕ → Block
  pub count : Disk → ℕ
  pub read_block-blocks : (d : Disk) (k : ℕ) (b : Block) → blocks (read_block d k b).0 ≡ blocks d
  pub read_block-count : (d : Disk) (k : ℕ) (b : Block) → count (read_block d k b).0 ≡ count d
  pub read_block-Same :
      (d : Disk) (k : ℕ) (b : Block) → k < count d → Same (read_block d k b).1 (blocks d k)
  pub read_block-result :
      (d : Disk) (k : ℕ) (b : Block) → k < count d → (read_block d k b).2 ≡ some 512
  pub write_block-count :
      (d : Disk) (k : ℕ) (b : Block) → k < count d → count (write_block d k b).0 ≡ count d
  pub write_block-result :
      (d : Disk) (k : ℕ) (b : Block) → k < count d → (write_block d k b).1 ≡ some 512
  pub write_block-Same :
      (d : Disk) (k m : ℕ) (b : Block)
      → k < count d
      → Same (blocks (write_block d k b).0 m) (if m == k then b else blocks d m)
