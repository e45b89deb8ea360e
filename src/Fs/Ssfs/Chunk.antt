-- ===== src/Fs/Ssfs/Chunk.antt =====
-- The part of do_write that reads one block, changes some of its bytes and writes it back.
use edan35_os_lund_univ.Common.{
  ℕ, ◌<◌, ◌≤◌, ◌≢◌, ◌≡◌, refl, ◌∙◌, ap, inl, inr, arith, ◌==◌, Bool-cases, if◌then◌else◌,
}
use edan35_os_lund_univ.Fs.Bytes.{Block, Same, copy, copy-Same}
use edan35_os_lund_univ.Fs.Device.{BlockDevice}
use edan35_os_lund_univ.Fs.Support.{Cache, save_blockmap}
use edan35_os_lund_univ.Fs.Support.Cached.{save_blockmap-count, save_blockmap-Same}
use edan35_os_lund_univ.Fs.Ssfs.{write_chunk}

module _ (dev : BlockDevice) where
  open dev use {blocks, count}

  pub write_chunk-count :
      (garbage buffer : Block) (b o n : ℕ) (c : Cache dev)
      → b < count c.disk
      → count (write_chunk dev garbage buffer b o n c).disk ≡ count c.disk
  unfolding write_chunk
  write_chunk-count garbage buffer b o n c h =
      dev.write_block-count _ b _ (rw (dev.read_block-count c.disk b garbage) h)
      ∙ dev.read_block-count c.disk b garbage

  pub write_chunk-cache :
      (garbage buffer : Block) (b o n : ℕ) (c : Cache dev)
      → let c' = write_chunk dev garbage buffer b o n c in (c'.bdir ≡ c.bdir) × (c'.bmap ≡ c.bmap)
  unfolding write_chunk
  write_chunk-cache garbage buffer b o n c = (refl, refl)

  pub write_chunk-Same :
      (garbage buffer : Block) (b o n m : ℕ) (c : Cache dev)
      → b < count c.disk
      → Same
          (blocks (write_chunk dev garbage buffer b o n c).disk m)
          (if m == b then copy (blocks c.disk b) o buffer n else blocks c.disk m)
  unfolding write_chunk
  write_chunk-Same garbage buffer b o n m c h j l =
      dev.write_block-Same _ b m _ (rw (dev.read_block-count c.disk b garbage) h) j l
      ∙ (elim (Bool-cases (m == b)) [
        | inl e ↦ rw e (copy-Same _ _ o buffer n (dev.read_block-Same c.disk b garbage h) j l)
        | inr e ↦ rw e (ap (λ d. d m j) (dev.read_block-blocks c.disk b garbage))
      ])

  -- The block and the block map are written.
  abbrev pub flushed : (garbage buffer : Block) (b o n : ℕ) → Cache dev → Cache dev
  flushed garbage buffer b o n c = save_blockmap dev (write_chunk dev garbage buffer b o n c)

  module _ (garbage buffer : Block) (b o n : ℕ) (c : Cache dev) (room : 10 ≤ count c.disk)
      (data_block : b < 10) where
    chunk_room : 10 ≤ count (write_chunk dev garbage buffer b o n c).disk
    chunk_room = rw (write_chunk-count garbage buffer b o n c (omega arith)) room

    pub flushed-count : count (flushed garbage buffer b o n c).disk ≡ count c.disk
    flushed-count =
        save_blockmap-count dev (write_chunk dev garbage buffer b o n c) (omega (arith, chunk_room))
        ∙ write_chunk-count garbage buffer b o n c (omega arith)

    pub flushed-map : Same (blocks (flushed garbage buffer b o n c).disk 0) c.bmap
    flushed-map j l =
        save_blockmap-Same dev (write_chunk dev garbage buffer b o n c) 0
          (omega (arith, chunk_room)) j l
        ∙ ap (λ m. m j) (write_chunk-cache garbage buffer b o n c).1

    pub flushed-Same :
        (m : ℕ)
        → m ≢ 0
        → Same
            (blocks (flushed garbage buffer b o n c).disk m)
            (if m == b then copy (blocks c.disk b) o buffer n else blocks c.disk m)
    flushed-Same m ne j l = ground (
      arith,
      save_blockmap-Same dev (write_chunk dev garbage buffer b o n c) m (omega (arith, chunk_room))
          j l,
      write_chunk-Same garbage buffer b o n m c (omega arith) j l,
    )
