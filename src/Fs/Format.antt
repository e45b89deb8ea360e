-- ===== src/Fs/Format.antt =====
-- lab4_fs/format_myfs.c: the block map and the empty directory of a new file system.
use edan35_os_lund_univ.Common.{
  ℕ, zero, suc, ◌+◌, ◌-◌, ◌*◌, ◌≤◌, ◌<◌, ◌≡◌, ◌≢◌, refl, ◌∙◌, Bool, true, false, none, some, List,
  [], ◌∷◌, arith, ◌==◌, ltb, leb, ◌&&◌, if◌then◌else◌,
}
use edan35_os_lund_univ.Fs.Bytes.{Block, Same}
use edan35_os_lund_univ.Fs.Device.{BlockDevice}
use edan35_os_lund_univ.Fs.Layout.{
  link, set_link, link-set_link_if, fs_nblocks, blkmap_bid, rootdir_bid,
}
use edan35_os_lund_univ.Fs.Support.FreeList.{IsFreeList}
use edan35_os_lund_univ.Fs.Consistent.{Consistent, IsConsistent, Consistent-Same}

-- the loop over the block numbers, with the rounds that are left
link_up : ℕ → ℕ → Block → Block
link_up zero bid b = b
link_up (suc n) bid b = link_up n (suc bid) (set_link b bid (bid + 1))

-- `garbage` is what the local variable `blk` holds at first.
new_blockmap : Block → Block
new_blockmap garbage =
    set_link (link_up (fs_nblocks - 2) 2 (set_link garbage 0 2)) (fs_nblocks - 1) 0

-- bzero
zeroes : Block → Block
zeroes b j = if ltb j 512 then 0 else b j

-- The part of main between opening and closing the disk; `false` stands for the result -1.
pub format : (dev : BlockDevice) (garbage : Block) → dev.Disk → dev.Disk × Bool
format dev garbage disk =
    let blk = new_blockmap garbage in
    let (disk', r) = dev.write_block disk blkmap_bid blk in
    elim r [
      | none ↦ (disk', false)
      | some _ ↦ ((dev.write_block disk' rootdir_bid (zeroes blk)).0, true)
    ]

link-link_up :
    (n bid : ℕ) (b : Block) (j : ℕ)
    → bid + n < 65535
    → link (link_up n bid b) j ≡ (if leb bid j && ltb j (bid + n) then j + 1 else link b j)
unfolding link_up
link-link_up zero bid b j h = ground arith
link-link_up (suc n) bid b j h = ground (
  arith,
  link-link_up n (suc bid) (set_link b bid (bid + 1)) j (omega arith),
  link-set_link_if b bid (bid + 1) j (omega arith),
)

-- What the block map says after formatting.
link-new_blockmap :
    (garbage : Block) (j : ℕ)
    → j < 10
    → j ≢ 1
    → link (new_blockmap garbage) j ≡ (if j == 9 then 0 else (if j == 0 then 2 else j + 1))
unfolding new_blockmap
link-new_blockmap garbage j h ne = ground (
  arith,
  link-set_link_if (link_up 8 2 (set_link garbage 0 2)) 9 0 j (omega arith),
  link-link_up 8 2 (set_link garbage 0 2) j (omega arith),
  link-set_link_if garbage 0 2 j (omega arith),
)

-- the data blocks
abbrev pub data_blocks : List ℕ
data_blocks = 2 ∷ 3 ∷ 4 ∷ 5 ∷ 6 ∷ 7 ∷ 8 ∷ 9 ∷ []

map_free : (garbage : Block) → IsFreeList (new_blockmap garbage) data_blocks
map_free garbage =
    let at = link-new_blockmap garbage in
    ground (
      arith,
      at 0 (omega arith) (omega arith),
      at 2 (omega arith) (omega arith),
      at 3 (omega arith) (omega arith),
      at 4 (omega arith) (omega arith),
      at 5 (omega arith) (omega arith),
      at 6 (omega arith) (omega arith),
      at 7 (omega arith) (omega arith),
      at 8 (omega arith) (omega arith),
      at 9 (omega arith) (omega arith),
    )

empty-Consistent :
    (garbage b : Block) → Consistent (zeroes b) (new_blockmap garbage) data_blocks (λ i. [])
unfolding zeroes
empty-Consistent garbage b = record {
  free_list = map_free garbage;
  file = λ i h u. absurd (u (ground arith));
  unused = λ i h z. refl;
  sized = λ i h u e. absurd (u (ground arith));
  apart_free = λ i x h e. cc;
  apart = λ i j x h h' ne e. cc;
}

module _ (dev : BlockDevice) (garbage : Block) (disk : dev.Disk) (room : 10 ≤ dev.count disk) where
  open dev use {blocks, count}

  mapped : dev.Disk
  mapped = (dev.write_block disk 0 (new_blockmap garbage)).0

  mapped-count : count mapped ≡ count disk
  unfolding mapped
  mapped-count = dev.write_block-count disk 0 (new_blockmap garbage) (omega (arith, room))

  formatted : dev.Disk
  formatted = (dev.write_block mapped 1 (zeroes (new_blockmap garbage))).0

  formatted-Same :
      (m : ℕ)
      → Same (blocks formatted m) (
          if m == 1
          then zeroes (new_blockmap garbage)
          else (if m == 0 then new_blockmap garbage else blocks disk m))
  unfolding formatted mapped
  formatted-Same m j h = ground (
    arith,
    dev.write_block-Same mapped 1 m (zeroes (new_blockmap garbage))
        (omega (arith, room, mapped-count)) j h,
    dev.write_block-Same disk 0 m (new_blockmap garbage) (omega (arith, room)) j h,
  )

  -- Formatting a disk of at least ten blocks succeeds and leaves a consistent file system in which
  -- no file exists and each of the blocks 2 to 9 is free; it writes to blocks 0 and 1 alone.
  pub format-IsConsistent :
      (disk' : dev.Disk) × (format dev garbage disk ≡ (disk', true))
      × IsConsistent dev disk' data_blocks (λ i. [])
      × ((i : ℕ) → i < 16 → blocks disk' 1 (32 * i) ≡ 0)
      × ((m : ℕ) → 2 ≤ m → Same (blocks disk' m) (blocks disk m))
  unfolding format formatted mapped zeroes
  format-IsConsistent = (
    formatted,
    rw (dev.write_block-result disk 0 (new_blockmap garbage) (omega (arith, room)), format),
    record {
      room =
          rw
            (dev.write_block-count mapped 1 (zeroes (new_blockmap garbage))
              (omega (arith, room, mapped-count)))
            (omega (arith, mapped-count, room));
      agree =
          Consistent-Same (zeroes (new_blockmap garbage)) (blocks formatted 1)
            (new_blockmap garbage) (blocks formatted 0) data_blocks (λ i. []) (formatted-Same 1)
            (formatted-Same 0) (empty-Consistent garbage (new_blockmap garbage));
    },
    λ i h. formatted-Same 1 (32 * i) (omega arith) ∙ ground arith,
    λ m h j l. ground (arith, formatted-Same m j l),
  )
