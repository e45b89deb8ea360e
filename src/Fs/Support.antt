-- ===== src/Fs/Support.antt =====
-- lab4_fs/fs_support.c: the cached directory and block map, and the free list.
pub mod FreeList
pub mod Lookup
pub mod Cached
use edan35_os_lund_univ.Common.{
  ℕ, zero, suc, ◌+◌, ◌≡◌, Bool, true, false, Option, none, some, List, ◌==◌, ltb, if◌then◌else◌,
  ◌||◌,
}
use edan35_os_lund_univ.Fs.Bytes.{Block}
use edan35_os_lund_univ.Fs.Device.{BlockDevice}
use edan35_os_lund_univ.Fs.Layout.{
  link, set_link, dir_entry_is_empty, name_at, eof_block, blkmap_bid, rootdir_bid, fs_name_len,
  dir_entries_per_block, blockids_per_block,
}
use edan35_os_lund_univ.Fs.Text.{strncmp_eq}
use edan35_os_lund_univ.Fs.Run.{Cmd, ok, fault}

-- `none` is an access outside of the block map.
unfoldable pub free_block_in : Block → ℕ → Option (Block × ℕ)
free_block_in blocks freed_id =
    if ltb freed_id 256
    then some (set_link (set_link blocks freed_id (link blocks 0)) 0 freed_id, link blocks freed_id)
    else none

unfoldable pub allocate_block : Block → Option (Block × ℕ)
allocate_block blocks =
    let bid = link blocks 0 in
    if bid == 0
    then some (blocks, eof_block)
    else (if ltb bid 256
        then some (set_link (set_link blocks 0 (link blocks bid)) bid eof_block, bid)
        else none)

-- The loop of find_dir_entry, with the number of entries left to look at.
unfoldable pub find_loop : ℕ → List ℕ → Block → ℕ → ℕ
find_loop zero path d di = di
find_loop (suc n) path d di =
    let rest = find_loop n path d (suc di) in
    if dir_entry_is_empty d di || strncmp_eq 12 path d (name_at di) then di else rest

-- `none` stands for -1.
unfoldable pub find_dir_entry : List ℕ → Block → Option ℕ
find_dir_entry path d =
    let di = find_loop 16 path d 0 in
    if (di == 16) || dir_entry_is_empty d di then none else some di

unfoldable pub empty_loop : ℕ → Block → ℕ → ℕ
empty_loop zero d di = di
empty_loop (suc n) d di =
    let rest = empty_loop n d (suc di) in if dir_entry_is_empty d di then di else rest

unfoldable pub first_empty_dir_entry : Block → Option ℕ
first_empty_dir_entry d = let di = empty_loop 16 d 0 in if di == 16 then none else some di

-- the variables `bdir` and `bmap`, and the disk behind them
pub record Cache (dev : BlockDevice) : Type 0 where
  pub disk : dev.Disk
  pub bdir : Block
  pub bmap : Block

module _ (dev : BlockDevice) where
  unfoldable pub load_blockmap : Cache dev → Cache dev
  load_blockmap c =
      let (d, b, r) = dev.read_block c.disk blkmap_bid c.bmap in record c { disk = d; bmap = b }

  unfoldable pub save_blockmap : Cache dev → Cache dev
  save_blockmap c = let (d, r) = dev.write_block c.disk blkmap_bid c.bmap in record c { disk = d }

  unfoldable pub load_directory : Cache dev → Cache dev
  load_directory c =
      let (d, b, r) = dev.read_block c.disk rootdir_bid c.bdir in record c { disk = d; bdir = b }

  unfoldable pub save_directory : Cache dev → Cache dev
  save_directory c = let (d, r) = dev.write_block c.disk rootdir_bid c.bdir in record c { disk = d }

  -- alloc_block and free_block work on the loaded map
  unfoldable pub alloc_block : Cmd (Cache dev) ℕ
  alloc_block c = elim (allocate_block c.bmap) [
    | none ↦ fault
    | some (m, bid) ↦ ok bid (record c { bmap = m })
  ]

  unfoldable pub free_block : ℕ → Cmd (Cache dev) ℕ
  free_block bid c = elim (free_block_in c.bmap bid) [
    | none ↦ fault
    | some (m, next) ↦ ok next (record c { bmap = m })
  ]
