-- ===== src/Fs/Ssfs.antt =====
-- lab4_fs/ssfs.c: the handlers that FUSE calls, over a block device. What they print is left out.
pub mod Walk
pub mod Grow
pub mod Locate
pub mod Chunk
pub mod Write
pub mod Create
pub mod Truncate
pub mod Read
pub mod RoundTrip
pub mod Directory
pub mod Reachable
pub mod Defects
use edan35_os_lund_univ.Common.{
  ℕ, zero, suc, ◌+◌, ◌-◌, ◌/◌, ◌%◌, ◌^◌, ◌≡◌, Bool, true, false, Option, none, some, List, [], ◌∷◌,
  ◌==◌, ltb, if◌then◌else◌,
}
use edan35_os_lund_univ.Common.Words.{u16_mod, u32_mod, u64_mod}
use edan35_os_lund_univ.Fs.Bytes.{Block, copy}
use edan35_os_lund_univ.Fs.Device.{BlockDevice}
use edan35_os_lund_univ.Fs.Run.{
  Run, Cmd, ok, error, fault, pure, throw, get, modify, ◌>>=◌, ◌>>◌, Errno, enoent, enospc, enfile,
}
use edan35_os_lund_univ.Fs.Layout.{
  link, set_link, name_at, mode, set_mode, size_bytes, set_size_bytes, first_block, set_first_block,
  eof_block, rootdir_bid, dir_entry_is_empty,
}
use edan35_os_lund_univ.Fs.Text.{tail_bytes, strncpy, text_at}
use edan35_os_lund_univ.Fs.Support.{
  Cache, find_dir_entry, first_empty_dir_entry, load_directory, save_directory, load_blockmap,
  save_blockmap, alloc_block,
}

-- min(a, b)
abbrev pub min : ℕ → ℕ → ℕ
min a b = if ltb a b then a else b

-- struct stat, as far as do_getattr writes it
pub record Stat : Type 0 where
  pub st_uid : ℕ
  pub st_gid : ℕ
  pub st_atime : ℕ
  pub st_mtime : ℕ
  pub st_mode : ℕ
  pub st_nlink : ℕ
  pub st_size : ℕ

-- What getuid, getgid and the two calls of time return.
pub record Caller : Type 0 where
  pub uid : ℕ
  pub gid : ℕ
  pub access_time : ℕ
  pub modification_time : ℕ

-- the path "/"
abbrev pub root_path : List ℕ
root_path = b'/' ∷ []

-- strcmp(path, "/") == 0
unfoldable pub is_root : List ℕ → Bool
is_root [] = false
is_root (c ∷ []) = c == b'/'
is_root (c ∷ d ∷ s) = false

-- the fields that do_getattr fills in before it looks at the path
unfoldable pub owned_by : Caller → Stat → Stat
owned_by u st = record st {
  st_uid = u.uid;
  st_gid = u.gid;
  st_atime = u.access_time;
  st_mtime = u.modification_time;
}

-- the names that the loop of do_readdir hands over, with the entries left to look at
unfoldable pub list_loop : ℕ → Block → ℕ → List (List ℕ)
list_loop zero d i = []
list_loop (suc n) d i =
    let rest = text_at 11 d (name_at i) ∷ list_loop n d (suc i) in
    if dir_entry_is_empty d i then [] else rest

-- the entry that do_create fills in
unfoldable pub new_entry : Block → ℕ → List ℕ → ℕ → Block
new_entry d ni fn m =
    set_first_block (set_size_bytes (set_mode (strncpy d (name_at ni) fn 12) ni m) ni 0) ni
      eof_block

module _ (dev : BlockDevice) where
  abbrev pub set_dir : (Block → Block) → Cache dev → Cache dev
  set_dir f c = record c { bdir = f c.bdir }

  -- the entry of a path, or -ENOENT
  unfoldable pub locate : List ℕ → Cmd (Cache dev) ℕ
  locate path c =
      let c' = load_directory dev c in
      elim (find_dir_entry (tail_bytes path) c'.bdir) [
        | none ↦ error enoent c'
        | some di ↦ ok di c'
      ]

  -- S_IFDIR | 0755 and S_IFREG | 0644
  unfoldable pub do_getattr : Caller → List ℕ → Stat → Cmd (Cache dev) Stat
  unfolding locate owned_by is_root
  do_getattr u path st =
      if is_root path then pure (record (owned_by u st) { st_mode = 0o40755; st_nlink = 2 }) else do
        di ← locate path
        c ← get
        pure (record (owned_by u st) {
          st_nlink = 1;
          st_size = size_bytes c.bdir di;
          st_mode = mode c.bdir di;
        })

  -- `none` is the result -1.
  unfoldable pub do_readdir : Block → List ℕ → Cache dev → Cache dev × List (List ℕ) × Option ℕ
  unfolding list_loop is_root
  do_readdir rootb path c =
      if is_root path
      then (let (d, b, r) = dev.read_block c.disk rootdir_bid rootb in
          (record c { disk = d }, (b'.' ∷ []) ∷ (b'.' ∷ b'.' ∷ []) ∷ list_loop 16 b 0, some 0))
      else (c, (b'.' ∷ []) ∷ (b'.' ∷ b'.' ∷ []) ∷ [], none)

  -- `garbage` is what the local array `bcache` holds before the read.
  unfoldable pub do_read :
      (garbage : Block)
      → List ℕ
      → (buffer : Block) → (size offset : ℕ) → Cmd (Cache dev) (Block × ℕ)
  unfolding locate
  do_read garbage path buffer size offset = do
    di ← locate path
    c ← get
    let (d, bcache, r) = dev.read_block c.disk (first_block c.bdir di) garbage
    let rsize = min size 512
    modify (λ c. record c { disk = d })
    pure (copy buffer 0 bcache rsize, rsize)

  -- an empty file gets its first block
  unfoldable pub claim_first : ℕ → Cmd (Cache dev) (Unit {0})
  claim_first di = do
    bid ← alloc_block dev
    modify (set_dir (λ d. set_first_block d di bid))
    if bid == eof_block then throw enospc else pure tt

  unfoldable pub start_file : ℕ → Cmd (Cache dev) (Unit {0})
  unfolding claim_first
  start_file di c = if first_block c.bdir di == eof_block then claim_first di c else ok tt c

  unfoldable pub resize : ℕ → ℕ → Cache dev → Cache dev
  resize di n c = save_directory dev (set_dir (λ d. set_size_bytes d di n) c)

  unfoldable pub grow_file : ℕ → (size offset : ℕ) → Cmd (Cache dev) (Unit {0})
  unfolding start_file resize
  grow_file di size offset c =
      if ltb (size_bytes c.bdir di) ((offset + size) % u64_mod)
      then (start_file di >> modify (resize di ((offset + size) % u64_mod))) c
      else ok tt c

  -- the block that the end of a chain is made to point at
  unfoldable pub link_block : ℕ → ℕ → Cmd (Cache dev) ℕ
  link_block crtblk nblk c =
      if nblk == eof_block
      then error enospc c
      else ok nblk (record c { bmap = set_link c.bmap crtblk nblk })

  unfoldable pub append_block : ℕ → Cmd (Cache dev) ℕ
  unfolding link_block
  append_block crtblk = do nblk ← alloc_block dev; link_block crtblk nblk

  -- one round of the loop: the block behind `crtblk`, allocated where the chain ends
  unfoldable pub follow : ℕ → Cmd (Cache dev) ℕ
  unfolding append_block
  follow crtblk c =
      if ltb crtblk 256
      then (if link c.bmap crtblk == eof_block
          then append_block crtblk c
          else ok (link c.bmap crtblk) c)
      else fault

  unfoldable pub walk : ℕ → ℕ → Cmd (Cache dev) ℕ
  unfolding follow
  walk zero crtblk = pure crtblk
  walk (suc blkoffs) crtblk = do next ← follow crtblk; walk blkoffs next

  -- the read, the change and the write of one block
  unfoldable pub write_chunk :
      (garbage buffer : Block) → (crtblk byteoffs crtsize : ℕ) → Cache dev → Cache dev
  write_chunk garbage buffer crtblk byteoffs crtsize c =
      let (d, bcache, r) = dev.read_block c.disk crtblk garbage in
      let (d', r') = dev.write_block d crtblk (copy bcache byteoffs buffer crtsize) in
      record c { disk = d' }

  -- The result is the 32 bits of the int.
  unfoldable pub do_write :
      (garbage : Block) → List ℕ → (buffer : Block) → (size offset : ℕ) → Cmd (Cache dev) ℕ
  unfolding locate grow_file walk write_chunk
  do_write garbage path buffer size offset = do
    di ← locate path
    modify (load_blockmap dev)
    grow_file di size offset
    c ← get
    let byteoffs = offset % 512
    crtblk ← walk (offset / 512 % u16_mod) (first_block c.bdir di)
    modify (write_chunk garbage buffer crtblk byteoffs (min size (512 - byteoffs)))
    modify (save_blockmap dev)
    pure (size % u32_mod)

  unfoldable pub do_truncate : List ℕ → (offset : ℕ) → Cmd (Cache dev) ℕ
  unfolding locate
  do_truncate path offset = do
    di ← locate path
    modify (set_dir (λ d. set_first_block (set_size_bytes d di 0) di eof_block))
    modify (save_directory dev)
    pure 0

  unfoldable pub do_create : List ℕ → (m : ℕ) → Cmd (Cache dev) ℕ
  unfolding new_entry
  do_create path m c =
      let c' = load_directory dev c in
      elim (first_empty_dir_entry c'.bdir) [
        | none ↦ error enfile c'
        | some ni ↦ ok 0 (save_directory dev (set_dir (λ d. new_entry d ni (tail_bytes path) m) c'))
      ]

  -- These report success and do nothing.
  unfoldable pub do_rename : (opath npath : List ℕ) → Cmd (Cache dev) ℕ
  do_rename opath npath = pure 0

  unfoldable pub do_unlink : List ℕ → Cmd (Cache dev) ℕ
  do_unlink path = pure 0

  unfoldable pub do_chmod : List ℕ → (mo : ℕ) → Cmd (Cache dev) ℕ
  do_chmod path mo = pure 0

  unfoldable pub do_chown : List ℕ → (uid gid : ℕ) → Cmd (Cache dev) ℕ
  do_chown path uid gid = pure 0

  unfoldable pub do_utimens : List ℕ → (access modification : ℕ) → Cmd (Cache dev) ℕ
  do_utimens path access modification = pure 0
