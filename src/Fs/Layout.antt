-- ===== src/Fs/Layout.antt =====
-- fs_support.h: where the block map and the directory keep their fields inside a block. A
-- `dir_entry` takes 32 bytes: the name at 0, the mode at 12, the size at 16, the first block at 24.
pub mod Entry
use edan35_os_lund_univ.Common.{
  ℕ, ◌+◌, ◌*◌, ◌≤◌, ◌<◌, ◌≡◌, ◌≢◌, ◌⊎◌, inl, inr, Bool, arith, ◌==◌, if◌then◌else◌,
}
use edan35_os_lund_univ.Fs.Bytes.{
  Block, Same, get_le, put_le, Fits, get_le-put_le, get_le-put_le_ne, get_le-Same,
}

-- FS_NBLOCKS, BLKMAP_BID, ROOTDIR_BID, FS_NAME_LEN, EOF_BLOCK
abbrev pub fs_nblocks : ℕ
fs_nblocks = 10

abbrev pub blkmap_bid : ℕ
blkmap_bid = 0

abbrev pub rootdir_bid : ℕ
rootdir_bid = 1

abbrev pub fs_name_len : ℕ
fs_name_len = 12

abbrev pub eof_block : ℕ
eof_block = 0xffff

-- DIR_ENTRIES_PER_BLOCK, 512 / sizeof(dir_entry), and BLOCKIDS_PER_BLOCK
abbrev pub dir_entries_per_block : ℕ
dir_entries_per_block = 16

abbrev pub blockids_per_block : ℕ
blockids_per_block = 256

-- blockmap[i]
unfoldable pub link : Block → ℕ → ℕ
link b i = get_le b (2 * i) 2

unfoldable pub set_link : Block → ℕ → ℕ → Block
set_link b i v = put_le b (2 * i) 2 v

-- directory[i].mode, .size_bytes and .first_block; .name[0] is the byte at `name_at i`
abbrev pub name_at : ℕ → ℕ
name_at i = 32 * i

unfoldable pub mode : Block → ℕ → ℕ
mode d i = get_le d (32 * i + 12) 4

unfoldable pub set_mode : Block → ℕ → ℕ → Block
set_mode d i v = put_le d (32 * i + 12) 4 v

unfoldable pub size_bytes : Block → ℕ → ℕ
size_bytes d i = get_le d (32 * i + 16) 8

unfoldable pub set_size_bytes : Block → ℕ → ℕ → Block
set_size_bytes d i v = put_le d (32 * i + 16) 8 v

unfoldable pub first_block : Block → ℕ → ℕ
first_block d i = get_le d (32 * i + 24) 2

unfoldable pub set_first_block : Block → ℕ → ℕ → Block
set_first_block d i v = put_le d (32 * i + 24) 2 v

-- dir_entry_is_empty
abbrev pub dir_entry_is_empty : Block → ℕ → Bool
dir_entry_is_empty d i = d (name_at i) == 0

pub link-set_link : (b : Block) (i v : ℕ) → v < 65536 → link (set_link b i v) i ≡ v
unfolding link set_link
link-set_link b i v h = get_le-put_le b (2 * i) 2 v (omega arith)

pub link-set_link_ne : (b : Block) (i v j : ℕ) → j ≢ i → link (set_link b i v) j ≡ link b j
unfolding link set_link
link-set_link_ne b i v j h = get_le-put_le_ne b (2 * i) 2 v (2 * j) 2 (omega arith)

pub link-set_link_if :
    (b : Block) (i v j : ℕ) → v < 65536 → link (set_link b i v) j ≡ (if j == i then v else link b j)
link-set_link_if b i v j h = ground (arith, link-set_link b i v h, link-set_link_ne b i v j)

pub link-Same : (b c : Block) (i : ℕ) → i < 256 → Same b c → link b i ≡ link c i
unfolding link
link-Same b c i h s = get_le-Same b c (2 * i) 2 (omega arith) s
