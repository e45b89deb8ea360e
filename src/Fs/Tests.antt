-- ===== src/Fs/Tests.antt =====
-- Concrete disks, and what is known of them.
pub mod Handlers
pub mod Files
use edan35_os_lund_univ.Common.{
  ℕ, zero, suc, ◌+◌, ◌-◌, ◌*◌, ◌≤◌, ◌<◌, ◌≡◌, ◌≢◌, refl, sym, ◌∙◌, ap, List, [], ◌∷◌, none, some,
  arith, ◌==◌, if◌then◌else◌, ltb, leb, has, inl, inr, ◌⊎◌, true, false, ◌&&◌,
}
use edan35_os_lund_univ.Fs.Bytes.{Block, Same, get_le, copy}
use edan35_os_lund_univ.Fs.Posix.{Posix, RegularFile}
use edan35_os_lund_univ.Fs.Device.{BlockDevice}
use edan35_os_lund_univ.Fs.Layout.{link, first_block, size_bytes}
use edan35_os_lund_univ.Fs.Consistent.{Consistent, IsConsistent}
use edan35_os_lund_univ.Fs.Chain.{Leads}
use edan35_os_lund_univ.Fs.Support.{Cache}
use edan35_os_lund_univ.Fs.Support.{
  allocate_block, free_block_in, find_dir_entry, find_loop, first_empty_dir_entry,
}
use edan35_os_lund_univ.Fs.Support.FreeList.{
  IsFreeList, AllocatesFrom, taken, allocate_block-AllocatesFrom, free_block_in-IsFreeList,
  free_block_in-allocate_block,
}
use edan35_os_lund_univ.Fs.Support.Lookup.{
  IsUsed, Finds, FindsEmpty, find_dir_entry-Finds, first_empty_dir_entry-FindsEmpty,
}
use edan35_os_lund_univ.Fs.Text.{IsText, strncmp_eq, tail_bytes}
use edan35_os_lund_univ.Fs.Run.{Returns, ok, error, enospc, enfile}
use edan35_os_lund_univ.Fs.Rawdisk.{read_block, write_block, read_block-write_block}
use edan35_os_lund_univ.Fs.Format.{format, data_blocks, format-IsConsistent}
use edan35_os_lund_univ.Fs.Ssfs.{do_write, do_read, do_create, do_truncate}
use edan35_os_lund_univ.Fs.Ssfs.Locate.{entry_of}
use edan35_os_lund_univ.Fs.Ssfs.Write.{Written, Refused, do_write-Returns}
use edan35_os_lund_univ.Fs.Ssfs.Read.{do_read-first_block}
use edan35_os_lund_univ.Fs.Ssfs.RoundTrip.{do_read-do_write}
use edan35_os_lund_univ.Fs.Ssfs.Create.{Created, do_create-Returns}
use edan35_os_lund_univ.Fs.Ssfs.Truncate.{Truncated, do_truncate-Returns}
use edan35_os_lund_univ.Fs.Ssfs.Defects.{do_write-not-IsConsistent, do_truncate_leaks}
use edan35_os_lund_univ.Fs.Info.{freeblks, usedblks, total_blocks, freeblks-usedblks}

-- A disk of ten blocks in memory.
abbrev memory_disk : BlockDevice
memory_disk = record {
  Disk = ℕ → Block;
  read_block = λ d k b. (d, d k, some 512);
  write_block = λ d k b. ((λ m. if m == k then b else d m), some 512);
  blocks = λ d. d;
  count = λ d. 10;
  read_block-blocks = λ d k b. refl;
  read_block-count = λ d k b. refl;
  read_block-Same = λ d k b h j l. refl;
  read_block-result = λ d k b h. refl;
  write_block-count = λ d k b h. refl;
  write_block-result = λ d k b h. refl;
  write_block-Same = λ d k m b h j l. refl;
}

-- One file, "a", of 600 bytes in the blocks 2 and 3; the free list is 4, 5, 6, 7, 8, 9.
abbrev directory : Block
directory j =
    if j == 0 then b'a' else if j == 16 then 88 else if j == 17 then 2 else if j == 24 then 2 else 0

abbrev blockmap : Block
blockmap j =
    if j == 0
    then 4
    else if j == 4
    then 3
    else if j == 6
    then 255
    else if j == 7
    then 255
    else if j == 8
    then 5
    else if j == 10
    then 6
    else if j == 12
    then 7
    else if j == 14
    then 8
    else if j == 16
    then 9
    else 0

abbrev disk : ℕ → Block
disk m = if m == 0 then blockmap else if m == 1 then directory else λ j. m

abbrev free_blocks : List ℕ
free_blocks = 4 ∷ 5 ∷ 6 ∷ 7 ∷ 8 ∷ 9 ∷ []

abbrev chains : ℕ → List ℕ
chains i = if i == 0 then 2 ∷ 3 ∷ [] else []

chains_at : (i : ℕ) → (i ≡ 0) ⊎ (chains i ≡ [])
chains_at zero = inl refl
chains_at (suc i) = inr (ground arith)

first_file : (i : ℕ) → directory (32 * i) ≢ 0 → i ≡ 0
first_file i u = ground arith

list_of_map : IsFreeList blockmap free_blocks
unfolding link get_le
list_of_map = ground arith

file_chain : Leads (link blockmap) 65535 (first_block directory 0) (2 ∷ 3 ∷ [])
unfolding link first_block get_le
file_chain = ground arith

some_chain : chains 0 ≢ []
some_chain e = cc

disk-Consistent : Consistent directory blockmap free_blocks chains
disk-Consistent = record {
  free_list = list_of_map;
  file = λ i h u. rw (first_file i u) file_chain;
  unused = λ i h z. ground arith;
  sized = λ i h u e. absurd (some_chain (ap chains (sym (first_file i u)) ∙ e));
  apart_free = λ i x h e. ground (arith, chains_at i);
  apart = λ i j x h h' ne e. ground (arith, chains_at i, chains_at j);
}

disk-IsConsistent : IsConsistent memory_disk disk free_blocks chains
disk-IsConsistent = record { room = omega arith; agree = disk-Consistent }

abbrev zero_block : Block
zero_block j = 0

abbrev mounted : Cache memory_disk
mounted = record { disk = disk; bdir = zero_block; bmap = zero_block }

-- "/a" and "/b.txt"
abbrev path_a : List ℕ
path_a = b'/' ∷ b'a' ∷ []

abbrev path_b : List ℕ
path_b = b'/' ∷ b'b' ∷ b'.' ∷ b't' ∷ b'x' ∷ b't' ∷ []

path_a-IsText : IsText path_a
path_a-IsText = omega arith

path_b-IsText : IsText path_b
path_b-IsText = omega arith

found_a : entry_of memory_disk mounted path_a ≡ some 0
unfolding find_dir_entry find_loop strncmp_eq
found_a = refl

not_found_b : entry_of memory_disk mounted path_b ≡ none
unfolding find_dir_entry find_loop strncmp_eq
not_found_b = refl

abbrev message : Block
message j = 100 + j

-- A disk whose only file is empty, and on which only block 9 is free.
abbrev full_directory : Block
full_directory j = if j == 0 then b'e' else if j == 24 then 255 else if j == 25 then 255 else 0

abbrev full_blockmap : Block
full_blockmap j = if j == 0 then 9 else 0

abbrev full_disk : ℕ → Block
full_disk m = if m == 0 then full_blockmap else if m == 1 then full_directory else λ j. m

full_first : (i : ℕ) → full_directory (32 * i) ≢ 0 → i ≡ 0
full_first i u = ground arith

full_list : IsFreeList full_blockmap (9 ∷ [])
unfolding link get_le
full_list = ground arith

no_chain : Leads (link full_blockmap) 65535 (first_block full_directory 0) []
unfolding first_block get_le
no_chain = refl

no_bytes : size_bytes full_directory 0 ≡ 0
unfolding size_bytes get_le
no_bytes = refl

full_disk-IsConsistent : IsConsistent memory_disk full_disk (9 ∷ []) (λ i. [])
full_disk-IsConsistent = record {
  room = omega arith;
  agree = record {
    free_list = full_list;
    file = λ i h u. rw (full_first i u) no_chain;
    unused = λ i h z. refl;
    sized = λ i h u e. rw (full_first i u) no_bytes;
    apart_free = λ i x h e. cc;
    apart = λ i j x h h' ne e. cc;
  };
}

abbrev full : Cache memory_disk
full = record { disk = full_disk; bdir = zero_block; bmap = zero_block }

path_e-IsText : IsText (b'/' ∷ b'e' ∷ [])
path_e-IsText = omega arith

found_e : entry_of memory_disk full (b'/' ∷ b'e' ∷ []) ≡ some 0
unfolding find_dir_entry find_loop strncmp_eq
found_e = refl
