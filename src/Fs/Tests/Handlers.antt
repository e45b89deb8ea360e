-- ===== src/Fs/Tests/Handlers.antt =====
-- The theorems of fs_support.c, ssfs.c, format_myfs.c and info_myfs.c at concrete disks.
use edan35_os_lund_univ.Common.{
  ℕ, ◌-◌, ◌*◌, ◌≤◌, ◌<◌, ◌≡◌, ◌≢◌, refl, List, [], ◌∷◌, some, arith, if◌then◌else◌, ltb, leb, has,
  true, false, ◌&&◌,
}
use edan35_os_lund_univ.Fs.Bytes.{Block, Same}
use edan35_os_lund_univ.Fs.Layout.{link, first_block}
use edan35_os_lund_univ.Fs.Consistent.{IsConsistent}
use edan35_os_lund_univ.Fs.Support.{Cache}
use edan35_os_lund_univ.Fs.Support.{
  allocate_block, free_block_in, find_dir_entry, first_empty_dir_entry,
}
use edan35_os_lund_univ.Fs.Support.FreeList.{
  IsFreeList, AllocatesFrom, taken, allocate_block-AllocatesFrom, free_block_in-IsFreeList,
  free_block_in-allocate_block,
}
use edan35_os_lund_univ.Fs.Support.Lookup.{IsUsed, Finds, find_dir_entry-Finds}
use edan35_os_lund_univ.Fs.Text.{text_at, tail_bytes}
use edan35_os_lund_univ.Fs.Run.{Returns, ok, error, enospc, enfile}
use edan35_os_lund_univ.Fs.Format.{format, data_blocks, format-IsConsistent}
use edan35_os_lund_univ.Fs.Ssfs.Reachable.Sound.{IsSound}
use edan35_os_lund_univ.Fs.Ssfs.Directory.Names.{ShortNames}
use edan35_os_lund_univ.Fs.Ssfs.Reachable.{Step, created, inspected, start, next, Reaches-IsSound}
use edan35_os_lund_univ.Fs.Support.Cached.{saved}
use edan35_os_lund_univ.Fs.Support.{empty_loop, load_directory}
use edan35_os_lund_univ.Fs.Ssfs.{new_entry, is_root, root_path}
use edan35_os_lund_univ.Fs.Ssfs.Directory.{Answers, listed, do_getattr-do_readdir}
use edan35_os_lund_univ.Fs.Ssfs.{
  Caller, Stat, do_getattr, do_write, do_read, do_create, do_truncate,
}
use edan35_os_lund_univ.Fs.Ssfs.Write.{Written, Refused, do_write-Returns}
use edan35_os_lund_univ.Fs.Ssfs.Read.{do_read-first_block}
use edan35_os_lund_univ.Fs.Ssfs.RoundTrip.{do_read-do_write}
use edan35_os_lund_univ.Fs.Ssfs.Create.{Created, do_create-Returns}
use edan35_os_lund_univ.Fs.Ssfs.Truncate.{Truncated, do_truncate-Returns}
use edan35_os_lund_univ.Fs.Ssfs.Defects.{do_write-not-IsConsistent, do_truncate_leaks}
use edan35_os_lund_univ.Fs.Info.{freeblks, usedblks, total_blocks, freeblks-usedblks}
use edan35_os_lund_univ.Fs.Tests.{
  first_file, memory_disk, directory, blockmap, disk, free_blocks, chains, list_of_map,
  disk-Consistent, disk-IsConsistent, zero_block, mounted, path_a, path_b, path_a-IsText,
  path_b-IsText, found_a, message, full_disk-IsConsistent, full, path_e-IsText, found_e,
}

allocate_block-AllocatesFrom_example : AllocatesFrom blockmap free_blocks (allocate_block blockmap)
allocate_block-AllocatesFrom_example = allocate_block-AllocatesFrom blockmap free_blocks list_of_map

free_block_in-IsFreeList_example :
    (m' : Block) × (free_block_in blockmap 3 ≡ some (m', link blockmap 3))
    × IsFreeList m' (3 ∷ free_blocks)
    × ((j : ℕ) → j ≢ 0 → j ≢ 3 → link m' j ≡ link blockmap j)
free_block_in-IsFreeList_example =
    free_block_in-IsFreeList blockmap 3 free_blocks list_of_map (omega arith) (omega arith) refl

free_block_in-allocate_block_example :
    (m' m'' : Block) × (allocate_block blockmap ≡ some (m', 4))
    × (free_block_in m' 4 ≡ some (m'', 65535))
    × ((j : ℕ) → link m'' j ≡ link blockmap j)
    × (allocate_block m'' ≡ some (taken m'' 4, 4))
free_block_in-allocate_block_example =
    free_block_in-allocate_block blockmap 4 (5 ∷ 6 ∷ 7 ∷ 8 ∷ 9 ∷ []) list_of_map

find_dir_entry-Finds_example : Finds (b'a' ∷ []) directory (find_dir_entry (b'a' ∷ []) directory)
find_dir_entry-Finds_example = find_dir_entry-Finds (b'a' ∷ []) directory (omega arith)

format-IsConsistent_example :
    (disk' : ℕ → Block) × (format memory_disk zero_block disk ≡ (disk', true))
    × IsConsistent memory_disk disk' data_blocks (λ i. [])
    × ((i : ℕ) → i < 16 → disk' 1 (32 * i) ≡ 0)
    × ((m : ℕ) → 2 ≤ m → Same (disk' m) (disk m))
format-IsConsistent_example = format-IsConsistent memory_disk zero_block disk (omega arith)

-- 100 bytes at offset 1000: the write extends the file by no block, since 1000 lies in block 3.
do_write-Returns_example :
    Returns
      (λ n c'. (n ≡ 100) × Written memory_disk disk c'.disk free_blocks chains 0 message 100 1000)
      (λ e c'. Refused memory_disk disk c'.disk free_blocks chains 0 1000 e)
      (do_write memory_disk zero_block path_a message 100 1000 mounted)
do_write-Returns_example =
    do_write-Returns memory_disk zero_block path_a message 100 1000 mounted 0 free_blocks chains
      disk-IsConsistent path_a-IsText found_a (omega arith) (omega arith)

do_read-do_write_example :
    (c' c'' : Cache memory_disk) × (x : ℕ) × (result : Block) × (do_write memory_disk zero_block
        path_a message 7 5 mounted
      ≡ ok 7 c')
    × (do_read memory_disk zero_block path_a zero_block 20 0 c' ≡ ok (result, 20) c'')
    × (0 < 2 → x ≡ 2)
    × ((j : ℕ) → j < 20 → result j ≡ (if leb 5 j && ltb j 12 then message (j - 5) else disk x j))
do_read-do_write_example =
    do_read-do_write memory_disk zero_block path_a message zero_block 7 5 20 mounted 0 free_blocks
      chains disk-IsConsistent path_a-IsText found_a (omega arith) (omega arith) (omega arith)
      (omega arith)

do_read-first_block_example :
    (buffer' : Block) × (c' : Cache memory_disk) × (do_read memory_disk zero_block path_a zero_block
        600 0 mounted
      ≡ ok (buffer', 512) c')
    × ((j : ℕ) → buffer' j ≡ (if ltb j 512 then disk 2 j else 0))
    × (c'.disk ≡ disk)
do_read-first_block_example =
    do_read-first_block memory_disk zero_block path_a zero_block 600 0 mounted 0 free_blocks chains
      disk-IsConsistent path_a-IsText found_a (omega arith)

do_create-Returns_example :
    Returns
      (λ n c'.
        (n ≡ 0) × Created memory_disk disk c'.disk free_blocks chains (tail_bytes path_b) 420)
      (λ e c'. (e ≡ enfile) × ((k : ℕ) → k < 16 → IsUsed (disk 1) k) × (c'.disk ≡ disk))
      (do_create memory_disk path_b 420 mounted)
do_create-Returns_example =
    do_create-Returns memory_disk path_b 420 mounted free_blocks chains disk-IsConsistent
      path_b-IsText (omega arith)

do_truncate-Returns_example :
    (c' : Cache memory_disk) × (do_truncate memory_disk path_a 100 mounted ≡ ok 0 c')
    × Truncated memory_disk disk c'.disk free_blocks chains 0
do_truncate-Returns_example =
    do_truncate-Returns memory_disk path_a 100 mounted 0 free_blocks chains disk-IsConsistent
      path_a-IsText found_a

do_truncate_leaks_example :
    (c' : Cache memory_disk) × (chain' : ℕ → List ℕ) × (do_truncate memory_disk path_a 0 mounted
      ≡ ok 0 c')
    × IsConsistent memory_disk c'.disk free_blocks chain'
    × (has 3 free_blocks ≡ false)
    × ((k : ℕ) → k < 16 → has 3 (chain' k) ≡ false)
do_truncate_leaks_example =
    do_truncate_leaks memory_disk path_a 0 mounted 0 3 free_blocks chains disk-IsConsistent
      path_a-IsText found_a refl

do_write-not-IsConsistent_example :
    (c' : Cache memory_disk) × (do_write memory_disk zero_block
        (b'/' ∷ b'e' ∷ [])
        message
        10
        512
        full
      ≡ error enospc c')
    × IsFreeList (c'.disk 0) (9 ∷ [])
    × IsUsed (c'.disk 1) 0
    × (has (first_block (c'.disk 1) 0) (9 ∷ []) ≡ true)
    × ((free' : List ℕ) (chain' : ℕ → List ℕ) → ¬ IsConsistent memory_disk c'.disk free' chain')
do_write-not-IsConsistent_example =
    do_write-not-IsConsistent memory_disk zero_block (b'/' ∷ b'e' ∷ []) message 10 512 full 0
      (9 ∷ []) (λ i. []) full_disk-IsConsistent path_e-IsText found_e (omega arith) (omega arith)
      refl (λ e. cc) (omega arith)

freeblks-usedblks_example :
    (freeblks blockmap ≡ some 6) × (usedblks directory blockmap ≡ some (total_blocks chains 16 0))
freeblks-usedblks_example = freeblks-usedblks directory blockmap free_blocks chains disk-Consistent

abbrev user : Caller
user = record { uid = 7; gid = 8; access_time = 9; modification_time = 10 }

abbrev no_stat : Stat
no_stat = record {
  st_uid = 0;
  st_gid = 0;
  st_atime = 0;
  st_mtime = 0;
  st_mode = 0;
  st_nlink = 0;
  st_size = 0;
}

directory-ShortNames : ShortNames directory
unfolding text_at
directory-ShortNames k l u = let first = first_file k u in rw first (omega arith)

do_getattr-do_readdir_example :
    Answers memory_disk
      (b'a' ∷ [])
      (listed memory_disk zero_block mounted)
      mounted
      (do_getattr memory_disk user (b'/' ∷ b'a' ∷ []) no_stat mounted)
do_getattr-do_readdir_example =
    do_getattr-do_readdir memory_disk user zero_block b'a' [] no_stat mounted (omega arith)
      (omega arith, tt) directory-ShortNames

-- the disk with a second file, "b"
abbrev with_b : Cache memory_disk
with_b =
    saved memory_disk (load_directory memory_disk mounted)
      (new_entry (load_directory memory_disk mounted).bdir 1 (tail_bytes path_b) 420)

create_b : Step memory_disk mounted with_b
unfolding do_create first_empty_dir_entry empty_loop load_directory
create_b = created path_b 420 path_b-IsText (omega arith) refl

-- The attributes of the root are looked up.
look_at_root : Step memory_disk with_b with_b
unfolding do_getattr is_root
look_at_root = inspected user root_path no_stat refl

Reaches-IsSound_example : IsSound memory_disk with_b.disk
Reaches-IsSound_example =
    Reaches-IsSound memory_disk (next (next start create_b) look_at_root)
      (free_blocks, chains, disk-IsConsistent)
