-- ===== src/Fs/Tests/Files.antt =====
-- The theorem of rawdisk.c at a kernel with one file.
use edan35_os_lund_univ.Common.{ℕ, ◌+◌, ◌≤◌, ◌≡◌, refl, some, arith, if◌then◌else◌, ltb, leb}
use edan35_os_lund_univ.Fs.Bytes.{Block, Same, copy}
use edan35_os_lund_univ.Fs.Posix.{Posix, RegularFile}
use edan35_os_lund_univ.Fs.Rawdisk.{read_block, write_block, read_block-write_block}
use edan35_os_lund_univ.Fs.Tests.{zero_block, message}

-- A kernel whose only file keeps its bytes, its size and its position.
record FileState : Type 0 where
  content : ℕ → ℕ
  size : ℕ
  pos : ℕ

abbrev one_file : Posix
one_file = record {
  Kernel = FileState;
  open_rdwr = λ k. (k, some 3);
  open_create = λ k. (k, some 3);
  close = λ k fd. (k, some 0);
  lseek = λ k fd o. (record k { pos = o }, some o);
  read = λ k fd b n.
      if leb (k.pos + n) k.size
      then (
        record k { pos = k.pos + n },
        (λ j. if ltb j n then k.content (k.pos + j) else b j),
        some n,
      )
      else (k, b, some 0);
  write = λ k fd b n. (
    record {
      content = copy k.content k.pos b n;
      size = if leb (k.pos + n) k.size then k.size else k.pos + n;
      pos = k.pos + n;
    },
    some n,
  );
}

read_laws :
    (k : FileState) (b : Block) (n : ℕ)
    → ((one_file.read k (some 3) b n).0.content ≡ k.content)
      × ((one_file.read k (some 3) b n).0.size ≡ k.size)
read_laws k b n = ground arith

read_inside :
    (k : FileState) (b : Block) (n j : ℕ)
    → k.pos + n ≤ k.size
    → ((one_file.read k (some 3) b n).2 ≡ some n)
      × ((one_file.read k (some 3) b n).1 j ≡ (if ltb j n then k.content (k.pos + j) else b j))
read_inside k b n j h = ground arith

abbrev one_file-RegularFile : RegularFile one_file (some 3)
one_file-RegularFile = record {
  content = λ k. k.content;
  size = λ k. k.size;
  pos = λ k. k.pos;
  lseek-result = λ k o l. refl;
  lseek-pos = λ k o l. refl;
  lseek-content = λ k o. refl;
  lseek-size = λ k o. refl;
  read-content = λ k b n. (read_laws k b n).0;
  read-size = λ k b n. (read_laws k b n).1;
  read-result = λ k b n h. (read_inside k b n 0 h).0;
  read-buffer = λ k b n j h. (read_inside k b n j h).1;
  write-result = λ k b n. refl;
  write-content = λ k b n i h. refl;
  write-size = λ k b n. refl;
}

abbrev new_file : FileState
new_file = record { content = λ i. i; size = 5120; pos = 0 }

read_block-write_block_example :
    let k' = (write_block one_file (some 3) new_file 4 message).0 in
    ((write_block one_file (some 3) new_file 4 message).1 ≡ some 512)
    × ((read_block one_file (some 3) k' 5 zero_block).2 ≡ some 512)
    × Same (read_block one_file (some 3) k' 5 zero_block).1 (λ j. 2560 + j)
read_block-write_block_example =
    read_block-write_block one_file (some 3) one_file-RegularFile new_file 4 5 message zero_block
      (omega arith) (omega arith)
