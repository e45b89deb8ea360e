-- ===== src/Fs/Posix.antt =====
-- The system calls that lab4_fs/rawdisk.c makes, as parameters: they are not part of the
-- repository. A descriptor is `none` where the C code holds -1, and so is the result of a failed call.
use edan35_os_lund_univ.Common.{ℕ, ◌+◌, ◌^◌, ◌<◌, ◌≤◌, ◌≡◌, Option, some, ltb, leb, if◌then◌else◌}
use edan35_os_lund_univ.Fs.Bytes.{Block, copy}

pub record Posix : Type 1 where
  pub Kernel : Type 0
  -- open(filename, O_RDWR), and with O_CREAT
  pub open_rdwr : Kernel → Kernel × Option ℕ
  pub open_create : Kernel → Kernel × Option ℕ
  pub close : Kernel → Option ℕ → Kernel × Option ℕ
  -- lseek(fd, offset, SEEK_SET), with the 64 bits of the off_t
  pub lseek : Kernel → Option ℕ → ℕ → Kernel × Option ℕ
  -- read(fd, buffer, n): the buffer after the call is part of the result
  pub read : Kernel → Option ℕ → Block → ℕ → Kernel × Block × Option ℕ
  pub write : Kernel → Option ℕ → Block → ℕ → Kernel × Option ℕ

-- What POSIX documents of the calls on a regular file that is open for reading and writing, where
-- no call fails but lseek to a negative offset: the file has contents, a size and a position.
pub record RegularFile (p : Posix) (fd : Option ℕ) : Type 0 where
  pub content : p.Kernel → ℕ → ℕ
  pub size : p.Kernel → ℕ
  pub pos : p.Kernel → ℕ
  pub lseek-result : (k : p.Kernel) (o : ℕ) → o < 2 ^ 63 → (p.lseek k fd o).1 ≡ some o
  pub lseek-pos : (k : p.Kernel) (o : ℕ) → o < 2 ^ 63 → pos (p.lseek k fd o).0 ≡ o
  pub lseek-content : (k : p.Kernel) (o : ℕ) → content (p.lseek k fd o).0 ≡ content k
  pub lseek-size : (k : p.Kernel) (o : ℕ) → size (p.lseek k fd o).0 ≡ size k
  pub read-content : (k : p.Kernel) (b : Block) (n : ℕ) → content (p.read k fd b n).0 ≡ content k
  pub read-size : (k : p.Kernel) (b : Block) (n : ℕ) → size (p.read k fd b n).0 ≡ size k
  pub read-result :
      (k : p.Kernel) (b : Block) (n : ℕ) → pos k + n ≤ size k → (p.read k fd b n).2 ≡ some n
  pub read-buffer :
      (k : p.Kernel) (b : Block) (n j : ℕ)
      → pos k + n ≤ size k
      → (p.read k fd b n).1 j ≡ (if ltb j n then content k (pos k + j) else b j)
  pub write-result : (k : p.Kernel) (b : Block) (n : ℕ) → (p.write k fd b n).1 ≡ some n
  pub write-content :
      (k : p.Kernel) (b : Block) (n i : ℕ)
      → pos k ≤ size k
      → content (p.write k fd b n).0 i ≡ copy (content k) (pos k) b n i
  pub write-size :
      (k : p.Kernel) (b : Block) (n : ℕ)
      → size (p.write k fd b n).0 ≡ (if leb (pos k + n) (size k) then size k else pos k + n)
