-- ===== src/Fs/Rawdisk.antt =====
-- lab4_fs/rawdisk.c over the system calls, and that it is a block device where they work.
use edan35_os_lund_univ.Common.{
  ℕ, ◌+◌, ◌-◌, ◌*◌, ◌/◌, ◌%◌, ◌^◌, ltb, inl, inr, Option-cases, ◌≤◌, ◌<◌, ◌≡◌, refl, Option, some,
  none, arith, ◌==◌, if◌then◌else◌, ◌∙◌, ap,
}
use edan35_os_lund_univ.Fs.Bytes.{Block, Same, copy}
use edan35_os_lund_univ.Fs.Posix.{Posix, RegularFile}
use edan35_os_lund_univ.Fs.Device.{BlockDevice}

-- the two variables of the file, and the kernel behind them
pub record RawDisk (p : Posix) : Type 0 where
  pub kernel : p.Kernel
  pub disk_fd : Option ℕ
  pub disk_bsize : Option ℕ

-- BLOCK_SIZE * blocknr, as lseek gets it: an int that wraps, and the 64 bits of the off_t that has its
-- sign.
unfoldable pub seek_offset : ℕ → ℕ
seek_offset blocknr =
    let product = 512 * blocknr % 2 ^ 32 in
    if ltb product (2 ^ 31) then product else product + (2 ^ 64 - 2 ^ 32)

module _ (p : Posix) where
  open p use {Kernel, open_rdwr, open_create, close, lseek, read, write}

  -- `garbage` is what the memory from `&disk_fd` on holds
  create_disk : (garbage : Block) (nbytes : ℕ) → Option ℕ → RawDisk p → RawDisk p
  create_disk garbage nbytes none r = record r { disk_fd = none }
  create_disk garbage nbytes (some fd) r =
      let (k, written) = write r.kernel (some fd) garbage nbytes in
      record { kernel = k; disk_fd = some fd; disk_bsize = written }

  pub open_disk : (garbage : Block) (nbytes : ℕ) → RawDisk p → RawDisk p × Option ℕ
  unfolding create_disk
  open_disk garbage nbytes r =
      let (k, fd) = open_rdwr r.kernel in
      let (k', fd') = open_create k in
      let created = create_disk garbage nbytes fd' (record r { kernel = k' }) in
      elim fd [
        | none ↦ (created, created.disk_bsize)
        | some n ↦ (record { kernel = k; disk_fd = some n; disk_bsize = some nbytes }, some nbytes)
      ]

  pub close_disk : RawDisk p → RawDisk p × Option ℕ
  close_disk r = let (k, result) = close r.kernel r.disk_fd in (record r { kernel = k }, result)

  unfoldable pub read_block : Option ℕ → Kernel → ℕ → Block → Kernel × Block × Option ℕ
  read_block disk_fd k blocknr block =
      let (k', sought) = lseek k disk_fd (seek_offset blocknr) in
      elim sought [ some _ ↦ read k' disk_fd block 512 | none ↦ (k', block, none) ]

  unfoldable pub write_block : Option ℕ → Kernel → ℕ → Block → Kernel × Option ℕ
  write_block disk_fd k blocknr block =
      let (k', sought) = lseek k disk_fd (seek_offset blocknr) in
      elim sought [ some _ ↦ write k' disk_fd block 512 | none ↦ (k', none) ]

module _ (p : Posix) (fd : Option ℕ) (f : RegularFile p fd) where
  open p use {Kernel, lseek, read, write}

  abbrev pub block_at : Kernel → ℕ → Block
  block_at k nr j = f.content k (512 * nr + j)

  -- The blocks of the file that the int of the offset reaches.
  abbrev pub block_count : Kernel → ℕ
  block_count k = if ltb (f.size k / 512) 4_194_304 then f.size k / 512 else 4_194_304

  seek_offset-small : (nr : ℕ) → nr < 4_194_304 → seek_offset nr ≡ 512 * nr
  unfolding seek_offset
  seek_offset-small nr l = ground arith

  reached : (k : Kernel) (nr : ℕ) → nr < block_count k → (nr < 4_194_304) × (nr < f.size k / 512)
  reached k nr h = ground arith

  read_block_eq :
      (k : Kernel) (nr : ℕ) (b : Block)
      → nr < 4_194_304
      → read_block p fd k nr b ≡ read (lseek k fd (512 * nr)).0 fd b 512
  unfolding read_block
  read_block_eq k nr b l =
      let s = seek_offset-small nr l in
      rw (read_block, f.lseek-result k (seek_offset nr) (omega (arith, s)))
        (ap (λ o. read (lseek k fd o).0 fd b 512) s)

  write_block_eq :
      (k : Kernel) (nr : ℕ) (b : Block)
      → nr < 4_194_304
      → write_block p fd k nr b ≡ write (lseek k fd (512 * nr)).0 fd b 512
  unfolding write_block
  write_block_eq k nr b l =
      let s = seek_offset-small nr l in
      rw (write_block, f.lseek-result k (seek_offset nr) (omega (arith, s)))
        (ap (λ o. write (lseek k fd o).0 fd b 512) s)

  abbrev Blocks-eq : Kernel → Kernel → Type 0
  Blocks-eq k k' = (block_at k' ≡ block_at k) × (block_count k' ≡ block_count k)

  read_block-content :
      (k : Kernel) (nr : ℕ) (b : Block) → f.content (read_block p fd k nr b).0 ≡ f.content k
  unfolding read_block
  read_block-content k nr b =
      let k' = (lseek k fd (seek_offset nr)).0 in
      elim (Option-cases (lseek k fd (seek_offset nr)).1) [
        | inl failed ↦ rw (read_block, failed) (f.lseek-content k (seek_offset nr))
        | inr (o, sought) ↦
            rw (read_block, sought) (f.read-content k' b 512 ∙ f.lseek-content k (seek_offset nr))
      ]

  read_block-size : (k : Kernel) (nr : ℕ) (b : Block) → f.size (read_block p fd k nr b).0 ≡ f.size k
  unfolding read_block
  read_block-size k nr b =
      let k' = (lseek k fd (seek_offset nr)).0 in
      elim (Option-cases (lseek k fd (seek_offset nr)).1) [
        | inl failed ↦ rw (read_block, failed) (f.lseek-size k (seek_offset nr))
        | inr (o, sought) ↦
            rw (read_block, sought) (f.read-size k' b 512 ∙ f.lseek-size k (seek_offset nr))
      ]

  -- Reading a block leaves every block as it is.
  pub read_block-blocks :
      (k : Kernel) (nr : ℕ) (b : Block) → block_at (read_block p fd k nr b).0 ≡ block_at k
  read_block-blocks k nr b =
      ap {B = ℕ → Block} (λ (c : ℕ → ℕ) (m j : ℕ). c (512 * m + j)) (read_block-content k nr b)

  pub read_block-count :
      (k : Kernel) (nr : ℕ) (b : Block) → block_count (read_block p fd k nr b).0 ≡ block_count k
  read_block-count k nr b = rw (read_block-size k nr b) refl

  inside :
      (k : Kernel) (nr : ℕ)
      → nr < block_count k
      → f.pos (lseek k fd (512 * nr)).0 + 512 ≤ f.size (lseek k fd (512 * nr)).0
  inside k nr h =
      let r = reached k nr h in
      omega (arith, r, f.lseek-pos k (512 * nr) (omega (arith, r)), f.lseek-size k (512 * nr))

  far : (k : Kernel) (nr : ℕ) → nr < block_count k → 512 * nr < 2 ^ 63
  far k nr h = let r = reached k nr h in omega (arith, r)

  -- A block of the disk is read whole.
  pub read_block-Same :
      (k : Kernel) (nr : ℕ) (b : Block)
      → nr < block_count k
      → Same (read_block p fd k nr b).1 (block_at k nr)
  read_block-Same k nr b h j l = rw (read_block_eq k nr b (reached k nr h).0) (
      ground (
        arith,
        f.read-buffer (lseek k fd (512 * nr)).0 b 512 j (inside k nr h),
        f.lseek-pos k (512 * nr) (far k nr h),
        f.lseek-content k (512 * nr),
      ))

  pub read_block-result :
      (k : Kernel) (nr : ℕ) (b : Block) → nr < block_count k → (read_block p fd k nr b).2 ≡ some 512
  read_block-result k nr b h =
      rw (read_block_eq k nr b (reached k nr h).0)
        (f.read-result (lseek k fd (512 * nr)).0 b 512 (inside k nr h))

  pub write_block-result :
      (k : Kernel) (nr : ℕ) (b : Block)
      → nr < block_count k
      → (write_block p fd k nr b).1 ≡ some 512
  write_block-result k nr b h =
      rw (write_block_eq k nr b (reached k nr h).0) (f.write-result (lseek k fd (512 * nr)).0 b 512)

  pub write_block-count :
      (k : Kernel) (nr : ℕ) (b : Block)
      → nr < block_count k
      → block_count (write_block p fd k nr b).0 ≡ block_count k
  write_block-count k nr b h = rw (write_block_eq k nr b (reached k nr h).0) (
      ground (
        arith,
        inside k nr h,
        f.write-size (lseek k fd (512 * nr)).0 b 512,
        f.lseek-size k (512 * nr),
      ))

  -- A write changes the block that it names, and no other.
  pub write_block-Same :
      (k : Kernel) (nr m : ℕ) (b : Block)
      → nr < block_count k
      → Same (block_at (write_block p fd k nr b).0 m) (if m == nr then b else block_at k m)
  unfolding copy
  write_block-Same k nr m b h j l = rw (write_block_eq k nr b (reached k nr h).0) (
      ground (
        arith,
        inside k nr h,
        f.write-content (lseek k fd (512 * nr)).0 b 512 (512 * m + j),
        f.lseek-pos k (512 * nr) (far k nr h),
        f.lseek-content k (512 * nr),
      ))

  -- rawdisk.c keeps the contract of a block device.
  abbrev pub device : BlockDevice
  device = record {
    Disk = Kernel;
    read_block = read_block p fd;
    write_block = write_block p fd;
    blocks = block_at;
    count = block_count;
    read_block-blocks = read_block-blocks;
    read_block-count = read_block-count;
    read_block-Same = read_block-Same;
    read_block-result = read_block-result;
    write_block-count = write_block-count;
    write_block-result = write_block-result;
    write_block-Same = write_block-Same;
  }

  -- Of the blocks of the disk below 4194304, which the int of their offset reaches: one that is written is read back as it was written, and any other block as it
  -- was before the write; both calls return 512.
  pub read_block-write_block :
      (k : Kernel) (nr m : ℕ) (b buffer : Block)
      → nr < block_count k
      → m < block_count k
      → let k' = (write_block p fd k nr b).0 in
        ((write_block p fd k nr b).1 ≡ some 512)
        × ((read_block p fd k' m buffer).2 ≡ some 512)
        × Same (read_block p fd k' m buffer).1 (if m == nr then b else block_at k m)
  read_block-write_block k nr m b buffer h h' = (
    write_block-result k nr b h,
    read_block-result k' m buffer room,
    λ j l. read_block-Same k' m buffer room j l ∙ write_block-Same k nr m b h j l,
  )
    where
      k' : Kernel
      k' = (write_block p fd k nr b).0

      room : m < block_count k'
      room = rw (write_block-count k nr b h) h'
