-- ===== src/Fs/Ssfs/Grow.antt =====
-- The part of do_write that makes the file longer: its size, and the first block of an empty file.
use edan35_os_lund_univ.Common.{
  ℕ, ◌+◌, ◌*◌, ◌%◌, ◌^◌, ◌≤◌, ◌<◌, ◌≡◌, ◌≢◌, refl, ◌∙◌, ap, inl, inr, true, false, List, [], ◌∷◌,
  arith, ◌==◌, length, get_or, Bool-cases, ltb, if◌then◌else◌,
}
use edan35_os_lund_univ.Fs.Bytes.{Same}
use edan35_os_lund_univ.Fs.Device.{BlockDevice}
use edan35_os_lund_univ.Fs.Run
use edan35_os_lund_univ.Fs.Run.{Run, ok, error, Returns, returns, fails, Errno, enospc}
use edan35_os_lund_univ.Fs.Layout.{first_block, size_bytes, set_size_bytes, mode}
use edan35_os_lund_univ.Fs.Layout.Entry
use edan35_os_lund_univ.Fs.Layout.Entry.{OnlyEntry}
use edan35_os_lund_univ.Fs.Support.{Cache, save_directory}
use edan35_os_lund_univ.Fs.Support.FreeList.{alloc_block-nil, alloc_block-cons}
use edan35_os_lund_univ.Fs.Support.Cached.{
  save_directory-count, save_directory-Same, save_directory-cache,
}
use edan35_os_lund_univ.Fs.Consistent.Grows.{Grows, Grows-refl, Grows-first}
use edan35_os_lund_univ.Fs.Ssfs.{claim_first, start_file, resize, grow_file}
use edan35_os_lund_univ.Fs.Ssfs.Walk.{Owns}

le_of_not_less : (a b : ℕ) → ltb a b ≡ false → b ≤ a
le_of_not_less a b h = ground arith

length-pos : (xs : List ℕ) → xs ≢ [] → 0 < length xs
length-pos [] h = absurd (h refl)
length-pos (x ∷ xs) h = omega arith

module _ (dev : BlockDevice) where
  open dev use {blocks, count}

  -- The file of entry di, with the chain xs, has at least one block; nothing is saved yet.
  pub record Started (c c' : Cache dev) (free : List ℕ) (di : ℕ) (xs : List ℕ) : Type 0 where
    pub free' : List ℕ
    pub xs' : List ℕ
    pub grows :
        Grows c.bmap c'.bmap free free' (first_block c.bdir di) (first_block c'.bdir di) xs xs'
    pub some_block : 0 < length xs'
    pub total : length free' + length xs' ≡ length free + length xs
    pub kept : (k : ℕ) → k < length xs → get_or xs' k 65535 ≡ get_or xs k 65535
    pub longer : length xs ≤ length xs'
    pub only : OnlyEntry c.bdir c'.bdir di
    -- the names of this entry and of those in front of it
    pub named : (j : ℕ) → j < 32 * di + 12 → c'.bdir j ≡ c.bdir j
    pub mode : mode c'.bdir di ≡ mode c.bdir di
    pub size : size_bytes c'.bdir di ≡ size_bytes c.bdir di
    pub disk : c'.disk ≡ c.disk

  -- The allocation of a first block fails: nothing reaches the disk.
  pub record NoBlock (c c' : Cache dev) (free : List ℕ) (xs : List ℕ) (e : Errno) : Type 0 where
    pub errno : e ≡ enospc
    pub disk : c'.disk ≡ c.disk
    pub full : free ≡ []
    pub empty : xs ≡ []

  start_file-nil :
      (c : Cache dev) (free : List ℕ) (di : ℕ)
      → Owns c.bmap free (first_block c.bdir di) []
      → Returns
          (λ _ c'. Started c c' free di [])
          (λ e c'. NoBlock c c' free [] e)
          (start_file dev di c)
  unfolding start_file claim_first
  start_file-nil c [] di o =
      rw (o.chain, alloc_block-nil dev c o.list)
        (fails (record { errno = refl; disk = refl; full = refl; empty = refl }))
  start_file-nil c (x ∷ free) di o =
      let small : (x == 65535) ≡ false = ground (arith, o.list) in
      let first = Entry.first_block-set_first_block c.bdir di x (omega (arith, o.list)) in
      rw (o.chain, alloc_block-cons dev c x free o.list, small)
        (returns (record {
          free' = free;
          xs' = x ∷ [];
          grows = rw first (Grows-first c.bmap x free (first_block c.bdir di) o.list);
          some_block = omega arith;
          total = omega arith;
          kept = λ k h. absurd (omega arith);
          longer = omega arith;
          only = Entry.set_first_block-OnlyEntry c.bdir di x;
          named = Entry.set_first_block-name c.bdir di x;
          mode = Entry.mode-set_first_block c.bdir di x;
          size = Entry.size_bytes-set_first_block c.bdir di x;
          disk = refl;
        }))

  start_file-cons :
      (c : Cache dev) (free : List ℕ) (di x : ℕ) (xs : List ℕ)
      → Owns c.bmap free (first_block c.bdir di) (x ∷ xs)
      → Returns
          (λ _ c'. Started c c' free di (x ∷ xs))
          (λ e c'. NoBlock c c' free (x ∷ xs) e)
          (start_file dev di c)
  unfolding start_file
  start_file-cons c free di x xs o =
      let small : (first_block c.bdir di == 65535) ≡ false = ground (arith, o.chain) in
      rw small (
        returns (record {
          free' = free;
          xs' = x ∷ xs;
          grows = Grows-refl c.bmap free (first_block c.bdir di) (x ∷ xs) o.list o.chain o.apart;
          some_block = omega arith;
          total = refl;
          kept = λ k h. refl;
          longer = omega arith;
          only = λ j h. refl;
          named = λ j h. refl;
          mode = refl;
          size = refl;
          disk = refl;
        }))

  pub start_file-Returns :
      (c : Cache dev) (free : List ℕ) (di : ℕ) (xs : List ℕ)
      → Owns c.bmap free (first_block c.bdir di) xs
      → Returns
          (λ _ c'. Started c c' free di xs)
          (λ e c'. NoBlock c c' free xs e)
          (start_file dev di c)
  start_file-Returns c free di [] o = start_file-nil c free di o
  start_file-Returns c free di (x ∷ xs) o = start_file-cons c free di x xs o

  -- The file is at least n bytes long and has a block, and the directory is saved.
  pub record Grown (c c' : Cache dev) (free : List ℕ) (di : ℕ) (xs : List ℕ) (n : ℕ) : Type 0 where
    pub free' : List ℕ
    pub xs' : List ℕ
    pub grows :
        Grows c.bmap c'.bmap free free' (first_block c.bdir di) (first_block c'.bdir di) xs xs'
    pub some_block : 0 < length xs'
    pub total : length free' + length xs' ≡ length free + length xs
    pub kept : (k : ℕ) → k < length xs → get_or xs' k 65535 ≡ get_or xs k 65535
    pub longer : length xs ≤ length xs'
    pub only : OnlyEntry c.bdir c'.bdir di
    -- the names of this entry and of those in front of it
    pub named : (j : ℕ) → j < 32 * di + 12 → c'.bdir j ≡ c.bdir j
    pub mode : mode c'.bdir di ≡ mode c.bdir di
    pub size :
        size_bytes c'.bdir di ≡ (if ltb (size_bytes c.bdir di) n then n else size_bytes c.bdir di)
    pub saved : Same (blocks c'.disk 1) c'.bdir
    pub others : (m : ℕ) → m ≢ 1 → Same (blocks c'.disk m) (blocks c.disk m)
    pub count : count c'.disk ≡ count c.disk

  resize-Grown :
      (c c' : Cache dev) (free : List ℕ) (di : ℕ) (xs : List ℕ) (n : ℕ)
      → 1 < count c.disk
      → n < 0x1_0000_0000_0000_0000
      → ltb (size_bytes c.bdir di) n ≡ true
      → Started c c' free di xs
      → Grown c (resize dev di n c') free di xs n
  unfolding resize
  resize-Grown c c' free di xs n two fits less s = record {
    free' = s.free';
    xs' = s.xs';
    grows =
        rw (saved_cache.1, saved_cache.0, Entry.first_block-set_size_bytes c'.bdir di n) s.grows;
    some_block = s.some_block;
    total = s.total;
    kept = s.kept;
    longer = s.longer;
    only = rw saved_cache.0 (
        Entry.OnlyEntry-trans c.bdir c'.bdir (set_size_bytes c'.bdir di n) di s.only
          (Entry.set_size_bytes-OnlyEntry c'.bdir di n));
    named = λ j h. rw saved_cache.0 (Entry.set_size_bytes-name c'.bdir di n j h ∙ s.named j h);
    mode = rw saved_cache.0 (Entry.mode-set_size_bytes c'.bdir di n ∙ s.mode);
    size = rw (saved_cache.0, less) (Entry.size_bytes-set_size_bytes c'.bdir di n fits);
    saved = λ j h. rw saved_cache.0 (save_directory-Same dev after 1 room j h);
    others = λ m ne j h.
        ground (arith, save_directory-Same dev after m room j h, ap (λ d. blocks d m j) s.disk);
    count = save_directory-count dev after room ∙ ap count s.disk;
  }
    where
      after : Cache dev
      after = record c' { bdir = set_size_bytes c'.bdir di n }

      saved_cache :
          ((save_directory dev after).bdir ≡ set_size_bytes c'.bdir di n)
          × ((save_directory dev after).bmap ≡ c'.bmap)
      saved_cache = save_directory-cache dev after

      room : 1 < count c'.disk
      room = rw s.disk two

  pub grow_file-Returns :
      (c : Cache dev) (free : List ℕ) (di : ℕ) (xs : List ℕ) (size offset : ℕ)
      → 1 < count c.disk
      → Same (blocks c.disk 1) c.bdir
      → 0 < offset + size
      → offset + size < 0x1_0000_0000_0000_0000
      → (xs ≡ [] → size_bytes c.bdir di ≡ 0)
      → Owns c.bmap free (first_block c.bdir di) xs
      → Returns
          (λ _ c'. Grown c c' free di xs (offset + size))
          (λ e c'. NoBlock c c' free xs e)
          (grow_file dev di size offset c)
  unfolding grow_file
  grow_file-Returns c free di xs size offset two same pos fits sized o =
      rw wraps (elim (Bool-cases (ltb (size_bytes c.bdir di) (offset + size))) [
        | inl less ↦ rw less (
            Run.bind (start_file-Returns c free di xs o) (λ e c' x. x)
              λ _ c' s. returns (resize-Grown c c' free di xs (offset + size) two fits less s))
        | inr enough ↦ rw enough (
            returns (record {
              free' = free;
              xs' = xs;
              grows = Grows-refl c.bmap free (first_block c.bdir di) xs o.list o.chain o.apart;
              some_block = length-pos xs (λ e. omega (arith, sized e, le_of_not_less _ _ enough));
              total = refl;
              kept = λ k h. refl;
              longer = omega arith;
              only = λ j h. refl;
              named = λ j h. refl;
              mode = refl;
              size = rw enough;
              saved = same;
              others = λ m ne j h. refl;
              count = refl;
            }))
      ])
    where
      wraps : (offset + size) % 2 ^ 64 ≡ offset + size
      wraps = omega arith
