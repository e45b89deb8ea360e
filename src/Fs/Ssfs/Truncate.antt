-- ===== src/Fs/Ssfs/Truncate.antt =====
-- do_truncate: the file becomes empty, whatever length was asked for.
use edan35_os_lund_univ.Common.{ℕ, ◌+◌, ◌*◌, ◌<◌, ◌≡◌, ◌≢◌, refl, ◌∙◌, ap, List, [], some, arith}
use edan35_os_lund_univ.Fs.Bytes.{Block, Same}
use edan35_os_lund_univ.Fs.Device.{BlockDevice}
use edan35_os_lund_univ.Fs.Run.{ok}
use edan35_os_lund_univ.Fs.Layout.{
  size_bytes, set_size_bytes, first_block, set_first_block, eof_block,
}
use edan35_os_lund_univ.Fs.Layout.Entry
use edan35_os_lund_univ.Fs.Layout.Entry.{OnlyEntry, SameEntry, SameEntry-trans, OnlyEntry-trans}
use edan35_os_lund_univ.Fs.Text.{IsText}
use edan35_os_lund_univ.Fs.Support.{Cache, load_directory}
use edan35_os_lund_univ.Fs.Support.Cached.{
  load_directory-blocks, load_directory-count, load_directory-bdir, saved, saved-dir, saved-others,
  saved-count,
}
use edan35_os_lund_univ.Fs.Consistent.{IsConsistent, Consistent-Same}
use edan35_os_lund_univ.Fs.Consistent.Grows.{update, Consistent-clear}
use edan35_os_lund_univ.Fs.Ssfs.{do_truncate}
use edan35_os_lund_univ.Fs.Ssfs.Locate.{entry_of, locate-some, Found, find-Found}

-- the directory after the entry is emptied
abbrev emptied : Block → ℕ → Block
emptied d di = set_first_block (set_size_bytes d di 0) di eof_block

emptied-OnlyEntry : (d : Block) (di : ℕ) → OnlyEntry d (emptied d di) di
emptied-OnlyEntry d di =
    Entry.OnlyEntry-trans d (set_size_bytes d di 0) (emptied d di) di
      (Entry.set_size_bytes-OnlyEntry d di 0)
      (Entry.set_first_block-OnlyEntry (set_size_bytes d di 0) di eof_block)

module _ (dev : BlockDevice) where
  open dev use {blocks, count}

  -- What truncation leaves on the disk.
  pub record Truncated (disk disk' : dev.Disk) (free : List ℕ) (chain : ℕ → List ℕ) (di : ℕ)
      : Type 0 where
    pub consistent : IsConsistent dev disk' free (update chain di [])
    pub new_size : size_bytes (blocks disk' 1) di ≡ 0
    pub no_block : first_block (blocks disk' 1) di ≡ 65535
    pub named : (j : ℕ) → j < 32 * di + 12 → j < 512 → blocks disk' 1 j ≡ blocks disk 1 j
    pub entries : (k : ℕ) → k < 16 → k ≢ di → SameEntry (blocks disk 1) (blocks disk' 1) k
    pub others : (k : ℕ) → k ≢ 1 → Same (blocks disk' k) (blocks disk k)

  -- Truncating a file that exists succeeds and keeps the disk consistent. Whatever length was asked
  -- for, the file then has no bytes and no block; its name, the other entries and every block but
  -- the directory stay as they are. The block map stays too, so the file's blocks do not come back
  -- to the free list, which is the one from before.
  pub do_truncate-Returns :
      (path : List ℕ) (offset : ℕ) (c : Cache dev) (di : ℕ) (free : List ℕ) (chain : ℕ → List ℕ)
      → IsConsistent dev c.disk free chain
      → IsText path
      → entry_of dev c path ≡ some di
      → (c' : Cache dev) × (do_truncate dev path offset c ≡ ok 0 c')
        × Truncated c.disk c'.disk free chain di
  unfolding do_truncate
  do_truncate-Returns path offset c di free chain ic text found = (
    saved dev l d',
    rw (locate-some dev c path di two found) refl,
    record {
      consistent = record {
        room = rw (saved-count dev l d' two', load_directory-count dev c) ic.room;
        agree =
            Consistent-Same d' (blocks disk' 1) (blocks c.disk 0) (blocks disk' 0) free
              (update chain di []) (saved-dir dev l d' two') (kept 0 (λ e. omega arith))
              (Consistent-clear l.bdir d' (blocks c.disk 0) free chain di
                (Consistent-Same (blocks c.disk 1) l.bdir (blocks c.disk 0) (blocks c.disk 0) free
                  chain same (λ j h. refl) ic.agree)
                (emptied-OnlyEntry l.bdir di) no_block no_bytes);
      };
      new_size = on_disk.size_bytes ∙ no_bytes;
      no_block = on_disk.first_block ∙ no_block;
      named = λ j h h'.
          saved-dir dev l d' two' j h'
          ∙ Entry.set_first_block-name (set_size_bytes l.bdir di 0) di eof_block j h
          ∙ Entry.set_size_bytes-name l.bdir di 0 j h
          ∙ same j h';
      entries = λ k h ne. SameEntry-trans (Entry.Same-SameEntry (blocks c.disk 1) l.bdir k same h) (
          SameEntry-trans
            (Entry.OnlyEntry-SameEntry l.bdir d' di k (emptied-OnlyEntry l.bdir di) ne)
            (Entry.Same-SameEntry d' (blocks disk' 1) k (saved-dir dev l d' two') h));
      others = kept;
    },
  )
    where
      two : 1 < count c.disk
      two = omega (arith, ic.room)

      l : Cache dev
      l = load_directory dev c

      d' : Block
      d' = emptied (load_directory dev c).bdir di

      two' : 1 < count l.disk
      two' = rw (load_directory-count dev c) two

      disk' : dev.Disk
      disk' = (saved dev l d').disk

      same : Same l.bdir (blocks c.disk 1)
      same = load_directory-bdir dev c two

      no_bytes : size_bytes d' di ≡ 0
      no_bytes =
          Entry.size_bytes-set_first_block (set_size_bytes l.bdir di 0) di eof_block
          ∙ Entry.size_bytes-set_size_bytes l.bdir di 0 (omega arith)

      no_block : first_block d' di ≡ 65535
      no_block =
          Entry.first_block-set_first_block (set_size_bytes l.bdir di 0) di eof_block (omega arith)

      on_disk : SameEntry d' (blocks disk' 1) di
      on_disk =
          Entry.Same-SameEntry d' (blocks disk' 1) di (saved-dir dev l d' two')
            (Found.in_range (find-Found dev c path di ic text found))

      kept : (k : ℕ) → k ≢ 1 → Same (blocks disk' k) (blocks c.disk k)
      kept k ne j h =
          saved-others dev l d' two' k ne j h ∙ ap (λ b. b k j) (load_directory-blocks dev c)
