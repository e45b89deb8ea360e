-- ===== src/Fs/Ssfs/Write.antt =====
-- do_write as a whole: what reaches the disk.
use edan35_os_lund_univ.Common.{
  ℕ, ◌+◌, ◌-◌, ◌*◌, ◌/◌, ◌%◌, ◌≤◌, ◌<◌, ◌≡◌, ◌≢◌, refl, sym, ◌∙◌, ap, ◌⊎◌, true, some, List, [],
  arith, ◌==◌, has, length, get_or, subst, ltb, if◌then◌else◌, has-get_or,
}
use edan35_os_lund_univ.Common.Words.{u32_mod}
use edan35_os_lund_univ.Fs.Bytes.{Block, Same, copy, copy-Same}
use edan35_os_lund_univ.Fs.Device.{BlockDevice}
use edan35_os_lund_univ.Fs.Run
use edan35_os_lund_univ.Fs.Run.{Run, ok, error, Returns, returns, fails, Errno, enospc}
use edan35_os_lund_univ.Fs.Layout.{link, first_block, size_bytes}
use edan35_os_lund_univ.Fs.Layout.Entry
use edan35_os_lund_univ.Fs.Layout.Entry.{SameEntry, OnlyEntry, SameEntry-trans}
use edan35_os_lund_univ.Fs.Chain.{Leads-first, Leads-mem, Leads-has_first}
use edan35_os_lund_univ.Fs.Text.{IsText}
use edan35_os_lund_univ.Fs.Support.{Cache}
use edan35_os_lund_univ.Fs.Support.Lookup.{IsUsed}
use edan35_os_lund_univ.Fs.Consistent.{Consistent, IsConsistent, Consistent-Same}
use edan35_os_lund_univ.Fs.Consistent.Grows.{Grows-trans, Consistent-Grows, update}
use edan35_os_lund_univ.Fs.Ssfs.{min, do_write}
use edan35_os_lund_univ.Fs.Ssfs.Chunk.{flushed, flushed-count, flushed-map, flushed-Same}
use edan35_os_lund_univ.Fs.Ssfs.Walk.{Walked, Owns, Grows-Owns, walk-Returns}
use edan35_os_lund_univ.Fs.Ssfs.Grow.{Grown, grow_file-Returns}
use edan35_os_lund_univ.Fs.Ssfs.Locate.{
  entry_of, locate-some, Found, find-Found, both_loaded, both_loaded-blocks, both_loaded-count,
  both_loaded-bdir, both_loaded-bmap,
}

unchanged : (d d' : Block) (k : ℕ) → k < 16 → Same d' d → SameEntry d d' k
unchanged d d' k h s = Entry.Same-SameEntry d d' k s h

first_taken :
    (xs free xs' : List ℕ) (x : ℕ)
    → xs ≡ []
    → (has x xs ≡ true) ⊎ (has x free ≡ true)
    → has x free ≡ true
first_taken xs free xs' x e h = ground arith

module _ (dev : BlockDevice) where
  open dev use {blocks, count}

  -- The place in its chain of the block that a write at an offset goes to. The C variable has
  -- sixteen bits.
  abbrev pub place_of : ℕ → ℕ
  place_of offset = offset / 512 % 65536

  -- What a write that succeeds leaves on the disk.
  pub record Written (disk disk' : dev.Disk) (free : List ℕ) (chain : ℕ → List ℕ) (di : ℕ)
      (buffer : Block) (size offset : ℕ) : Type 0 where
    pub free' : List ℕ
    pub xs' : List ℕ
    pub consistent : IsConsistent dev disk' free' (update chain di xs')
    pub inside : place_of offset < length xs'
    pub kept : (k : ℕ) → k < length (chain di) → get_or xs' k 65535 ≡ get_or (chain di) k 65535
    pub total : length free' + length xs' ≡ length free + length (chain di)
    pub new_size : size_bytes (blocks disk' 1) di ≡ (
        if ltb (size_bytes (blocks disk 1) di) (offset + size)
        then offset + size
        else size_bytes (blocks disk 1) di)
    pub entries : (k : ℕ) → k < 16 → k ≢ di → SameEntry (blocks disk 1) (blocks disk' 1) k
    pub named : (j : ℕ) → j < 32 * di + 12 → j < 512 → blocks disk' 1 j ≡ blocks disk 1 j
    pub written :
        let b = get_or xs' (place_of offset) 65535 in
        Same
          (blocks disk' b)
          (copy (blocks disk b) (offset % 512) buffer (min size (512 - offset % 512)))
    pub others :
        (m : ℕ)
        → 2 ≤ m
        → m ≢ get_or xs' (place_of offset) 65535
        → Same (blocks disk' m) (blocks disk m)

  -- What a write that runs out of blocks leaves on the disk.
  pub record Refused (disk disk' : dev.Disk) (free : List ℕ) (chain : ℕ → List ℕ) (di offset : ℕ)
      (e : Errno) : Type 0 where
    pub errno : e ≡ enospc
    pub full : length free + length (chain di) ≤ place_of offset
    pub others : (m : ℕ) → m ≢ 1 → Same (blocks disk' m) (blocks disk m)
    pub used : blocks disk' 1 (32 * di) ≡ blocks disk 1 (32 * di)
    pub entries : (k : ℕ) → k < 16 → k ≢ di → SameEntry (blocks disk 1) (blocks disk' 1) k
    -- a file without blocks may have got a free block for its first one
    pub first : chain di ≡ [] → free ≢ [] → has (first_block (blocks disk' 1) di) free ≡ true

  module _ (garbage buffer : Block) (size offset di : ℕ) (free : List ℕ) (chain : ℕ → List ℕ) where
    module _ (disk : dev.Disk) (c c' c'' : Cache dev) (crtblk : ℕ)
        (ok_disk : IsConsistent dev disk free chain) (in_range : di < 16)
        (used : IsUsed (blocks disk 1) di) (same_blocks : blocks c.disk ≡ blocks disk)
        (same_count : count c.disk ≡ count disk) (same_bdir : Same c.bdir (blocks disk 1))
        (same_bmap : Same c.bmap (blocks disk 0))
        (g : Grown dev c c' free di (chain di) (offset + size))
        (w : Walked dev c' c'' g.free'
          (first_block c'.bdir di)
          g.xs'
          (place_of offset)
          crtblk) where
      crtblk_range : (2 ≤ crtblk) × (crtblk < 10)
      crtblk_range =
          Leads-mem (link c''.bmap) 65535 (first_block c'.bdir di) crtblk w.xs' w.grows.chain (
            subst (λ k. has k w.xs' ≡ true) w.place
              (has-get_or w.xs' (place_of offset) 65535 w.within))

      room : 10 ≤ count c''.disk
      room = omega (arith, ok_disk.room, same_count, g.count, ap count w.disk)

      abbrev final : dev.Disk
      final =
          (flushed dev garbage buffer crtblk (offset % 512) (min size (512 - offset % 512))
            c'').disk

      final-Same :
          (m : ℕ)
          → m ≢ 0
          → Same (blocks final m) (
              if m == crtblk
              then copy
                  (blocks c''.disk crtblk)
                  (offset % 512)
                  buffer
                  (min size (512 - offset % 512))
              else blocks c''.disk m)
      final-Same =
          flushed-Same dev garbage buffer crtblk (offset % 512) (min size (512 - offset % 512)) c''
            room crtblk_range.1

      final-dir : Same (blocks final 1) c'.bdir
      final-dir j l = ground (
        arith,
        final-Same 1 (λ e. omega arith) j l,
        crtblk_range,
        ap (λ d. blocks d 1 j) w.disk,
        g.saved j l,
      )

      -- blocks of files and free blocks as they were before the write
      before : (m : ℕ) → 2 ≤ m → Same (blocks c''.disk m) (blocks disk m)
      before m h j l =
          ap (λ d. blocks d m j) w.disk
          ∙ g.others m (λ e. omega arith) j l
          ∙ ap (λ b. b m j) same_blocks

      loaded : Consistent c.bdir c.bmap free chain
      loaded =
          Consistent-Same (blocks disk 1) c.bdir (blocks disk 0) c.bmap free chain same_bdir
            same_bmap ok_disk.agree

      consistent : IsConsistent dev final w.free' (update chain di w.xs')
      consistent = record {
        room =
            rw
              (flushed-count dev garbage buffer crtblk (offset % 512)
                (min size (512 - offset % 512)) c'' room crtblk_range.1)
              room;
        agree =
            Consistent-Same c'.bdir (blocks final 1) c''.bmap (blocks final 0) w.free'
              (update chain di w.xs') final-dir
              (flushed-map dev garbage buffer crtblk (offset % 512) (min size (512 - offset % 512))
                c'' room crtblk_range.1)
              (Consistent-Grows c.bdir c'.bdir c.bmap c''.bmap free w.free' chain di
                (first_block c'.bdir di) w.xs' loaded in_range
                (λ z. used (sym (same_bdir (32 * di) (omega arith)) ∙ z))
                (Grows-trans g.grows w.grows) g.only (g.named (32 * di) (omega arith)) refl
                (λ e. absurd (omega (arith, w.within, ap length e))));
      }

      final-entry : (k : ℕ) → k < 16 → k ≢ di → SameEntry (blocks disk 1) (blocks final 1) k
      final-entry k h ne =
          SameEntry-trans (Entry.Same-SameEntry (blocks disk 1) c.bdir k same_bdir h) (
            SameEntry-trans (Entry.OnlyEntry-SameEntry c.bdir c'.bdir di k g.only ne)
              (Entry.Same-SameEntry c'.bdir (blocks final 1) k final-dir h))

      old_size : size_bytes c.bdir di ≡ size_bytes (blocks disk 1) di
      old_size =
          SameEntry.size_bytes (Entry.Same-SameEntry (blocks disk 1) c.bdir di same_bdir in_range)

      finish-Written : Written disk final free chain di buffer size offset
      finish-Written = record {
        free' = w.free';
        xs' = w.xs';
        consistent = consistent;
        inside = w.within;
        kept = λ k h. w.kept k (omega (arith, g.longer)) ∙ g.kept k h;
        total = w.total ∙ g.total;
        new_size =
            SameEntry.size_bytes
              (Entry.Same-SameEntry c'.bdir (blocks final 1) di final-dir in_range)
            ∙ rw old_size at g.size;
        entries = final-entry;
        named = λ j h l. final-dir j l ∙ g.named j h ∙ same_bdir j l;
        written = rw w.place (λ j l.
            ground (arith, final-Same crtblk (λ e. omega (arith, crtblk_range)) j l)
            ∙ copy-Same (blocks c''.disk crtblk) (blocks disk crtblk) (offset % 512) buffer
                (min size (512 - offset % 512)) (before crtblk crtblk_range.0) j l);
        others =
            rw w.place
              (λ m h ne j l. ground (arith, final-Same m (λ e. omega arith) j l, before m h j l));
      }

  -- A write of at least one byte that ends below 2^64, to a file that exists on a consistent disk,
  -- never faults. Where it succeeds it returns the 32 bits of the size that was asked for, and the
  -- disk is as `Written` says: consistent again, the file at least offset + size bytes long, the
  -- block at place offset / 512 (modulo 2^16, as the source keeps it) of its chain changed in the
  -- bytes from offset % 512 on, as far as that block reaches, every other block of every file and
  -- every other entry as before. It fails only with ENOSPC, and only where the free blocks are too
  -- few; then every block but the directory and every other entry are as before, but the disk need not
  -- be consistent.
  pub do_write-Returns :
      (garbage : Block) (path : List ℕ) (buffer : Block) (size offset : ℕ) (c : Cache dev) (di : ℕ)
      (free : List ℕ) (chain : ℕ → List ℕ)
      → IsConsistent dev c.disk free chain
      → IsText path
      → entry_of dev c path ≡ some di
      → 0 < size
      → offset + size < 0x1_0000_0000_0000_0000
      → Returns
          (λ n c'. (n ≡ size % u32_mod) × Written c.disk c'.disk free chain di buffer size offset)
          (λ e c'. Refused c.disk c'.disk free chain di offset e)
          (do_write dev garbage path buffer size offset c)
  unfolding do_write
  do_write-Returns garbage path buffer size offset c di free chain ic text found pos fits =
      rw (locate-some dev c path di two found) (
        Run.bind
          (grow_file-Returns dev (both_loaded dev c) free di (chain di) size offset
            (rw (both_loaded-count dev c) two) same (omega arith) fits
            (f.consistent.sized di f.in_range f.used_loaded) owned)
          (λ e c' x. record {
            errno = x.errno;
            full = omega (arith, ap length x.full, ap length x.empty);
            others = λ m ne j l. ap (λ d. blocks d m j) x.disk ∙ untouched m j;
            used = ap (λ d. blocks d 1 (32 * di)) x.disk ∙ untouched 1 (32 * di);
            entries = λ k h ne.
                unchanged (blocks c.disk 1) (blocks _ 1) k h
                  (λ j l. ap (λ d. blocks d 1 j) x.disk ∙ untouched 1 j);
            first = λ _ some_free. absurd (some_free x.full);
          })
          λ _ c' g.
            Run.bind
              (walk-Returns dev (place_of offset) c' g.free' (first_block c'.bdir di) g.xs' 0
                (first_block c'.bdir di) (Grows-Owns g.grows)
                (Leads-first (link c'.bmap) 65535 (first_block c'.bdir di) g.xs' g.grows.chain)
                g.some_block)
              (λ e c'' x. record {
                errno = x.errno;
                full = omega (arith, x.full, g.total);
                others =
                    λ m ne j l. ap (λ d. blocks d m j) x.disk ∙ g.others m ne j l ∙ untouched m j;
                used =
                    ap (λ d. blocks d 1 (32 * di)) x.disk
                    ∙ g.saved (32 * di) (omega (arith, f.in_range))
                    ∙ g.named (32 * di) (omega arith)
                    ∙ both_loaded-bdir dev c two (32 * di) (omega (arith, f.in_range));
                entries = λ k h ne.
                    SameEntry-trans
                      (unchanged (blocks c.disk 1) (both_loaded dev c).bdir k h
                        (both_loaded-bdir dev c two))
                      (SameEntry-trans
                        (Entry.OnlyEntry-SameEntry (both_loaded dev c).bdir c'.bdir di k g.only ne)
                        (unchanged c'.bdir (blocks c''.disk 1) k h
                          (λ j l. ap (λ d. blocks d 1 j) x.disk ∙ g.saved j l)));
                first = λ none_yet _.
                    rw
                      (SameEntry.first_block (
                        Entry.Same-SameEntry c'.bdir (blocks c''.disk 1) di
                          (λ j l. ap (λ d. blocks d 1 j) x.disk ∙ g.saved j l) f.in_range))
                      (first_taken (chain di) free g.xs' (first_block c'.bdir di) none_yet (
                        g.grows.grown (first_block c'.bdir di) (
                          Leads-has_first (link c'.bmap) 65535 (first_block c'.bdir di) g.xs'
                            g.grows.chain g.some_block)));
              })
              λ crtblk c'' w. returns (
                refl,
                finish-Written garbage buffer size offset di free chain c.disk (both_loaded dev c)
                    c' c'' crtblk ic f.in_range f.used (both_loaded-blocks dev c)
                    (both_loaded-count dev c) (both_loaded-bdir dev c two)
                    (both_loaded-bmap dev c two) g
                    (subst (λ k. Walked dev c' c'' g.free' (first_block c'.bdir di) g.xs' k crtblk)
                      (omega arith) w),
              ))
    where
      two : 1 < count c.disk
      two = omega (arith, ic.room)

      f : Found dev c path di free chain
      f = find-Found dev c path di ic text found

      untouched : (m j : ℕ) → blocks (both_loaded dev c).disk m j ≡ blocks c.disk m j
      untouched m j = ap (λ b. b m j) (both_loaded-blocks dev c)

      same : Same (blocks (both_loaded dev c).disk 1) (both_loaded dev c).bdir
      same j l = untouched 1 j ∙ sym (both_loaded-bdir dev c two j l)

      owned :
          Owns (both_loaded dev c).bmap free (first_block (both_loaded dev c).bdir di) (chain di)
      owned = record {
        list = f.consistent.free_list;
        chain = f.consistent.file di f.in_range f.used_loaded;
        apart = λ x i. f.consistent.apart_free di x f.in_range i;
      }
