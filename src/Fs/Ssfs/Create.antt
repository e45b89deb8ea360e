-- ===== src/Fs/Ssfs/Create.antt =====
-- do_create: a new entry in the first empty place of the directory.
use edan35_os_lund_univ.Common.{
  ℕ, ◌*◌, ◌<◌, ◌≡◌, ◌≢◌, refl, sym, ◌∙◌, ap, List, [], some, arith, take, inl, inr, Option-cases,
  subst,
}
use edan35_os_lund_univ.Fs.Bytes.{Block, Same}
use edan35_os_lund_univ.Fs.Device.{BlockDevice}
use edan35_os_lund_univ.Fs.Run.{Returns, returns, fails, enfile}
use edan35_os_lund_univ.Fs.Layout.{
  name_at, mode, set_mode, size_bytes, set_size_bytes, first_block, eof_block,
}
use edan35_os_lund_univ.Fs.Layout.Entry
use edan35_os_lund_univ.Fs.Layout.Entry.{OnlyEntry, SameEntry, SameEntry-trans}
use edan35_os_lund_univ.Fs.Text.{
  IsText, tail_bytes, strncpy, strncpy-outside, text_at-cong, text_at-strncpy,
}
use edan35_os_lund_univ.Fs.Support.{Cache, first_empty_dir_entry, load_directory}
use edan35_os_lund_univ.Fs.Support.Lookup.{
  IsUsed, entry_name, FindsEmpty, first_empty_dir_entry-FindsEmpty,
}
use edan35_os_lund_univ.Fs.Support.Cached.{
  load_directory-blocks, load_directory-count, load_directory-bdir, saved, saved-dir, saved-others,
  saved-count,
}
use edan35_os_lund_univ.Fs.Consistent.{IsConsistent, Consistent-Same}
use edan35_os_lund_univ.Fs.Consistent.Grows.{update, Consistent-clear}
use edan35_os_lund_univ.Fs.Ssfs.{new_entry, do_create}
use edan35_os_lund_univ.Fs.Ssfs.Locate.{IsText-tail}

module _ (d : Block) (ni : ℕ) (fn : List ℕ) (m : ℕ) where
  abbrev copied : Block
  copied = strncpy d (name_at ni) fn 12

  abbrev with_mode : Block
  with_mode = set_mode copied ni m

  abbrev with_size : Block
  with_size = set_size_bytes with_mode ni 0

  new_entry-OnlyEntry : OnlyEntry d (new_entry d ni fn m) ni
  unfolding new_entry
  new_entry-OnlyEntry j h =
      Entry.set_first_block-OnlyEntry with_size ni eof_block j h
      ∙ Entry.set_size_bytes-OnlyEntry with_mode ni 0 j h
      ∙ Entry.set_mode-OnlyEntry copied ni m j h
      ∙ strncpy-outside d (name_at ni) fn 12 j (omega arith)

  new_entry-name : IsText fn → entry_name (new_entry d ni fn m) ni ≡ take 12 fn
  unfolding new_entry
  new_entry-name t =
      text_at-cong 12 (new_entry d ni fn m) copied (name_at ni) (λ j p q.
        Entry.set_first_block-name with_size ni eof_block j q
        ∙ Entry.set_size_bytes-name with_mode ni 0 j q
        ∙ Entry.set_mode-name copied ni m j q)
      ∙ text_at-strncpy 12 fn d (name_at ni) t

  new_entry-fields :
      m < 0x1_0000_0000
      → (mode (new_entry d ni fn m) ni ≡ m)
        × (size_bytes (new_entry d ni fn m) ni ≡ 0)
        × (first_block (new_entry d ni fn m) ni ≡ 65535)
  unfolding new_entry
  new_entry-fields h = (
    Entry.mode-set_first_block with_size ni eof_block
        ∙ Entry.mode-set_size_bytes with_mode ni 0
        ∙ Entry.mode-set_mode copied ni m h,
    Entry.size_bytes-set_first_block with_size ni eof_block
        ∙ Entry.size_bytes-set_size_bytes with_mode ni 0 (omega arith),
    Entry.first_block-set_first_block with_size ni eof_block (omega arith),
  )

module _ (dev : BlockDevice) where
  open dev use {blocks, count}

  -- What a file that was created leaves on the disk.
  pub record Created (disk disk' : dev.Disk) (free : List ℕ) (chain : ℕ → List ℕ) (fn : List ℕ)
      (m : ℕ) : Type 0 where
    pub entry : ℕ
    pub in_range : entry < 16
    pub was_empty : blocks disk 1 (32 * entry) ≡ 0
    pub first : (k : ℕ) → k < entry → IsUsed (blocks disk 1) k
    pub consistent : IsConsistent dev disk' free (update chain entry [])
    pub name : entry_name (blocks disk' 1) entry ≡ take 12 fn
    pub new_mode : mode (blocks disk' 1) entry ≡ m
    pub new_size : size_bytes (blocks disk' 1) entry ≡ 0
    pub no_block : first_block (blocks disk' 1) entry ≡ 65535
    pub entries : (k : ℕ) → k < 16 → k ≢ entry → SameEntry (blocks disk 1) (blocks disk' 1) k
    pub others : (k : ℕ) → k ≢ 1 → Same (blocks disk' k) (blocks disk k)

  module _ (path : List ℕ) (m : ℕ) (c : Cache dev) (free : List ℕ) (chain : ℕ → List ℕ)
      (ic : IsConsistent dev c.disk free chain) (text : IsText path)
      (word : m < 0x1_0000_0000) where
    two : 1 < count c.disk
    two = omega (arith, ic.room)

    created :
        (ni : ℕ)
        → FindsEmpty (load_directory dev c).bdir (some ni)
        → Created c.disk
            (saved dev
              (load_directory dev c)
              (new_entry (load_directory dev c).bdir ni (tail_bytes path) m)).disk
            free
            chain
            (tail_bytes path)
            m
    created ni (le, empty, before) = record {
      entry = ni;
      in_range = le;
      was_empty = sym (same (32 * ni) (omega arith)) ∙ empty;
      first = λ k h z. before k h (same (32 * k) (omega arith) ∙ z);
      consistent = record {
        room = rw (saved-count dev l d' two', load_directory-count dev c) ic.room;
        agree =
            Consistent-Same d' (blocks disk' 1) (blocks c.disk 0) (blocks disk' 0) free
              (update chain ni []) (saved-dir dev l d' two') (kept 0 (λ e. omega arith))
              (Consistent-clear l.bdir d' (blocks c.disk 0) free chain ni
                (Consistent-Same (blocks c.disk 1) l.bdir (blocks c.disk 0) (blocks c.disk 0) free
                  chain same (λ j h. refl) ic.agree)
                (new_entry-OnlyEntry l.bdir ni (tail_bytes path) m) fields.2 fields.1);
      };
      name = on_disk.name ∙ new_entry-name l.bdir ni (tail_bytes path) m (IsText-tail path text);
      new_mode = on_disk.mode ∙ fields.0;
      new_size = on_disk.size_bytes ∙ fields.1;
      no_block = on_disk.first_block ∙ fields.2;
      entries = λ k h ne. SameEntry-trans (Entry.Same-SameEntry (blocks c.disk 1) l.bdir k same h) (
          SameEntry-trans
            (Entry.OnlyEntry-SameEntry l.bdir d' ni k
              (new_entry-OnlyEntry l.bdir ni (tail_bytes path) m) ne)
            (Entry.Same-SameEntry d' (blocks disk' 1) k (saved-dir dev l d' two') h));
      others = kept;
    }
      where
        l : Cache dev
        l = load_directory dev c

        d' : Block
        d' = new_entry (load_directory dev c).bdir ni (tail_bytes path) m

        two' : 1 < count l.disk
        two' = rw (load_directory-count dev c) two

        disk' : dev.Disk
        disk' = (saved dev l d').disk

        same : Same l.bdir (blocks c.disk 1)
        same = load_directory-bdir dev c two

        fields : (mode d' ni ≡ m) × (size_bytes d' ni ≡ 0) × (first_block d' ni ≡ 65535)
        fields = new_entry-fields l.bdir ni (tail_bytes path) m word

        on_disk : SameEntry d' (blocks disk' 1) ni
        on_disk = Entry.Same-SameEntry d' (blocks disk' 1) ni (saved-dir dev l d' two') le

        kept : (k : ℕ) → k ≢ 1 → Same (blocks disk' k) (blocks c.disk k)
        kept k ne j h =
            saved-others dev l d' two' k ne j h ∙ ap (λ b. b k j) (load_directory-blocks dev c)

    -- Creating a file keeps the disk consistent. With an empty entry left, the first one becomes
    -- the file's: it has the path's first twelve bytes for a name, the mode that was asked for, no
    -- bytes and no block, and no other entry and no other block changes. With none left the
    -- answer is ENFILE and no block changes.
    pub do_create-Returns :
        Returns
          (λ n c'. (n ≡ 0) × Created c.disk c'.disk free chain (tail_bytes path) m)
          (λ e c'.
            (e ≡ enfile)
            × ((k : ℕ) → k < 16 → IsUsed (blocks c.disk 1) k)
            × (blocks c'.disk ≡ blocks c.disk))
          (do_create dev path m c)
    unfolding do_create
    do_create-Returns = elim (Option-cases (first_empty_dir_entry (load_directory dev c).bdir)) [
      | inl full ↦
          rw (full, do_create)
            (fails (
              refl,
              λ k h z.
                  subst (FindsEmpty (load_directory dev c).bdir) full
                    (first_empty_dir_entry-FindsEmpty (load_directory dev c).bdir) k h
                    (load_directory-bdir dev c two (32 * k) (omega arith) ∙ z),
              load_directory-blocks dev c,
            ))
      | inr (ni, found) ↦
          rw (found, do_create)
            (returns (
              refl,
              created ni (
                  subst (FindsEmpty (load_directory dev c).bdir) found
                    (first_empty_dir_entry-FindsEmpty (load_directory dev c).bdir)),
            ))
    ]
