-- ===== src/Fs/Ssfs/Read.antt =====
-- do_read and do_getattr, and what they say after a write, a creation and a truncation.
use edan35_os_lund_univ.Common.{
  ℕ, ◌-◌, ◌<◌, ◌≡◌, sym, ◌∙◌, ap, List, some, arith, length, get_or, ltb, if◌then◌else◌, has-get_or,
}
use edan35_os_lund_univ.Fs.Bytes.{Block, Same, copy}
use edan35_os_lund_univ.Fs.Device.{BlockDevice}
use edan35_os_lund_univ.Fs.Run.{ok}
use edan35_os_lund_univ.Fs.Layout.{link, first_block}
use edan35_os_lund_univ.Fs.Layout.Entry
use edan35_os_lund_univ.Fs.Layout.Entry.{SameEntry}
use edan35_os_lund_univ.Fs.Chain.{Leads-first, Leads-mem}
use edan35_os_lund_univ.Fs.Text.{IsText}
use edan35_os_lund_univ.Fs.Support.{Cache, load_directory}
use edan35_os_lund_univ.Fs.Support.Cached.{
  load_directory-blocks, load_directory-count, load_directory-bdir,
}
use edan35_os_lund_univ.Fs.Consistent.{IsConsistent}
use edan35_os_lund_univ.Fs.Ssfs.{min, do_read}
use edan35_os_lund_univ.Fs.Ssfs.Locate.{entry_of, locate-some, Found, find-Found}

copy_start :
    (b src src' : Block) (size j : ℕ)
    → Same src src'
    → copy b 0 src (min size 512) j ≡ (if ltb j (min size 512) then src' j else b j)
unfolding copy
copy_start b src src' size j s = ground (arith, s j, zero_off src j)
  where
    zero_off : (f : Block) (k : ℕ) → f (k - 0) ≡ f k
    zero_off f k = ap f (omega arith)

module _ (dev : BlockDevice) where
  open dev use {blocks, count}

  -- the disk and the caches after a read
  abbrev pub after_read : (garbage : Block) → Cache dev → ℕ → Cache dev
  after_read garbage c di =
      let l = load_directory dev c in
      record l { disk = (dev.read_block l.disk (first_block l.bdir di) garbage).0 }

  pub do_read-ok :
      (garbage : Block) (path : List ℕ) (buffer : Block) (size offset : ℕ) (c : Cache dev) (di : ℕ)
      → 1 < count c.disk
      → entry_of dev c path ≡ some di
      → do_read dev garbage path buffer size offset c
        ≡ ok
            (
              let l = load_directory dev c in
                  copy buffer 0
                    (dev.read_block l.disk (first_block l.bdir di) garbage).1
                    (min size 512),
              min size 512,
            )
            (after_read garbage c di)
  unfolding do_read
  do_read-ok garbage path buffer size offset c di two found =
      rw (locate-some dev c path di two found)

  -- Reading a file that has a block returns, at any offset and whatever the file's size, the first
  -- `size` bytes of its first block, or the whole block where more are asked for; the rest of the
  -- caller's buffer and the blocks on the disk stay as they are.
  pub do_read-first_block :
      (garbage : Block) (path : List ℕ) (buffer : Block) (size offset : ℕ) (c : Cache dev) (di : ℕ)
      (free : List ℕ) (chain : ℕ → List ℕ)
      → IsConsistent dev c.disk free chain
      → IsText path
      → entry_of dev c path ≡ some di
      → 0 < length (chain di)
      → (buffer' : Block) × (c' : Cache dev) × (do_read dev garbage path buffer size offset c
          ≡ ok (buffer', min size 512) c')
        × ((j : ℕ)
            → buffer' j ≡ (
                if ltb j (min size 512)
                then blocks c.disk (get_or (chain di) 0 65535) j
                else buffer j))
        × (blocks c'.disk ≡ blocks c.disk)
  do_read-first_block garbage path buffer size offset c di free chain ic text found some_block = (
    copy buffer 0 (dev.read_block l.disk (first_block l.bdir di) garbage).1 (min size 512),
    after_read garbage c di,
    do_read-ok garbage path buffer size offset c di two found,
    λ j. copy_start buffer _ (blocks c.disk x) size j bytes,
    dev.read_block-blocks l.disk (first_block l.bdir di) garbage ∙ load_directory-blocks dev c,
  )
    where
      two : 1 < count c.disk
      two = omega (arith, ic.room)

      l : Cache dev
      l = load_directory dev c

      f : Found dev c path di free chain
      f = find-Found dev c path di ic text found

      x : ℕ
      x = get_or (chain di) 0 65535

      first : first_block l.bdir di ≡ x
      first =
          SameEntry.first_block (
            Entry.Same-SameEntry (blocks c.disk 1) l.bdir di (load_directory-bdir dev c two)
              f.in_range)
          ∙ sym (
              Leads-first (link (blocks c.disk 0)) 65535 (first_block (blocks c.disk 1) di)
                (chain di) (ic.agree.file di f.in_range f.used))

      small : x < 10
      small =
          (Leads-mem (link (blocks c.disk 0)) 65535 (first_block (blocks c.disk 1) di) x (chain di)
            (ic.agree.file di f.in_range f.used) (has-get_or (chain di) 0 65535 some_block)).1

      bytes : Same (dev.read_block l.disk (first_block l.bdir di) garbage).1 (blocks c.disk x)
      bytes j h = rw first (
          dev.read_block-Same l.disk x garbage
            (rw (load_directory-count dev c) (omega (arith, ic.room, small))) j h
          ∙ ap (λ b. b x j) (load_directory-blocks dev c))
