-- ===== src/Fs/Ssfs/RoundTrip.antt =====
-- Several handlers in a row: what is written is read back.
use edan35_os_lund_univ.Common.{
  ℕ, ◌+◌, ◌-◌, ◌%◌, ◌≤◌, ◌<◌, ◌≡◌, sym, ◌∙◌, ap, List, some, arith, length, get_or, ltb, leb, ◌&&◌,
  if◌then◌else◌,
}
use edan35_os_lund_univ.Fs.Bytes.{Block, copy}
use edan35_os_lund_univ.Fs.Device.{BlockDevice}
use edan35_os_lund_univ.Fs.Run.{ok, succeeds}
use edan35_os_lund_univ.Fs.Text.{IsText, tail_bytes}
use edan35_os_lund_univ.Fs.Support.{Cache}
use edan35_os_lund_univ.Fs.Support.Cached.{find_dir_entry-prefix}
use edan35_os_lund_univ.Fs.Consistent.{IsConsistent}
use edan35_os_lund_univ.Fs.Consistent.Grows.{update}
use edan35_os_lund_univ.Fs.Ssfs.{min, do_read, do_write}
use edan35_os_lund_univ.Fs.Ssfs.Locate.{entry_of, find-Found}
use edan35_os_lund_univ.Fs.Ssfs.Write.{Written, place_of, do_write-Returns}
use edan35_os_lund_univ.Fs.Ssfs.Read.{do_read-first_block}

-- The two tests of `copy` as one.
in_window :
    (o n j new old : ℕ)
    → (if ltb j o then old else (if ltb j (o + n) then new else old))
      ≡ (if leb o j && ltb j (o + n) then new else old)
in_window o n j new old = ground arith

module _ (dev : BlockDevice) where
  open dev use {blocks, count}

  update_self : (chain : ℕ → List ℕ) (i : ℕ) (xs : List ℕ) → update chain i xs i ≡ xs
  update_self chain i xs = ground arith

  -- the entry is found again after the write
  found_again :
      (c c' : Cache dev) {free : List ℕ} {chain : ℕ → List ℕ} {di : ℕ} {buffer : Block}
      {size offset : ℕ} (path : List ℕ)
      → di < 16
      → entry_of dev c path ≡ some di
      → Written dev c.disk c'.disk free chain di buffer size offset
      → entry_of dev c' path ≡ some di
  found_again c c' {di} path h found w =
      find_dir_entry-prefix (tail_bytes path) (blocks c.disk 1) (blocks c'.disk 1) di found
        (λ j l. sym (w.named j l (omega arith)))

  wrote :
      (garbage : Block) (path : List ℕ) (buffer : Block) (size offset : ℕ) (c : Cache dev) (di : ℕ)
      (free : List ℕ) (chain : ℕ → List ℕ)
      → IsConsistent dev c.disk free chain
      → IsText path
      → entry_of dev c path ≡ some di
      → 0 < size
      → offset + size ≤ 512
      → 0 < length free + length (chain di)
      → (c' : Cache dev) × (do_write dev garbage path buffer size offset c ≡ ok size c')
        × Written dev c.disk c'.disk free chain di buffer size offset
  wrote garbage path buffer size offset c di free chain ic text found pos inside enough =
      let (n, c', e, w) =
        succeeds
          (do_write-Returns dev garbage path buffer size offset c di free chain ic text found pos
            (omega arith))
          (λ e s q. omega (arith, q.full, place)) in
      (c', e ∙ ap (λ k. ok k c') (w.0 ∙ whole), w.1)
    where
      whole : size % 0x1_0000_0000 ≡ size
      whole = omega arith

      place : place_of dev offset ≡ 0
      place = omega arith

  -- the bytes of the first block after the write
  bytes_after :
      (disk disk' : dev.Disk) (free : List ℕ) (chain : ℕ → List ℕ) (di : ℕ) (buffer : Block)
      (size offset j : ℕ) (v : Written dev disk disk' free chain di buffer size offset)
      → offset + size ≤ 512
      → 0 < size
      → j < 512
      → blocks disk' (get_or v.xs' 0 65535) j ≡ (
          if leb offset j && ltb j (offset + size)
          then buffer (j - offset)
          else blocks disk (get_or v.xs' 0 65535) j)
  unfolding copy
  bytes_after disk disk' free chain di buffer size offset j v inside pos h =
      let at = rw (place, low, all) at (v.written j h) in
      at ∙ in_window offset size j (buffer (j - offset)) (blocks disk (get_or v.xs' 0 65535) j)
    where
      low : offset % 512 ≡ offset
      low = omega arith

      all : min size (512 - offset) ≡ size
      all = ground arith

      place : place_of dev offset ≡ 0
      place = omega arith

  -- a read of the start of the file after the write
  read_back :
      (garbage : Block) (path : List ℕ) (buffer' : Block) (want : ℕ) (c c' : Cache dev) (di : ℕ)
      (free : List ℕ) (chain : ℕ → List ℕ) (buffer : Block) (size offset : ℕ)
      → IsConsistent dev c.disk free chain
      → IsText path
      → entry_of dev c path ≡ some di
      → (v : Written dev c.disk c'.disk free chain di buffer size offset) → want ≤ 512
      → (c'' : Cache dev) × (result : Block) × (do_read dev garbage path buffer' want 0 c'
          ≡ ok (result, want) c'')
        × ((j : ℕ) → j < want → result j ≡ blocks c'.disk (get_or v.xs' 0 65535) j)
  read_back garbage path buffer' want c c' di free chain buffer size offset ic text found v wide =
      let f = find-Found dev c path di ic text found in
      let self = update_self chain di v.xs' in
      let (result, c'', e, bytes, _) =
        do_read-first_block dev garbage path buffer' want 0 c' di v.free' (update chain di v.xs')
          v.consistent text (found_again c c' path f.in_range found v)
          (omega (arith, v.inside, ap length self)) in
      (
        c'',
        result,
        e ∙ ap (λ k. ok (result, k) c'') all,
        λ j h. bytes j ∙ ground (arith, ap (λ ys. blocks c'.disk (get_or ys 0 65535) j) self),
      )
    where
      all : min want 512 ≡ want
      all = ground arith

  -- Data that is written into the first block of a file is read back: a write inside the first 512
  -- bytes, with a block free if the file has none, returns its size; a read of the file's first
  -- `want` bytes (512 at most) then returns the new bytes from the offset on and the bytes that the
  -- block held before around them.
  pub do_read-do_write :
      (garbage : Block) (path : List ℕ) (buffer buffer' : Block) (size offset want : ℕ)
      (c : Cache dev) (di : ℕ) (free : List ℕ) (chain : ℕ → List ℕ)
      → IsConsistent dev c.disk free chain
      → IsText path
      → entry_of dev c path ≡ some di
      → 0 < size
      → offset + size ≤ 512
      → 0 < length free + length (chain di)
      → want ≤ 512
      → (c' c'' : Cache dev) × (x : ℕ) × (result : Block) × (do_write dev garbage path buffer size
            offset c
          ≡ ok size c')
        × (do_read dev garbage path buffer' want 0 c' ≡ ok (result, want) c'')
        × (0 < length (chain di) → x ≡ get_or (chain di) 0 65535)
        × ((j : ℕ)
            → j < want
            → result j ≡ (
                if leb offset j && ltb j (offset + size)
                then buffer (j - offset)
                else blocks c.disk x j))
  do_read-do_write garbage path buffer buffer' size offset want c di free chain ic text found pos
        inside enough wide =
      let (c', e, v) =
        wrote garbage path buffer size offset c di free chain ic text found pos inside enough in
      let (c'', result, e', bytes) =
        read_back garbage path buffer' want c c' di free chain buffer size offset ic text found v
          wide in
      (
        c',
        c'',
        get_or v.xs' 0 65535,
        result,
        e,
        e',
        v.kept 0,
        λ j h.
            bytes j h
            ∙ bytes_after c.disk c'.disk free chain di buffer size offset j v inside pos
                (omega arith),
      )
