-- ===== src/Fs/Ssfs/Reachable.antt =====
-- Sequences of the handlers of ssfs.c on one disk.
pub mod Sound
use edan35_os_lund_univ.Common.{
  subst, ℕ, ◌+◌, ◌<◌, ◌≡◌, inl, inr, refl, sym, ◌∙◌, subst, List, [], none, some, arith, Bool-cases,
  Option-cases,
}
use edan35_os_lund_univ.Fs.Bytes.{Block}
use edan35_os_lund_univ.Fs.Device.{BlockDevice}
use edan35_os_lund_univ.Fs.Run.{
  Run, ok, error, fault, enoent, enfile, Errno, Returns, returns, fails,
}
use edan35_os_lund_univ.Fs.Layout.{first_block}
use edan35_os_lund_univ.Fs.Text.{IsText, tail_bytes}
use edan35_os_lund_univ.Fs.Support.{Cache, load_directory, first_empty_dir_entry}
use edan35_os_lund_univ.Fs.Support.Cached.{load_directory-blocks, load_directory-count, saved}
use edan35_os_lund_univ.Fs.Consistent.{IsConsistent}
use edan35_os_lund_univ.Fs.Consistent.Grows.{update}
use edan35_os_lund_univ.Fs.Ssfs.{
  do_rename, do_unlink, do_chmod, do_chown, do_utimens, Stat, Caller, is_root, new_entry,
  do_getattr, do_readdir, do_read, do_write, do_create, do_truncate,
}
use edan35_os_lund_univ.Fs.Ssfs.Locate.{entry_of, locate-some, locate-none}
use edan35_os_lund_univ.Fs.Ssfs.Write.{do_write-Returns, Written, Refused}
use edan35_os_lund_univ.Fs.Ssfs.Create.{do_create-Returns, Created}
use edan35_os_lund_univ.Fs.Ssfs.Truncate.{do_truncate-Returns}
use edan35_os_lund_univ.Fs.Ssfs.Read.{after_read, do_read-ok}
use edan35_os_lund_univ.Fs.Ssfs.Reachable.Sound.{
  Leaves, IsSound, wrote-IsSound, write_not_found-IsSound, created-IsSound, truncated-IsSound,
  did_read-IsSound, inspected-IsSound, listed_names-IsSound,
}

module _ (dev : BlockDevice) where
  open dev use {blocks, count}

  -- A call of a handler of the operations table but destroy that leaves the caches and the disk so. The
  -- writes are of at least one byte and end below 2^64, and their result is not ENOSPC.
  pub data Step (c c' : Cache dev) : Type 0 where
    wrote :
        (garbage : Block) (path : List ℕ) (buffer : Block) (size offset n : ℕ)
        → IsText path
        → 0 < size
        → offset + size < 0x1_0000_0000_0000_0000
        → do_write dev garbage path buffer size offset c ≡ ok n c'
        → Step c c'
    write_not_found :
        (garbage : Block) (path : List ℕ) (buffer : Block) (size offset : ℕ)
        → IsText path
        → 0 < size
        → offset + size < 0x1_0000_0000_0000_0000
        → do_write dev garbage path buffer size offset c ≡ error enoent c'
        → Step c c'
    created :
        (path : List ℕ) (m : ℕ)
        → IsText path
        → m < 0x1_0000_0000
        → Leaves (do_create dev path m c) c'
        → Step c c'
    truncated :
        (path : List ℕ) (offset : ℕ)
        → IsText path
        → Leaves (do_truncate dev path offset c) c'
        → Step c c'
    did_read :
        (garbage : Block) (path : List ℕ) (buffer : Block) (size offset : ℕ)
        → Leaves (do_read dev garbage path buffer size offset c) c'
        → Step c c'
    inspected :
        (u : Caller) (path : List ℕ) (st : Stat)
        → Leaves (do_getattr dev u path st c) c'
        → Step c c'
    listed_names :
        (rootb : Block) (path : List ℕ) → (do_readdir dev rootb path c).0 ≡ c' → Step c c'
    renamed : (opath npath : List ℕ) → Leaves (do_rename dev opath npath c) c' → Step c c'
    unlinked : (path : List ℕ) → Leaves (do_unlink dev path c) c' → Step c c'
    mode_changed : (path : List ℕ) (mo : ℕ) → Leaves (do_chmod dev path mo c) c' → Step c c'
    owner_changed :
        (path : List ℕ) (uid gid : ℕ) → Leaves (do_chown dev path uid gid c) c' → Step c c'
    times_changed :
        (path : List ℕ) (access modification : ℕ)
        → Leaves (do_utimens dev path access modification c) c'
        → Step c c'

  pub data Reaches (c : Cache dev) : Cache dev → Type 0 where
    start : Reaches c c
    next : {c' c'' : Cache dev} → Reaches c c' → Step c' c'' → Reaches c c''

  unmoved : (c c' : Cache dev) → c ≡ c' → IsSound dev c.disk → IsSound dev c'.disk
  unmoved c c' e s = subst (λ x. IsSound dev x.disk) e s

  Step-IsSound : (c c' : Cache dev) → Step c c' → IsSound dev c.disk → IsSound dev c'.disk
  unfolding do_rename do_unlink do_chmod do_chown do_utimens
  Step-IsSound c c' (wrote garbage path buffer size offset n t p f e) s =
      wrote-IsSound dev garbage path buffer size offset n c c' t p f e s
  Step-IsSound c c' (write_not_found garbage path buffer size offset t p f e) s =
      write_not_found-IsSound dev garbage path buffer size offset c c' t p f e s
  Step-IsSound c c' (created path m t w l) s = created-IsSound dev path m c c' t w l s
  Step-IsSound c c' (truncated path offset t l) s = truncated-IsSound dev path offset c c' t l s
  Step-IsSound c c' (did_read garbage path buffer size offset l) s =
      did_read-IsSound dev garbage path buffer size offset c c' l s
  Step-IsSound c c' (inspected u path st l) s = inspected-IsSound dev u path st c c' l s
  Step-IsSound c c' (listed_names rootb path l) s = listed_names-IsSound dev rootb path c c' l s
  Step-IsSound c c' (renamed opath npath l) s = unmoved c c' l s
  Step-IsSound c c' (unlinked path l) s = unmoved c c' l s
  Step-IsSound c c' (mode_changed path mo l) s = unmoved c c' l s
  Step-IsSound c c' (owner_changed path uid gid l) s = unmoved c c' l s
  Step-IsSound c c' (times_changed path access modification l) s = unmoved c c' l s

  -- Calls of the handlers getattr, readdir, read, write, create, truncate, rename, unlink, chmod, chown
  -- and utimens, in any number and order, keep a consistent disk consistent: after them too there are
  -- free blocks and chains of the files that share no block. The paths of writes, creations and
  -- truncations have no zero byte, modes have 32 bits, and a write is of at least one byte, ends below
  -- 2^64 and does not answer ENOSPC; all other results are covered.
  pub Reaches-IsSound : {c c' : Cache dev} → Reaches c c' → IsSound dev c.disk → IsSound dev c'.disk
  Reaches-IsSound start s = s
  Reaches-IsSound (next r e) s = Step-IsSound _ _ e (Reaches-IsSound r s)
