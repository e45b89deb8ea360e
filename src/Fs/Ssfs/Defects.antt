-- ===== src/Fs/Ssfs/Defects.antt =====
-- Where the handlers leave the file system worse than they found it.
use edan35_os_lund_univ.Common.{
  ℕ, ◌+◌, ◌≤◌, ◌<◌, ◌≡◌, ◌≢◌, sym, ◌∙◌, ap, subst, List, [], ◌∷◌, some, arith, length, has, Bool,
  false, true, inr,
}
use edan35_os_lund_univ.Fs.Bytes.{Block}
use edan35_os_lund_univ.Fs.Device.{BlockDevice}
use edan35_os_lund_univ.Fs.Run.{ok, error, enospc, Errno, refuses}
use edan35_os_lund_univ.Fs.Layout.{link, link-Same, first_block}
use edan35_os_lund_univ.Fs.Chain.{Leads, Leads-unique, Leads-mem}
use edan35_os_lund_univ.Fs.Text.{IsText}
use edan35_os_lund_univ.Fs.Support.{Cache}
use edan35_os_lund_univ.Fs.Support.FreeList.{IsFreeList}
use edan35_os_lund_univ.Fs.Support.Lookup.{IsUsed}
use edan35_os_lund_univ.Fs.Consistent.{IsConsistent, Leads-Same}
use edan35_os_lund_univ.Fs.Consistent.Grows.{update}
use edan35_os_lund_univ.Fs.Ssfs.{do_write, do_truncate}
use edan35_os_lund_univ.Fs.Ssfs.Locate.{entry_of, find-Found}
use edan35_os_lund_univ.Fs.Ssfs.Write.{Refused, place_of, do_write-Returns}
use edan35_os_lund_univ.Fs.Ssfs.Truncate.{do_truncate-Returns}

both_ways : (b : Bool) → b ≡ false → b ≡ true → ⊥
both_ways b p q = cc

in_own_chain :
    (next : ℕ → ℕ) (p : ℕ) (xs : List ℕ) → Leads next 65535 p xs → p < 10 → has p xs ≡ true
in_own_chain next p [] l h = absurd (omega arith)
in_own_chain next p (x ∷ xs) l h = ground (arith, l.0)

module _ (dev : BlockDevice) where
  open dev use {blocks, count}

  -- The saved directory gives the file a first block that is on the free list of the saved block map,
  -- so the disk is consistent with no lists.
  crossed :
      (disk disk' : dev.Disk) (free : List ℕ) (chain : ℕ → List ℕ) (di offset : ℕ) (e : Errno)
      → IsConsistent dev disk free chain
      → di < 16
      → IsUsed (blocks disk 1) di
      → chain di ≡ []
      → free ≢ []
      → Refused dev disk disk' free chain di offset e
      → IsFreeList (blocks disk' 0) free
        × (has (first_block (blocks disk' 1) di) free ≡ true)
        × ((free' : List ℕ) (chain' : ℕ → List ℕ) → ¬ IsConsistent dev disk' free' chain')
  crossed disk disk' free chain di offset e ic h used empty some_free r =
      let links = λ (x : ℕ) (l : x < 10).
        link-Same (blocks disk' 0) (blocks disk 0) x (omega arith)
          (r.others 0 (λ z. omega arith)) in
      let list' : IsFreeList (blocks disk' 0) free = rw (links 0 (omega arith)) (
        Leads-Same (link (blocks disk 0)) (link (blocks disk' 0)) links 0 (link (blocks disk 0) 0)
          free ic.agree.free_list) in
      let is_free = r.first empty some_free in
      (
        list',
        is_free,
        λ free' chain' bad.
            let same : free ≡ free' =
              Leads-unique (link (blocks disk' 0)) 0 (link (blocks disk' 0) 0) free free'
                (inr (omega arith)) list' bad.agree.free_list in
            let range =
              Leads-mem (link (blocks disk' 0)) 0 (link (blocks disk' 0) 0)
                (first_block (blocks disk' 1) di) free list' is_free in
            let in_chain =
              in_own_chain (link (blocks disk' 0)) (first_block (blocks disk' 1) di) (chain' di)
                (bad.agree.file di h (λ z. used (sym r.used ∙ z))) range.1 in
            both_ways (has (first_block (blocks disk' 1) di) free')
              (bad.agree.apart_free di (first_block (blocks disk' 1) di) h in_chain)
              (subst (λ l. has (first_block (blocks disk' 1) di) l ≡ true) same is_free),
      )

  -- A write of at least one byte, which ends below 2^64, to an empty file that takes the file's first
  -- block off the free list and then finds too few blocks for its offset answers ENOSPC: the
  -- directory is saved with that first block, the block map, where the block is still on the free
  -- list, is not. On the disk the file, which is in use, then has a free block for its first one, and
  -- no lists of free blocks and of chains make the disk consistent.
  pub do_write-not-IsConsistent :
      (garbage : Block) (path : List ℕ) (buffer : Block) (size offset : ℕ) (c : Cache dev) (di : ℕ)
      (free : List ℕ) (chain : ℕ → List ℕ)
      → IsConsistent dev c.disk free chain
      → IsText path
      → entry_of dev c path ≡ some di
      → 0 < size
      → offset + size < 0x1_0000_0000_0000_0000
      → chain di ≡ []
      → free ≢ []
      → length free ≤ place_of dev offset
      → (c' : Cache dev) × (do_write dev garbage path buffer size offset c ≡ error enospc c')
        × IsFreeList (blocks c'.disk 0) free
        × IsUsed (blocks c'.disk 1) di
        × (has (first_block (blocks c'.disk 1) di) free ≡ true)
        × ((free' : List ℕ) (chain' : ℕ → List ℕ) → ¬ IsConsistent dev c'.disk free' chain')
  do_write-not-IsConsistent garbage path buffer size offset c di free chain ic text found pos fits
        empty some_free few =
      let f = find-Found dev c path di ic text found in
      let (e, c', failed, r) =
        refuses
          (do_write-Returns dev garbage path buffer size offset c di free chain ic text found pos
            fits)
          (λ n s w. omega (arith, w.1.inside, w.1.total, few, ap length empty)) in
      let both =
        crossed c.disk c'.disk free chain di offset e ic f.in_range f.used empty some_free r in
      (
        c',
        failed ∙ ap (λ k. error k c') r.errno,
        both.0,
        λ z. f.used (sym r.used ∙ z),
        both.1,
        both.2,
      )

  -- Truncation leaks: a block of the file is afterwards neither free nor in a chain of any file.
  pub do_truncate_leaks :
      (path : List ℕ) (offset : ℕ) (c : Cache dev) (di x : ℕ) (free : List ℕ) (chain : ℕ → List ℕ)
      → IsConsistent dev c.disk free chain
      → IsText path
      → entry_of dev c path ≡ some di
      → has x (chain di) ≡ true
      → (c' : Cache dev) × (chain' : ℕ → List ℕ) × (do_truncate dev path offset c ≡ ok 0 c')
        × IsConsistent dev c'.disk free chain'
        × (has x free ≡ false)
        × ((k : ℕ) → k < 16 → has x (chain' k) ≡ false)
  do_truncate_leaks path offset c di x free chain ic text found i =
      let f = find-Found dev c path di ic text found in
      let (c', done, t) = do_truncate-Returns dev path offset c di free chain ic text found in
      (
        c',
        update chain di [],
        done,
        t.consistent,
        ic.agree.apart_free di x f.in_range i,
        λ k h. ground (arith, ic.agree.apart di k x f.in_range h),
      )
