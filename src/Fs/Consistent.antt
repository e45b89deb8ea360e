-- ===== src/Fs/Consistent.antt =====
-- When a directory block and a block map fit together: the invariant of the file system.
pub mod Grows
use edan35_os_lund_univ.Common.{
  ℕ, suc, ◌+◌, ◌*◌, ◌≤◌, ◌<◌, ◌≡◌, ◌≢◌, refl, sym, ◌∙◌, ap, ◌⊎◌, inl, inr, Bool, true, false, List,
  [], ◌∷◌, ◌++◌, arith, ◌==◌, has, if◌then◌else◌, Bool-cases, length,
}
use edan35_os_lund_univ.Fs.Bytes.{Block, Same}
use edan35_os_lund_univ.Fs.Device.{BlockDevice}
use edan35_os_lund_univ.Fs.Layout.{link, link-Same, first_block, size_bytes}
use edan35_os_lund_univ.Fs.Layout.Entry.{SameEntry, OnlyEntry, OnlyEntry-SameEntry, Same-SameEntry}
use edan35_os_lund_univ.Fs.Chain.{Leads, Leads-frame, Leads-mem, Leads-bounded}
use edan35_os_lund_univ.Fs.Support.FreeList.{IsFreeList}
use edan35_os_lund_univ.Fs.Support.Lookup.{IsUsed}

-- `free` are the free blocks in the order of the free list, `chain i` the blocks of the file of
-- entry i: each a well-formed chain of data blocks, no block in two of them.
pub record Consistent (d m : Block) (free : List ℕ) (chain : ℕ → List ℕ) : Type 0 where
  pub free_list : IsFreeList m free
  pub file : (i : ℕ) → i < 16 → IsUsed d i → Leads (link m) 65535 (first_block d i) (chain i)
  pub unused : (i : ℕ) → i < 16 → d (32 * i) ≡ 0 → chain i ≡ []
  -- a file without blocks is empty
  pub sized : (i : ℕ) → i < 16 → IsUsed d i → chain i ≡ [] → size_bytes d i ≡ 0
  pub apart_free : (i x : ℕ) → i < 16 → has x (chain i) ≡ true → has x free ≡ false
  pub apart :
      (i j x : ℕ) → i < 16 → j < 16 → i ≢ j → has x (chain i) ≡ true → has x (chain j) ≡ false

-- The same of what a disk holds in blocks 1 and 0.
pub record IsConsistent (dev : BlockDevice) (disk : dev.Disk) (free : List ℕ) (chain : ℕ → List ℕ)
    : Type 0 where
  pub room : 10 ≤ dev.count disk
  pub agree : Consistent (dev.blocks disk 1) (dev.blocks disk 0) free chain

module _ (next next' : ℕ → ℕ) (same : (x : ℕ) → x < 10 → next' x ≡ next x) where
  pub Leads-Same : (stop p : ℕ) (xs : List ℕ) → Leads next stop p xs → Leads next' stop p xs
  Leads-Same stop p xs l =
      Leads-frame next stop next' p xs (λ x i. same x (Leads-mem next stop p x xs l i).1) l

-- Consistency depends on the 512 bytes of the two blocks alone.
pub Consistent-Same :
    (d d' m m' : Block) (free : List ℕ) (chain : ℕ → List ℕ)
    → Same d' d
    → Same m' m
    → Consistent d m free chain
    → Consistent d' m' free chain
Consistent-Same d d' m m' free chain sd sm c = record {
  free_list =
      rw (links 0 (omega arith))
        (Leads-Same (link m) (link m') links 0 (link m 0) free c.free_list);
  file = λ i h u. rw (SameEntry.first_block (entry i h)) (
      Leads-Same (link m) (link m') links 65535 (first_block d i) (chain i)
        (c.file i h (λ e. u (SameEntry.used (entry i h) ∙ e))));
  unused = λ i h e. c.unused i h (sym (SameEntry.used (entry i h)) ∙ e);
  sized = λ i h u e.
      SameEntry.size_bytes (entry i h) ∙ c.sized i h (λ z. u (SameEntry.used (entry i h) ∙ z)) e;
  apart_free = c.apart_free;
  apart = c.apart;
}
  where
    links : (x : ℕ) → x < 10 → link m' x ≡ link m x
    links x h = link-Same m' m x (omega arith) sm

    entry : (i : ℕ) → i < 16 → SameEntry d d' i
    entry i h = Same-SameEntry d d' i sd h
