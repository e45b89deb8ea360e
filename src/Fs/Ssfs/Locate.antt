-- ===== src/Fs/Ssfs/Locate.antt =====
-- What the handlers have at hand once they have loaded the directory and found the entry of a path.
use edan35_os_lund_univ.Common.{
  ℕ, ◌<◌, ◌≡◌, sym, ◌∙◌, List, Option, none, some, arith, ap, subst, take, ◌*◌, [], ◌∷◌,
}
use edan35_os_lund_univ.Fs.Bytes.{Same}
use edan35_os_lund_univ.Fs.Device.{BlockDevice}
use edan35_os_lund_univ.Fs.Run.{ok, error, enoent}
use edan35_os_lund_univ.Fs.Text.{IsText, tail_bytes}
use edan35_os_lund_univ.Fs.Support.{Cache, find_dir_entry, load_directory, load_blockmap}
use edan35_os_lund_univ.Fs.Support.Cached
use edan35_os_lund_univ.Fs.Support.Cached.{find_dir_entry-Same}
use edan35_os_lund_univ.Fs.Support.Lookup.{IsUsed, entry_name, Finds, find_dir_entry-Finds}
use edan35_os_lund_univ.Fs.Consistent.{Consistent, IsConsistent, Consistent-Same}
use edan35_os_lund_univ.Fs.Ssfs.{locate}

module _ (dev : BlockDevice) (c : Cache dev) where
  open dev use {blocks, count}

  -- The entry of a path on the disk.
  abbrev pub entry_of : List ℕ → Option ℕ
  entry_of path = find_dir_entry (tail_bytes path) (blocks c.disk 1)

  loaded_find :
      (path : List ℕ)
      → 1 < count c.disk
      → find_dir_entry (tail_bytes path) (load_directory dev c).bdir ≡ entry_of path
  loaded_find path h =
      find_dir_entry-Same (tail_bytes path) _ _ (Cached.load_directory-bdir dev c h)

  pub locate-some :
      (path : List ℕ) (di : ℕ)
      → 1 < count c.disk
      → entry_of path ≡ some di
      → locate dev path c ≡ ok di (load_directory dev c)
  unfolding locate
  locate-some path di h e = rw (loaded_find path h ∙ e, locate)

  pub locate-none :
      (path : List ℕ)
      → 1 < count c.disk
      → entry_of path ≡ none
      → locate dev path c ≡ error enoent (load_directory dev c)
  unfolding locate
  locate-none path h e = rw (loaded_find path h ∙ e, locate)

  -- Both blocks are in memory.
  abbrev pub both_loaded : Cache dev
  both_loaded = load_blockmap dev (load_directory dev c)

  pub both_loaded-blocks : blocks both_loaded.disk ≡ blocks c.disk
  both_loaded-blocks =
      Cached.load_blockmap-blocks dev (load_directory dev c) ∙ Cached.load_directory-blocks dev c

  pub both_loaded-count : count both_loaded.disk ≡ count c.disk
  both_loaded-count =
      Cached.load_blockmap-count dev (load_directory dev c) ∙ Cached.load_directory-count dev c

  pub both_loaded-bdir : 1 < count c.disk → Same both_loaded.bdir (blocks c.disk 1)
  both_loaded-bdir h =
      rw (Cached.load_blockmap-bdir dev (load_directory dev c)) (Cached.load_directory-bdir dev c h)

  pub both_loaded-bmap : 1 < count c.disk → Same both_loaded.bmap (blocks c.disk 0)
  both_loaded-bmap h j l =
      Cached.load_blockmap-bmap dev (load_directory dev c)
        (rw (Cached.load_directory-count dev c) (omega arith)) j l
      ∙ ap (λ b. b 0 j) (Cached.load_directory-blocks dev c)

pub IsText-tail : (s : List ℕ) → IsText s → IsText (tail_bytes s)
IsText-tail [] t = tt
IsText-tail (c ∷ s) t = t.1

module _ (dev : BlockDevice) (c : Cache dev) (path : List ℕ) (di : ℕ) where
  open dev use {blocks, count}

  -- What is known of the entry that was found.
  pub record Found (free : List ℕ) (chain : ℕ → List ℕ) : Type 0 where
    pub in_range : di < 16
    pub used : IsUsed (blocks c.disk 1) di
    pub name : entry_name (blocks c.disk 1) di ≡ take 12 (tail_bytes path)
    pub consistent : Consistent (both_loaded dev c).bdir (both_loaded dev c).bmap free chain
    pub used_loaded : IsUsed (both_loaded dev c).bdir di

  pub find-Found :
      {free : List ℕ} {chain : ℕ → List ℕ}
      → IsConsistent dev c.disk free chain
      → IsText path
      → entry_of dev c path ≡ some di
      → Found free chain
  find-Found {free} {chain} ic text found =
      let f : Finds (take 12 (tail_bytes path)) (blocks c.disk 1) (some di) =
        subst (Finds (take 12 (tail_bytes path)) (blocks c.disk 1)) found
          (find_dir_entry-Finds (tail_bytes path) (blocks c.disk 1) (IsText-tail path text)) in
      let two : 1 < count c.disk = omega (arith, ic.room) in
      record {
        in_range = f.0;
        used = f.1;
        name = f.2;
        consistent =
            Consistent-Same (blocks c.disk 1) (both_loaded dev c).bdir (blocks c.disk 0)
              (both_loaded dev c).bmap free chain (both_loaded-bdir dev c two)
              (both_loaded-bmap dev c two) ic.agree;
        used_loaded =
            λ z. f.1 (sym (both_loaded-bdir dev c two (32 * di) (omega (arith, f.0))) ∙ z);
      }
