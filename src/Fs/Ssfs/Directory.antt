-- ===== src/Fs/Ssfs/Directory.antt =====
-- do_readdir and do_getattr: the names that are listed are those of which the attributes are found.
pub mod Names
use edan35_os_lund_univ.Common.{
  ℕ, zero, suc, ◌+◌, ◌*◌, ◌≤◌, ◌<◌, ◌≡◌, ◌⊎◌, inl, inr, refl, sym, subst, ◌∙◌, ap, List, [], ◌∷◌,
  none, some, arith, ◌==◌, length, take, drop, false, Bool-cases, le_or_lt, Option-cases,
}
use edan35_os_lund_univ.Fs.Bytes.{Block, Same}
use edan35_os_lund_univ.Fs.Device.{BlockDevice}
use edan35_os_lund_univ.Fs.Run.{Run, ok, error, enoent}
use edan35_os_lund_univ.Fs.Layout.{size_bytes, mode, dir_entry_is_empty}
use edan35_os_lund_univ.Fs.Layout.Entry
use edan35_os_lund_univ.Fs.Layout.Entry.{SameEntry}
use edan35_os_lund_univ.Fs.Text.{IsText, text_at, text_at-cong}
use edan35_os_lund_univ.Fs.Support.{Cache, find_dir_entry, load_directory}
use edan35_os_lund_univ.Fs.Support.Cached.{load_directory-bdir}
use edan35_os_lund_univ.Fs.Support.Lookup.{IsUsed, entry_name, Finds, find_dir_entry-Finds}
use edan35_os_lund_univ.Fs.Ssfs.{
  Stat, Caller, owned_by, is_root, root_path, list_loop, do_getattr, do_readdir,
}
use edan35_os_lund_univ.Fs.Ssfs.Locate.{entry_of, locate-some, locate-none}
use edan35_os_lund_univ.Fs.Ssfs.Directory.Names.{
  Lists, list_loop-Among, Among-list_loop, text_at-short, take_short, take_cut, short_name,
  found-Lists, not_found-Lists, Lists-Same, Among, ShortNames,
}

module _ (dev : BlockDevice) where
  open dev use {blocks, count}

  abbrev pub listed : (rootb : Block) → Cache dev → List (List ℕ)
  listed rootb c = drop 2 (do_readdir dev rootb root_path c).1

  listed-loop :
      (rootb : Block) (c : Cache dev)
      → (b : Block) × (listed rootb c ≡ list_loop 16 b 0)
        × (1 < count c.disk → Same b (blocks c.disk 1))
  unfolding do_readdir is_root
  listed-loop rootb c =
      ((dev.read_block c.disk 1 rootb).1, refl, λ two. dev.read_block-Same c.disk 1 rootb two)

  listed-Lists :
      (rootb : Block) (c : Cache dev) (name : List ℕ)
      → 1 < count c.disk
      → Among name (listed rootb c)
      → (k : ℕ) × Lists name (blocks c.disk 1) k
  listed-Lists rootb c name two m =
      let (b, e, same) = listed-loop rootb c in
      let (k, l) =
        Among-list_loop 16 b 0 name refl (λ j l. absurd (omega arith)) (subst (Among name) e m) in
      (k, Lists-Same b (blocks c.disk 1) name k (same two) l)

  Lists-listed :
      (rootb : Block) (c : Cache dev) (name : List ℕ) (k : ℕ)
      → 1 < count c.disk
      → Lists name (blocks c.disk 1) k
      → Among name (listed rootb c)
  Lists-listed rootb c name k two l =
      let (b, e, same) = listed-loop rootb c in
      subst (Among name) (sym e) (
        list_loop-Among 16 b 0 k name refl (omega arith)
          (Lists-Same (blocks c.disk 1) b name k (λ j h. sym (same two j h)) l))

  -- The result of do_getattr for entry k.
  abbrev attributes : Caller → Stat → Cache dev → ℕ → Stat
  attributes u st c k = record (owned_by u st) {
    st_nlink = 1;
    st_size = size_bytes (load_directory dev c).bdir k;
    st_mode = mode (load_directory dev c).bdir k;
  }

  do_getattr-some :
      (u : Caller) (x : ℕ) (s : List ℕ) (st : Stat) (c : Cache dev) (k : ℕ)
      → 1 < count c.disk
      → entry_of dev c (b'/' ∷ x ∷ s) ≡ some k
      → do_getattr dev u (b'/' ∷ x ∷ s) st c ≡ ok (attributes u st c k) (load_directory dev c)
  unfolding do_getattr is_root
  do_getattr-some u x s st c k two e =
      rw (do_getattr, locate-some dev c (b'/' ∷ x ∷ s) k two e) refl

  do_getattr-none :
      (u : Caller) (x : ℕ) (s : List ℕ) (st : Stat) (c : Cache dev)
      → 1 < count c.disk
      → entry_of dev c (b'/' ∷ x ∷ s) ≡ none
      → do_getattr dev u (b'/' ∷ x ∷ s) st c ≡ error enoent (load_directory dev c)
  unfolding do_getattr is_root
  do_getattr-none u x s st c two e = rw (do_getattr, locate-none dev c (b'/' ∷ x ∷ s) two e) refl

  -- What do_getattr says of a path, next to whether its name is listed.
  pub data Answers (name : List ℕ) (names : List (List ℕ)) (c : Cache dev)
      : Run (Cache dev) Stat → Type 0 where
    found :
        {st : Stat} {c' : Cache dev}
        → Among name names
        → (k : ℕ) → entry_name (blocks c.disk 1) k ≡ name
        → st.st_size ≡ size_bytes (blocks c.disk 1) k
        → st.st_mode ≡ mode (blocks c.disk 1) k
        → Answers name names c (ok st c')
    missing : {c' : Cache dev} → ¬ (Among name names) → Answers name names c (error enoent c')

  -- On a disk with its two first blocks, where every name in use has at most eleven bytes, do_readdir
  -- of the root and do_getattr agree: behind "." and ".." do_readdir lists exactly the names of which
  -- do_getattr finds the attributes, which are the size and the mode in an entry of that name; of
  -- any other name do_getattr reports ENOENT.
  pub do_getattr-do_readdir :
      (u : Caller) (rootb : Block) (x : ℕ) (s : List ℕ) (st : Stat) (c : Cache dev)
      → 1 < count c.disk
      → IsText (x ∷ s)
      → ShortNames (blocks c.disk 1)
      → Answers (x ∷ s) (listed rootb c) c (do_getattr dev u (b'/' ∷ x ∷ s) st c)
  do_getattr-do_readdir u rootb x s st c two text short =
      let d = blocks c.disk 1 in
      let f : Finds (take 12 (x ∷ s)) d (find_dir_entry (x ∷ s) d) =
        find_dir_entry-Finds (x ∷ s) d text in
      elim (Option-cases (entry_of dev c (b'/' ∷ x ∷ s))) [
        | inl none_found ↦
            let g = subst (Finds (take 12 (x ∷ s)) d) none_found f in
            rw (do_getattr-none u x s st c two none_found) (
              missing (λ m.
                let (k, l) = listed-Lists rootb c (x ∷ s) two m in
                not_found-Lists d (x ∷ s) k short g l))
        | inr (k, some_found) ↦
            let g : Finds (take 12 (x ∷ s)) d (some k) =
              subst (Finds (take 12 (x ∷ s)) d) some_found f in
            let l = found-Lists d (x ∷ s) k short g in
            let entry =
              Entry.Same-SameEntry d (load_directory dev c).bdir k (load_directory-bdir dev c two)
                l.0 in
            rw (do_getattr-some u x s st c k two some_found) (
              found (Lists-listed rootb c (x ∷ s) k two l) k
                (sym (short_name d k short l.0 (l.1 k (omega arith))) ∙ l.2)
                (SameEntry.size_bytes entry) (SameEntry.mode entry))
      ]
