-- ===== src/Fs/Ssfs/Reachable/Sound.antt =====
-- What each handler of ssfs.c leaves of a consistent disk.
use edan35_os_lund_univ.Common.{
  ℕ, ◌+◌, ◌%◌, ◌<◌, ◌≡◌, inl, inr, refl, sym, ◌∙◌, subst, List, [], none, some, arith, Bool-cases,
  Option-cases,
}
use edan35_os_lund_univ.Common.Words.{u32_mod}
use edan35_os_lund_univ.Fs.Bytes.{Block}
use edan35_os_lund_univ.Fs.Device.{BlockDevice}
use edan35_os_lund_univ.Fs.Run.{
  Run, ok, error, fault, enoent, enfile, Errno, Returns, returns, fails,
}
use edan35_os_lund_univ.Fs.Layout.{first_block}
use edan35_os_lund_univ.Fs.Text.{IsText, tail_bytes}
use edan35_os_lund_univ.Fs.Support.{Cache, load_directory, first_empty_dir_entry}
use edan35_os_lund_univ.Fs.Support.Cached.{load_directory-blocks, load_directory-count, saved}
use edan35_os_lund_univ.Fs.Consistent.{IsConsistent}
use edan35_os_lund_univ.Fs.Consistent.Grows.{update}
use edan35_os_lund_univ.Fs.Ssfs.{
  Stat, Caller, is_root, new_entry, do_getattr, do_readdir, do_read, do_write, do_create,
  do_truncate,
}
use edan35_os_lund_univ.Fs.Ssfs.Locate.{entry_of, locate-some, locate-none}
use edan35_os_lund_univ.Fs.Ssfs.Write.{do_write-Returns, Written, Refused}
use edan35_os_lund_univ.Fs.Ssfs.Create.{do_create-Returns, Created}
use edan35_os_lund_univ.Fs.Ssfs.Truncate.{do_truncate-Returns}
use edan35_os_lund_univ.Fs.Ssfs.Read.{after_read, do_read-ok}

module _ {S A : Type 0} {P : A → S → Type 0} {Q : Errno → S → Type 0} where
  at_ok : {a : A} {s : S} → Returns P Q (ok a s) → P a s
  at_ok (returns p) = p

  at_error : {e : Errno} {s : S} → Returns P Q (error e s) → Q e s
  at_error (fails q) = q

-- Which state a run leaves, whether it returns or reports an error.
abbrev pub Leaves : {S A : Type 0} → Run S A → S → Type 0
Leaves (ok a s) s' = s ≡ s'
Leaves (error e s) s' = s ≡ s'
Leaves fault s' = ⊥

module _ (dev : BlockDevice) where
  open dev use {blocks, count}

  -- There are free blocks and chains with which the disk is consistent.
  abbrev pub IsSound : dev.Disk → Type 0
  IsSound disk = (free : List ℕ) × (chain : ℕ → List ℕ) × IsConsistent dev disk free chain

  IsSound-same :
      (d d' : dev.Disk) → blocks d' ≡ blocks d → count d' ≡ count d → IsSound d → IsSound d'
  IsSound-same d d' eb ec (free, chain, ic) =
      (free, chain, record { room = rw ec ic.room; agree = rw eb ic.agree })

  loaded-IsSound : (c : Cache dev) → IsSound c.disk → IsSound (load_directory dev c).disk
  loaded-IsSound c s =
      IsSound-same c.disk (load_directory dev c).disk (load_directory-blocks dev c)
        (load_directory-count dev c) s

  left_loaded : (c c' : Cache dev) → IsSound c.disk → load_directory dev c ≡ c' → IsSound c'.disk
  left_loaded c c' s e = subst (λ x. IsSound x.disk) e (loaded-IsSound c s)

  two_blocks : (disk : dev.Disk) → IsSound disk → 1 < count disk
  two_blocks disk (free, chain, ic) = let room = ic.room in omega (arith, room)

  do_write-none :
      (garbage : Block) (path : List ℕ) (buffer : Block) (size offset : ℕ) (c : Cache dev)
      → 1 < count c.disk
      → entry_of dev c path ≡ none
      → do_write dev garbage path buffer size offset c ≡ error enoent (load_directory dev c)
  unfolding do_write
  do_write-none garbage path buffer size offset c two e =
      rw (do_write, locate-none dev c path two e) refl

  do_truncate-none :
      (path : List ℕ) (offset : ℕ) (c : Cache dev)
      → 1 < count c.disk
      → entry_of dev c path ≡ none
      → do_truncate dev path offset c ≡ error enoent (load_directory dev c)
  unfolding do_truncate
  do_truncate-none path offset c two e = rw (do_truncate, locate-none dev c path two e) refl

  do_read-none :
      (garbage : Block) (path : List ℕ) (buffer : Block) (size offset : ℕ) (c : Cache dev)
      → 1 < count c.disk
      → entry_of dev c path ≡ none
      → do_read dev garbage path buffer size offset c ≡ error enoent (load_directory dev c)
  unfolding do_read
  do_read-none garbage path buffer size offset c two e =
      rw (do_read, locate-none dev c path two e) refl

  pub wrote-IsSound :
      (garbage : Block) (path : List ℕ) (buffer : Block) (size offset n : ℕ) (c c' : Cache dev)
      → IsText path
      → 0 < size
      → offset + size < 0x1_0000_0000_0000_0000
      → do_write dev garbage path buffer size offset c ≡ ok n c'
      → IsSound c.disk
      → IsSound c'.disk
  wrote-IsSound garbage path buffer size offset n c c' text pos fits run (free, chain, ic) =
      let two = two_blocks c.disk (free, chain, ic) in
      elim (Option-cases (entry_of dev c path)) [
        | inl missing ↦
            absurd (
              let e = sym (do_write-none garbage path buffer size offset c two missing) ∙ run in cc)
        | inr (di, found) ↦
            let w = at_ok (
              subst
                (Returns
                  (λ n c'.
                    (n ≡ size % u32_mod)
                    × Written dev c.disk c'.disk free chain di buffer size offset)
                  _)
                run
                (do_write-Returns dev garbage path buffer size offset c di free chain ic text found
                  pos fits)) in
            (w.1.free', update chain di w.1.xs', w.1.consistent)
      ]

  pub write_not_found-IsSound :
      (garbage : Block) (path : List ℕ) (buffer : Block) (size offset : ℕ) (c c' : Cache dev)
      → IsText path
      → 0 < size
      → offset + size < 0x1_0000_0000_0000_0000
      → do_write dev garbage path buffer size offset c ≡ error enoent c'
      → IsSound c.disk
      → IsSound c'.disk
  write_not_found-IsSound garbage path buffer size offset c c' text pos fits run (free, chain, ic) =
      let two = two_blocks c.disk (free, chain, ic) in
      elim (Option-cases (entry_of dev c path)) [
        | inl missing ↦
            left_loaded c c' (free, chain, ic)
              (let e = sym (do_write-none garbage path buffer size offset c two missing) ∙ run in
                cc)
        | inr (di, found) ↦
            let w = at_error (
              subst (Returns _ (λ e c'. Refused dev c.disk c'.disk free chain di offset e)) run (
                do_write-Returns dev garbage path buffer size offset c di free chain ic text found
                  pos fits)) in
            absurd (let e = w.errno in cc)
      ]

  do_create-none :
      (path : List ℕ) (m : ℕ) (c : Cache dev)
      → first_empty_dir_entry (load_directory dev c).bdir ≡ none
      → do_create dev path m c ≡ error enfile (load_directory dev c)
  unfolding do_create
  do_create-none path m c e = rw (do_create, e) refl

  do_create-some :
      (path : List ℕ) (m : ℕ) (c : Cache dev) (ni : ℕ)
      → first_empty_dir_entry (load_directory dev c).bdir ≡ some ni
      → (c' : Cache dev) × (do_create dev path m c ≡ ok 0 c')
  unfolding do_create
  do_create-some path m c ni e = (
    saved dev (load_directory dev c) (new_entry (load_directory dev c).bdir ni (tail_bytes path) m),
    rw (do_create, e) refl,
  )

  pub created-IsSound :
      (path : List ℕ) (m : ℕ) (c c' : Cache dev)
      → IsText path
      → m < 0x1_0000_0000
      → Leaves (do_create dev path m c) c'
      → IsSound c.disk
      → IsSound c'.disk
  created-IsSound path m c c' text word left (free, chain, ic) =
      elim (Option-cases (first_empty_dir_entry (load_directory dev c).bdir)) [
        | inl full ↦
            left_loaded c c' (free, chain, ic)
              (subst (λ r. Leaves r c') (do_create-none path m c full) left)
        | inr (ni, found) ↦
            let (c1, run) = do_create-some path m c ni found in
            let w = at_ok (
              subst
                (Returns
                  (λ n c'. (n ≡ 0) × Created dev c.disk c'.disk free chain (tail_bytes path) m) _)
                run (do_create-Returns dev path m c free chain ic text word)) in
            let e : c1 ≡ c' = subst (λ r. Leaves r c') run left in
            subst (λ x. IsSound x.disk) e (free, update chain w.1.entry [], w.1.consistent)
      ]

  pub truncated-IsSound :
      (path : List ℕ) (offset : ℕ) (c c' : Cache dev)
      → IsText path
      → Leaves (do_truncate dev path offset c) c'
      → IsSound c.disk
      → IsSound c'.disk
  truncated-IsSound path offset c c' text left (free, chain, ic) =
      let two = two_blocks c.disk (free, chain, ic) in
      elim (Option-cases (entry_of dev c path)) [
        | inl missing ↦
            left_loaded c c' (free, chain, ic)
              (subst (λ r. Leaves r c') (do_truncate-none path offset c two missing) left)
        | inr (di, found) ↦
            let (c1, run, t) = do_truncate-Returns dev path offset c di free chain ic text found in
            let e : c1 ≡ c' = subst (λ r. Leaves r c') run left in
            subst (λ x. IsSound x.disk) e (free, update chain di [], t.consistent)
      ]

  pub did_read-IsSound :
      (garbage : Block) (path : List ℕ) (buffer : Block) (size offset : ℕ) (c c' : Cache dev)
      → Leaves (do_read dev garbage path buffer size offset c) c'
      → IsSound c.disk
      → IsSound c'.disk
  did_read-IsSound garbage path buffer size offset c c' left s =
      let two = two_blocks c.disk s in
      elim (Option-cases (entry_of dev c path)) [
        | inl missing ↦ left_loaded c c' s (
            subst (λ r. Leaves r c') (do_read-none garbage path buffer size offset c two missing)
              left)
        | inr (di, found) ↦
            let l = load_directory dev c in
            let e : after_read dev garbage c di ≡ c' =
              subst (λ r. Leaves r c')
                (do_read-ok dev garbage path buffer size offset c di two found) left in
            subst (λ x. IsSound x.disk) e
              (IsSound-same l.disk (after_read dev garbage c di).disk
                (dev.read_block-blocks l.disk (first_block l.bdir di) garbage)
                (dev.read_block-count l.disk (first_block l.bdir di) garbage) (loaded-IsSound c s))
      ]

  pub inspected-IsSound :
      (u : Caller) (path : List ℕ) (st : Stat) (c c' : Cache dev)
      → Leaves (do_getattr dev u path st c) c'
      → IsSound c.disk
      → IsSound c'.disk
  unfolding do_getattr
  inspected-IsSound u path st c c' left s =
      let two = two_blocks c.disk s in
      elim (Bool-cases (is_root path)) [
        | inl root ↦
            let e : c ≡ c' = rw (do_getattr, root) at left in subst (λ x. IsSound x.disk) e s
        | inr other ↦ elim (Option-cases (entry_of dev c path)) [
          | inl missing ↦
              left_loaded c c' s
                (rw (do_getattr, other, locate-none dev c path two missing) at left)
          | inr (di, found) ↦
              left_loaded c c' s
                (rw (do_getattr, other, locate-some dev c path di two found) at left)
        ]
      ]

  pub listed_names-IsSound :
      (rootb : Block) (path : List ℕ) (c c' : Cache dev)
      → (do_readdir dev rootb path c).0 ≡ c'
      → IsSound c.disk
      → IsSound c'.disk
  unfolding do_readdir
  listed_names-IsSound rootb path c c' left s = elim (Bool-cases (is_root path)) [
    | inl root ↦
        let e : record c { disk = (dev.read_block c.disk 1 rootb).0 } ≡ c' =
          rw (do_readdir, root) at left in
        subst (λ x. IsSound x.disk) e
          (IsSound-same c.disk (dev.read_block c.disk 1 rootb).0
            (dev.read_block-blocks c.disk 1 rootb) (dev.read_block-count c.disk 1 rootb) s)
    | inr other ↦ let e : c ≡ c' = rw (do_readdir, other) at left in subst (λ x. IsSound x.disk) e s
  ]
