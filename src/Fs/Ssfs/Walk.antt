-- ===== src/Fs/Ssfs/Walk.antt =====
-- The loop of do_write that follows the chain of a file to the block of the write, and extends the
-- chain where it ends too early.
use edan35_os_lund_univ.Common.{
  ℕ, zero, suc, ◌+◌, ◌≤◌, ◌<◌, ◌≡◌, refl, sym, ◌∙◌, inl, inr, true, false, List, [], ◌∷◌, ◌++◌,
  arith, ◌==◌, has, length, get_or, Bool-cases, length-append, get_or-append, get_or-append_last,
  get_or_beyond, has-get_or, subst, lt→ltb, ltb, ltb→lt,
}
use edan35_os_lund_univ.Fs.Bytes.{Block}
use edan35_os_lund_univ.Fs.Device.{BlockDevice}
use edan35_os_lund_univ.Fs.Run
use edan35_os_lund_univ.Fs.Run.{Run, ok, error, fault, Returns, returns, fails, Errno, enospc}
use edan35_os_lund_univ.Fs.Layout.{link}
use edan35_os_lund_univ.Fs.Chain.{Leads, Leads-get_or, Leads-mem}
use edan35_os_lund_univ.Fs.Support.{Cache}
use edan35_os_lund_univ.Fs.Support.FreeList.{IsFreeList, alloc_block-nil, alloc_block-cons}
use edan35_os_lund_univ.Fs.Consistent.Grows.{Grows, Grows-refl, Grows-trans, Grows-last}
use edan35_os_lund_univ.Fs.Ssfs.{follow, walk, append_block, link_block}

-- The map holds the free list and, apart from it, the chain of a file.
pub record Owns (m : Block) (free : List ℕ) (p : ℕ) (xs : List ℕ) : Type 0 where
  pub list : IsFreeList m free
  pub chain : Leads (link m) 65535 p xs
  pub apart : (x : ℕ) → has x xs ≡ true → has x free ≡ false

pub Grows-Owns :
    {m m' : Block} {free free' : List ℕ} {p p' : ℕ} {xs xs' : List ℕ}
    → Grows m m' free free' p p' xs xs'
    → Owns m' free' p' xs'
Grows-Owns g = record { list = g.list; chain = g.chain; apart = g.apart }

module _ (dev : BlockDevice) where
  -- The walk has come to place i of the chain, which has grown to xs' where it was too short.
  pub record Walked (c c' : Cache dev) (free : List ℕ) (p : ℕ) (xs : List ℕ) (i crtblk : ℕ)
      : Type 0 where
    pub free' : List ℕ
    pub xs' : List ℕ
    pub grows : Grows c.bmap c'.bmap free free' p p xs xs'
    pub disk : c'.disk ≡ c.disk
    pub bdir : c'.bdir ≡ c.bdir
    pub within : i < length xs'
    pub place : get_or xs' i 65535 ≡ crtblk
    pub kept : (k : ℕ) → k < length xs → get_or xs' k 65535 ≡ get_or xs k 65535
    pub longer : length xs ≤ length xs'
    pub total : length free' + length xs' ≡ length free + length xs

  -- There are not enough blocks for place i.
  pub record Exhausted (c c' : Cache dev) (free : List ℕ) (xs : List ℕ) (i : ℕ) (e : Errno)
      : Type 0 where
    pub errno : e ≡ enospc
    pub disk : c'.disk ≡ c.disk
    pub bdir : c'.bdir ≡ c.bdir
    pub full : length free + length xs ≤ i

  -- The walk stands still.
  stay :
      (i crtblk : ℕ) (c : Cache dev) (free : List ℕ) (p : ℕ) (xs : List ℕ)
      → Owns c.bmap free p xs
      → i < length xs
      → get_or xs i 65535 ≡ crtblk
      → Walked c c free p xs i crtblk
  stay i crtblk c free p xs o h at = record {
    free' = free;
    xs' = xs;
    grows = Grows-refl c.bmap free p xs o.list o.chain o.apart;
    disk = refl;
    bdir = refl;
    within = h;
    place = at;
    kept = λ k _. refl;
    longer = omega arith;
    total = refl;
  }

  append_block-Returns :
      (c : Cache dev) (free : List ℕ) (p : ℕ) (xs : List ℕ) (i crtblk : ℕ)
      → Owns c.bmap free p xs
      → get_or xs i 65535 ≡ crtblk
      → suc i ≡ length xs
      → Returns
          (λ nblk c'. Walked c c' free p xs (suc i) nblk)
          (λ e c'. Exhausted c c' free xs (suc i) e)
          (append_block dev crtblk c)
  unfolding append_block link_block
  append_block-Returns c [] p xs i crtblk o at end =
      rw (alloc_block-nil dev c o.list)
        (fails (record { errno = refl; disk = refl; bdir = refl; full = omega arith }))
  append_block-Returns c (x ∷ free) p xs i crtblk o at end =
      let grown =
        Grows-last c.bmap x free p crtblk xs o.list o.chain o.apart
          (subst (λ k. has k xs ≡ true) at (has-get_or xs i 65535 (omega arith)))
          (subst (λ k. link c.bmap k ≡ 65535) at
            (Leads-get_or (link c.bmap) 65535 p i xs o.chain (omega arith)
              ∙ get_or_beyond xs (suc i) 65535 (omega arith))) in
      let small : (x == 65535) ≡ false = ground (arith, o.list) in
      rw (alloc_block-cons dev c x free o.list, small)
        (returns (record {
          free' = free;
          xs' = xs ++ x ∷ [];
          grows = grown;
          disk = refl;
          bdir = refl;
          within = omega (arith, length-append xs (x ∷ []));
          place = rw end (get_or-append_last xs x 65535);
          kept = λ k h. get_or-append xs (x ∷ []) k 65535 h;
          longer = omega (arith, length-append xs (x ∷ []));
          total = omega (arith, length-append xs (x ∷ []));
        }))

  -- One round of the loop goes one place on.
  follow-Returns :
      (c : Cache dev) (free : List ℕ) (p : ℕ) (xs : List ℕ) (i crtblk : ℕ)
      → Owns c.bmap free p xs
      → get_or xs i 65535 ≡ crtblk
      → i < length xs
      → Returns
          (λ next c'. Walked c c' free p xs (suc i) next)
          (λ e c'. Exhausted c c' free xs (suc i) e)
          (follow dev crtblk c)
  unfolding follow
  follow-Returns c free p xs i crtblk o at inside =
      let member = subst (λ k. has k xs ≡ true) at (has-get_or xs i 65535 inside) in
      let range = Leads-mem (link c.bmap) 65535 p crtblk xs o.chain member in
      let linked : link c.bmap crtblk ≡ get_or xs (suc i) 65535 =
        subst (λ k. link c.bmap k ≡ get_or xs (suc i) 65535) at
          (Leads-get_or (link c.bmap) 65535 p i xs o.chain inside) in
      rw (lt→ltb crtblk 256 (omega arith)) (elim (Bool-cases (ltb (suc i) (length xs))) [
        | inl more ↦
            let next_in =
              subst (λ k. has k xs ≡ true) (sym linked)
                (has-get_or xs (suc i) 65535 (ltb→lt _ _ more)) in
            let small = Leads-mem (link c.bmap) 65535 p (link c.bmap crtblk) xs o.chain next_in in
            let going : (link c.bmap crtblk == 65535) ≡ false = ground (arith, small) in
            rw going (
              returns
                (stay (suc i) (link c.bmap crtblk) c free p xs o (ltb→lt _ _ more) (sym linked)))
        | inr last ↦
            let end : suc i ≡ length xs = ground arith in
            let ends : (link c.bmap crtblk == 65535) ≡ true =
              ground (arith, get_or_beyond xs (suc i) 65535 (omega arith)) in
            rw ends (append_block-Returns c free p xs i crtblk o at end)
      ])

  Walked-trans :
      {c c' c'' : Cache dev} {free : List ℕ} {p : ℕ} {xs : List ℕ} {i k crtblk last : ℕ}
      (w : Walked c c' free p xs i crtblk)
      → Walked c' c'' w.free' p w.xs' k last
      → Walked c c'' free p xs k last
  Walked-trans {xs} w v = record {
    free' = v.free';
    xs' = v.xs';
    grows = Grows-trans w.grows v.grows;
    disk = v.disk ∙ w.disk;
    bdir = v.bdir ∙ w.bdir;
    within = v.within;
    place = v.place;
    kept = λ j h. v.kept j (omega (arith, w.longer)) ∙ w.kept j h;
    longer = omega (arith, v.longer, w.longer);
    total = omega (arith, v.total, w.total);
  }

  Exhausted-mono :
      {c c' : Cache dev} {free xs : List ℕ} {i k : ℕ} {e : Errno}
      → i ≤ k
      → Exhausted c c' free xs i e
      → Exhausted c c' free xs k e
  Exhausted-mono le x = record {
    errno = x.errno;
    disk = x.disk;
    bdir = x.bdir;
    full = omega (arith, x.full);
  }

  -- The loop ends at the block that is `blkoffs` places on, or says that there are too few blocks.
  pub walk-Returns :
      (blkoffs : ℕ) (c : Cache dev) (free : List ℕ) (p : ℕ) (xs : List ℕ) (i crtblk : ℕ)
      → Owns c.bmap free p xs
      → get_or xs i 65535 ≡ crtblk
      → i < length xs
      → Returns
          (λ last c'. Walked c c' free p xs (i + blkoffs) last)
          (λ e c'. Exhausted c c' free xs (i + blkoffs) e)
          (walk dev blkoffs crtblk c)
  unfolding walk
  walk-Returns zero c free p xs i crtblk o at inside = returns (
      subst (λ k. Walked c c free p xs k crtblk) (omega arith)
        (stay i crtblk c free p xs o inside at))
  walk-Returns (suc n) c free p xs i crtblk o at inside =
      Run.bind (follow-Returns c free p xs i crtblk o at inside)
        (λ e c' x. Exhausted-mono (omega arith) x)
        λ next c' w.
          Run.mono
            (walk-Returns n c' w.free' p w.xs' (suc i) next (Grows-Owns w.grows) w.place w.within)
            (λ last c'' v.
              subst (λ k. Walked c c'' free p xs k last) (omega arith) (Walked-trans w v))
            (λ e c'' x. record {
              errno = x.errno;
              disk = x.disk ∙ w.disk;
              bdir = x.bdir ∙ w.bdir;
              full = omega (arith, x.full, w.total);
            })
