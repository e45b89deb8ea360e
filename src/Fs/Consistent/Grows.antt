-- ===== src/Fs/Consistent/Grows.antt =====
-- How the chain of one file grows out of the free list, and that the other files do not notice.
use edan35_os_lund_univ.Common.{
  ℕ, ◌*◌, ◌<◌, ◌≡◌, ◌≢◌, refl, sym, ◌∙◌, ◌⊎◌, inl, inr, true, false, List, [], ◌∷◌, ◌++◌, arith,
  ◌==◌, has, has-append, if◌then◌else◌, Bool-cases, subst,
}
use edan35_os_lund_univ.Fs.Bytes.{Block}
use edan35_os_lund_univ.Fs.Layout.{link, set_link, link-set_link_if, first_block, size_bytes}
use edan35_os_lund_univ.Fs.Layout.Entry.{SameEntry, OnlyEntry, OnlyEntry-SameEntry}
use edan35_os_lund_univ.Fs.Chain.{Leads, Leads-frame, Leads-mem, Leads-bounded, Leads-extend}
use edan35_os_lund_univ.Fs.Support.FreeList.{IsFreeList, taken, link-taken, taken-IsFreeList}
use edan35_os_lund_univ.Fs.Support.Lookup.{IsUsed}
use edan35_os_lund_univ.Fs.Consistent.{Consistent}

-- From the map m to m' the chain xs, which starts at p, becomes xs', which starts at p', with
-- blocks off the free list; no link outside of the two lists changes.
pub record Grows (m m' : Block) (free free' : List ℕ) (p p' : ℕ) (xs xs' : List ℕ) : Type 0 where
  pub list : IsFreeList m' free'
  pub chain : Leads (link m') 65535 p' xs'
  pub grown : (x : ℕ) → has x xs' ≡ true → (has x xs ≡ true) ⊎ (has x free ≡ true)
  pub shrunk : (x : ℕ) → has x free' ≡ true → has x free ≡ true
  pub apart : (x : ℕ) → has x xs' ≡ true → has x free' ≡ false
  pub frame : (x : ℕ) → has x xs ≡ false → has x free ≡ false → x ≢ 0 → link m' x ≡ link m x

pub Grows-refl :
    (m : Block) (free : List ℕ) (p : ℕ) (xs : List ℕ)
    → IsFreeList m free
    → Leads (link m) 65535 p xs
    → ((x : ℕ) → has x xs ≡ true → has x free ≡ false)
    → Grows m m free free p p xs xs
Grows-refl m free p xs f l a = record {
  list = f;
  chain = l;
  grown = λ x i. inl i;
  shrunk = λ x i. i;
  apart = a;
  frame = λ x _ _ _. refl;
}

pub Grows-trans :
    {m m' m'' : Block} {free free' free'' : List ℕ} {p p' p'' : ℕ} {xs xs' xs'' : List ℕ}
    → Grows m m' free free' p p' xs xs'
    → Grows m' m'' free' free'' p' p'' xs' xs''
    → Grows m m'' free free'' p p'' xs xs''
Grows-trans g h = record {
  list = h.list;
  chain = h.chain;
  grown = λ x i. ground (arith, h.grown x i, g.grown x, g.shrunk x);
  shrunk = λ x i. g.shrunk x (h.shrunk x i);
  apart = h.apart;
  frame = λ x o f ne. ground (arith, g.frame x o f ne, h.frame x, g.grown x, g.shrunk x);
}

-- The first block of an empty file.
pub Grows-first :
    (m : Block) (x : ℕ) (free : List ℕ) (p : ℕ)
    → IsFreeList m (x ∷ free)
    → Grows m (taken m x) (x ∷ free) free p x [] (x ∷ [])
Grows-first m x free p (e, lo, hi, out, l) =
    let b : link m x < 65536 = Leads-bounded (link m) 0 (link m x) free (omega arith) l in
    record {
      list = taken-IsFreeList m x free (e, lo, hi, out, l);
      chain = (refl, lo, hi, refl, ground (arith, link-taken m x x b));
      grown = λ y i. ground arith;
      shrunk = λ y i. ground arith;
      apart = λ y i. ground arith;
      frame = λ y o f ne. ground (arith, link-taken m x y b);
    }

-- A block behind the last one, k.
pub Grows-last :
    (m : Block) (x : ℕ) (free : List ℕ) (p k : ℕ) (xs : List ℕ)
    → IsFreeList m (x ∷ free)
    → Leads (link m) 65535 p xs
    → ((y : ℕ) → has y xs ≡ true → has y (x ∷ free) ≡ false)
    → has k xs ≡ true
    → link m k ≡ 65535
    → Grows m (set_link (taken m x) k x) (x ∷ free) free p p xs (xs ++ x ∷ [])
Grows-last m x free p k xs (e, lo, hi, out, l) c a i end = record {
  list = rw (kept 0 (ground (arith, Leads-mem (link m) 65535 p k xs c i))) (
      Leads-frame (link (taken m x)) 0 (link m') (link (taken m x) 0) free
        (λ y j. kept y (ground (arith, a k i))) (taken-IsFreeList m x free (e, lo, hi, out, l)));
  chain =
      Leads-extend (link m) 65535 (link m') p k x xs (inl (omega arith)) c i end lo hi
        (ground (arith, a x)) (ground (arith, links k)) (ground (arith, links x, a k i))
        (λ y j ne. ground (arith, links y, Leads-mem (link m) 65535 p y xs c j, a y j));
  grown = λ y j. ground (arith, has-append y xs (x ∷ []));
  shrunk = λ y j. ground arith;
  apart = λ y j. ground (arith, has-append y xs (x ∷ []), a y);
  frame = λ y o f ne. ground (arith, links y);
}
  where
    m' : Block
    m' = set_link (taken m x) k x

    b : link m x < 65536
    b = Leads-bounded (link m) 0 (link m x) free (omega arith) l

    kept : (j : ℕ) → j ≢ k → link m' j ≡ link (taken m x) j
    kept j ne = ground (arith, link-set_link_if (taken m x) k x j (omega arith))

    links :
        (j : ℕ)
        → link m' j ≡ (
            if j == k
            then x
            else (if j == x then 65535 else (if j == 0 then link m x else link m j)))
    links j = ground (arith, link-set_link_if (taken m x) k x j (omega arith), link-taken m x j b)

-- The chains of all files, where that of file i is a new one.
abbrev pub update : (ℕ → List ℕ) → ℕ → List ℕ → ℕ → List ℕ
update chain i xs j = if j == i then xs else chain j

-- A property of the new chains, from the changed one and the others.
pub update-elim {ℓ} :
    (P : ℕ → List ℕ → Type ℓ) (chain : ℕ → List ℕ) (i : ℕ) (xs : List ℕ)
    → P i xs
    → ((j : ℕ) → j ≢ i → P j (chain j))
    → (j : ℕ) → P j (update chain i xs j)
update-elim P chain i xs h k j = elim (Bool-cases (j == i)) [
  | inl e ↦ rw e (subst (λ n. P n xs) (same e) h)
  | inr e ↦ rw e (k j (ground arith))
]
  where
    same : (j == i) ≡ true → i ≡ j
    same e = ground arith

-- After file i has grown, the map and a directory that differs in entry i fit together again.
pub Consistent-Grows :
    (d d' m m' : Block) (free free' : List ℕ) (chain : ℕ → List ℕ) (i p' : ℕ) (xs' : List ℕ)
    → Consistent d m free chain
    → i < 16
    → IsUsed d i
    → Grows m m' free free' (first_block d i) p' (chain i) xs'
    → OnlyEntry d d' i
    → d' (32 * i) ≡ d (32 * i)
    → first_block d' i ≡ p'
    → (xs' ≡ [] → size_bytes d' i ≡ 0)
    → Consistent d' m' free' (update chain i xs')
Consistent-Grows d d' m m' free free' chain i p' xs' c hi u g only used first sized = record {
  free_list = g.list;
  file =
      update-elim (λ j xs. j < 16 → IsUsed d' j → Leads (link m') 65535 (first_block d' j) xs) chain
        i xs' (λ h v. rw first g.chain)
        (λ j ne h v. rw (SameEntry.first_block (other j ne)) (
          Leads-frame (link m) 65535 (link m') (first_block d j) (chain j)
            (λ x e. spared j x ne h e (in_use j ne v)) (c.file j h (in_use j ne v))));
  unused =
      update-elim (λ j xs. j < 16 → d' (32 * j) ≡ 0 → xs ≡ []) chain i xs'
        (λ h z. absurd (u (sym used ∙ z)))
        (λ j ne h z. c.unused j h (sym (SameEntry.used (other j ne)) ∙ z));
  sized =
      update-elim (λ j xs. j < 16 → IsUsed d' j → xs ≡ [] → size_bytes d' j ≡ 0) chain i xs'
        (λ h v e. sized e)
        (λ j ne h v e. SameEntry.size_bytes (other j ne) ∙ c.sized j h (in_use j ne v) e);
  apart_free = λ j x h.
      update-elim (λ j xs. j < 16 → has x xs ≡ true → has x free' ≡ false) chain i xs'
        (λ _ e. g.apart x e) (λ j ne h e. ground (arith, c.apart_free j x h e, g.shrunk x)) j h;
  apart = λ j k x h h' differ.
      update-elim (λ j xs. j < 16 → j ≢ k → has x xs ≡ true → has x (update chain i xs' k) ≡ false)
        chain i xs'
        (λ _ ne e. ground (arith, g.grown x e, c.apart_free k x h', c.apart i k x hi h' ne))
        (λ j ne h differ e. ground (
          arith,
          g.grown x,
          c.apart_free j x h e,
          c.apart j i x h hi ne e,
          c.apart j k x h h' differ e,
        ))
        j h differ;
}
  where
    other : (j : ℕ) → j ≢ i → SameEntry d d' j
    other j ne = OnlyEntry-SameEntry d d' i j only ne

    in_use : (j : ℕ) → j ≢ i → IsUsed d' j → IsUsed d j
    in_use j ne v z = v (SameEntry.used (other j ne) ∙ z)

    spared : (j x : ℕ) → j ≢ i → j < 16 → has x (chain j) ≡ true → IsUsed d j → link m' x ≡ link m x
    spared j x ne h e v =
        g.frame x (c.apart j i x h hi ne e) (c.apart_free j x h e)
          (ground (arith, Leads-mem (link m) 65535 (first_block d j) x (chain j) (c.file j h v) e))

-- An entry that is made empty: its blocks, if it had any, belong to no file any more.
pub Consistent-clear :
    (d d' m : Block) (free : List ℕ) (chain : ℕ → List ℕ) (i : ℕ)
    → Consistent d m free chain
    → OnlyEntry d d' i
    → first_block d' i ≡ 65535
    → size_bytes d' i ≡ 0
    → Consistent d' m free (update chain i [])
Consistent-clear d d' m free chain i c only first size = record {
  free_list = c.free_list;
  file =
      update-elim (λ j xs. j < 16 → IsUsed d' j → Leads (link m) 65535 (first_block d' j) xs) chain
        i [] (λ h v. first)
        (λ j ne h v.
          rw (SameEntry.first_block (other j ne))
            (c.file j h (λ z. v (SameEntry.used (other j ne) ∙ z))));
  unused =
      update-elim (λ j xs. j < 16 → d' (32 * j) ≡ 0 → xs ≡ []) chain i [] (λ h z. refl)
        (λ j ne h z. c.unused j h (sym (SameEntry.used (other j ne)) ∙ z));
  sized =
      update-elim (λ j xs. j < 16 → IsUsed d' j → xs ≡ [] → size_bytes d' j ≡ 0) chain i []
        (λ h v e. size)
        (λ j ne h v e.
          SameEntry.size_bytes (other j ne)
          ∙ c.sized j h (λ z. v (SameEntry.used (other j ne) ∙ z)) e);
  apart_free = λ j x h.
      update-elim (λ j xs. j < 16 → has x xs ≡ true → has x free ≡ false) chain i [] (λ _ e. cc)
        (λ j ne h e. c.apart_free j x h e) j h;
  apart = λ j k x h h' differ.
      update-elim (λ j xs. j < 16 → j ≢ k → has x xs ≡ true → has x (update chain i [] k) ≡ false)
        chain i [] (λ _ ne e. cc) (λ j ne h differ e. ground (arith, c.apart j k x h h' differ e)) j
        h differ;
}
  where
    other : (j : ℕ) → j ≢ i → SameEntry d d' j
    other j ne = OnlyEntry-SameEntry d d' i j only ne
