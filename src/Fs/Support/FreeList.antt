-- ===== src/Fs/Support/FreeList.antt =====
-- The free list of the block map: allocateBlock and freeBlock of fs_support.c.
use edan35_os_lund_univ.Common.{
  ℕ, ◌≤◌, ◌<◌, ◌≡◌, ◌≢◌, false, Option, some, List, [], ◌∷◌, arith, ◌==◌, has, if◌then◌else◌,
}
use edan35_os_lund_univ.Fs.Bytes.{Block}
use edan35_os_lund_univ.Fs.Layout.{link, set_link, link-set_link_if, eof_block}
use edan35_os_lund_univ.Fs.Chain.{Leads, Leads-frame, Leads-bounded, Leads-mem}
use edan35_os_lund_univ.Fs.Support.{allocate_block, free_block_in, Cache, alloc_block}
use edan35_os_lund_univ.Fs.Device.{BlockDevice}
use edan35_os_lund_univ.Fs.Run.{ok}

-- The free list of a map starts behind block 0, and ends there.
abbrev pub IsFreeList : Block → List ℕ → Type 0
IsFreeList m xs = Leads (link m) 0 (link m 0) xs

-- The map after block x is taken off the free list.
unfoldable pub taken : Block → ℕ → Block
taken m x = set_link (set_link m 0 (link m x)) x eof_block

-- The map after block x is put on the free list.
unfoldable pub returned : Block → ℕ → Block
returned m x = set_link (set_link m x (link m 0)) 0 x

pub link-taken :
    (m : Block) (x j : ℕ)
    → link m x < 65536
    → link (taken m x) j ≡ (if j == x then 65535 else (if j == 0 then link m x else link m j))
unfolding taken
link-taken m x j h = ground (
  arith,
  link-set_link_if (set_link m 0 (link m x)) x eof_block j (omega arith),
  link-set_link_if m 0 (link m x) j h,
)

pub link-returned :
    (m : Block) (x j : ℕ)
    → x < 65536
    → link m 0 < 65536
    → link (returned m x) j ≡ (if j == 0 then x else (if j == x then link m 0 else link m j))
unfolding returned
link-returned m x j h h' = ground (
  arith,
  link-set_link_if (set_link m x (link m 0)) 0 x j h,
  link-set_link_if m x (link m 0) j h',
)

pub allocate_block-nil : (m : Block) → IsFreeList m [] → allocate_block m ≡ some (m, 65535)
unfolding allocate_block
allocate_block-nil m h = ground arith

pub allocate_block-cons :
    (m : Block) (x : ℕ) (xs : List ℕ)
    → IsFreeList m (x ∷ xs)
    → allocate_block m ≡ some (taken m x, x)
unfolding allocate_block taken
allocate_block-cons m x xs h = ground arith

taken_head :
    (m : Block) (x : ℕ) (xs : List ℕ) → IsFreeList m (x ∷ xs) → link (taken m x) 0 ≡ link m x
taken_head m x xs (e, lo, hi, out, l) =
    ground (arith, link-taken m x 0 (Leads-bounded (link m) 0 (link m x) xs (omega arith) l))

pub taken-IsFreeList :
    (m : Block) (x : ℕ) (xs : List ℕ) → IsFreeList m (x ∷ xs) → IsFreeList (taken m x) xs
taken-IsFreeList m x xs (e, lo, hi, out, l) =
    let b : link m x < 65536 = Leads-bounded (link m) 0 (link m x) xs (omega arith) l in
    rw (taken_head m x xs (e, lo, hi, out, l)) (
      Leads-frame (link m) 0 (link (taken m x)) (link m x) xs
        (λ y i. ground (arith, link-taken m x y b, Leads-mem (link m) 0 (link m x) y xs l i)) l)

pub returned-IsFreeList :
    (m : Block) (x : ℕ) (xs : List ℕ)
    → IsFreeList m xs
    → 2 ≤ x
    → x < 10
    → has x xs ≡ false
    → IsFreeList (returned m x) (x ∷ xs)
returned-IsFreeList m x xs l lo hi out =
    let b : link m 0 < 65536 = Leads-bounded (link m) 0 (link m 0) xs (omega arith) l in
    let far : x < 65536 = omega arith in
    let first : link (returned m x) 0 ≡ x = ground (arith, link-returned m x 0 far b) in
    let second : link (returned m x) x ≡ link m 0 = ground (arith, link-returned m x x far b) in
    (
      first,
      lo,
      hi,
      out,
      rw second (
          Leads-frame (link m) 0 (link (returned m x)) (link m 0) xs
            (λ y i.
              ground (arith, link-returned m x y far b, Leads-mem (link m) 0 (link m 0) y xs l i))
            l),
    )

-- What allocation from the free list `xs` of `m` gives.
abbrev pub AllocatesFrom : Block → List ℕ → Option (Block × ℕ) → Type 0
AllocatesFrom m [] r = r ≡ some (m, 65535)
AllocatesFrom m (x ∷ xs) r =
    (m' : Block) × (r ≡ some (m', x))
    × IsFreeList m' xs
    × (link m' x ≡ 65535)
    × ((j : ℕ) → j ≢ 0 → j ≢ x → link m' j ≡ link m j)

-- Allocating from a well-formed free list: with a free block left, the first one is returned, the
-- free list loses exactly that block, the block's own link becomes the end marker and no other
-- block's link changes; with none left, the end marker is returned and the map stays as it is.
pub allocate_block-AllocatesFrom :
    (m : Block) (xs : List ℕ) → IsFreeList m xs → AllocatesFrom m xs (allocate_block m)
allocate_block-AllocatesFrom m [] h = allocate_block-nil m h
allocate_block-AllocatesFrom m (x ∷ xs) (e, lo, hi, out, l) =
    let b : link m x < 65536 = Leads-bounded (link m) 0 (link m x) xs (omega arith) l in
    (
      taken m x,
      allocate_block-cons m x xs (e, lo, hi, out, l),
      taken-IsFreeList m x xs (e, lo, hi, out, l),
      ground (arith, link-taken m x x b),
      λ j ne0 ne. ground (arith, link-taken m x j b),
    )

-- Freeing a data block that is not free yet puts it in front of the free list, returns the link
-- that it had, and changes no other block's link.
pub free_block_in-IsFreeList :
    (m : Block) (x : ℕ) (xs : List ℕ)
    → IsFreeList m xs
    → 2 ≤ x
    → x < 10
    → has x xs ≡ false
    → (m' : Block) × (free_block_in m x ≡ some (m', link m x))
      × IsFreeList m' (x ∷ xs)
      × ((j : ℕ) → j ≢ 0 → j ≢ x → link m' j ≡ link m j)
unfolding free_block_in returned
free_block_in-IsFreeList m x xs l lo hi out = (
  returned m x,
  ground arith,
  returned-IsFreeList m x xs l lo hi out,
  λ j ne0 ne. ground (
    arith,
    link-returned m x j (omega arith) (Leads-bounded (link m) 0 (link m 0) xs (omega arith) l),
  ),
)

-- Freeing the block that was just allocated restores every link of the block map, so
-- the next allocation returns the same block again.
pub free_block_in-allocate_block :
    (m : Block) (x : ℕ) (xs : List ℕ)
    → IsFreeList m (x ∷ xs)
    → (m' m'' : Block) × (allocate_block m ≡ some (m', x))
      × (free_block_in m' x ≡ some (m'', 65535))
      × ((j : ℕ) → link m'' j ≡ link m j)
      × (allocate_block m'' ≡ some (taken m'' x, x))
unfolding free_block_in returned
free_block_in-allocate_block m x xs (e, lo, hi, out, l) =
    let b : link m x < 65536 = Leads-bounded (link m) 0 (link m x) xs (omega arith) l in
    let t = taken m x in
    let last : link t x ≡ 65535 = ground (arith, link-taken m x x b) in
    let head : link t 0 ≡ link m x = ground (arith, link-taken m x 0 b) in
    (
      t,
      returned t x,
      allocate_block-cons m x xs (e, lo, hi, out, l),
      ground arith,
      λ j. ground (arith, link-taken m x j b, link-returned t x j (omega arith) (omega arith)),
      allocate_block-cons (returned t x) x xs
          (returned-IsFreeList t x xs (taken-IsFreeList m x xs (e, lo, hi, out, l)) lo hi out),
    )

module _ (dev : BlockDevice) (c : Cache dev) where
  -- alloc_block on the loaded map
  pub alloc_block-nil : IsFreeList c.bmap [] → alloc_block dev c ≡ ok 65535 c
  unfolding alloc_block
  alloc_block-nil h = rw (allocate_block-nil c.bmap h, alloc_block)

  pub alloc_block-cons :
      (x : ℕ) (xs : List ℕ)
      → IsFreeList c.bmap (x ∷ xs)
      → alloc_block dev c ≡ ok x (record c { bmap = taken c.bmap x })
  unfolding alloc_block
  alloc_block-cons x xs h = rw (allocate_block-cons c.bmap x xs h, alloc_block)
