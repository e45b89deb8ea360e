-- ===== src/Fs/Info.antt =====
-- lab4_fs/info_myfs.c: the statistics of a disk, from its block map and its directory.
use edan35_os_lund_univ.Common.{
  ℕ, zero, suc, ◌+◌, ◌*◌, ◌%◌, ◌≤◌, ◌<◌, ◌≡◌, ◌⊎◌, inl, inr, ◌∙◌, false, Option, none, some, List,
  [], ◌∷◌, arith, ◌==◌, ltb, if◌then◌else◌, Bool-cases, lt→ltb, length, has,
}
use edan35_os_lund_univ.Fs.Bytes.{Block}
use edan35_os_lund_univ.Fs.Layout.{link, first_block, dir_entry_is_empty}
use edan35_os_lund_univ.Fs.Chain.{Leads}
use edan35_os_lund_univ.Fs.Consistent.{Consistent}

-- The loops over the links, which count into a uint16_t until they meet `stop`; `none` if the
-- fuel runs out or a link leads out of the map.
unfoldable pub count_loop : (fuel stop : ℕ) → Block → (crtfb blks : ℕ) → Option ℕ
count_loop zero stop blkmap crtfb blks = none
count_loop (suc fuel) stop blkmap crtfb blks =
    let rest = count_loop fuel stop blkmap (link blkmap crtfb) ((blks + 1) % 65536) in
    if crtfb == stop then some blks else if ltb crtfb 256 then rest else none

-- A chain without a cycle has a link for each data block at most.
unfoldable pub freeblks : Block → Option ℕ
freeblks blkmap = count_loop 11 0 blkmap (link blkmap 0) 0

-- the loop over the directory, with the number of entries left
unfoldable pub used_loop : ℕ → (blkdir blkmap : Block) → (i usedblks : ℕ) → Option ℕ
used_loop zero blkdir blkmap i usedblks = some usedblks
used_loop (suc n) blkdir blkmap i usedblks =
    let rest : ℕ → Option ℕ = used_loop n blkdir blkmap (suc i) in
    if dir_entry_is_empty blkdir i
    then rest usedblks
    else elim (count_loop 11 65535 blkmap (first_block blkdir i) usedblks) [
      | none ↦ none
      | some u ↦ rest u
    ]

unfoldable pub usedblks : (blkdir blkmap : Block) → Option ℕ
usedblks blkdir blkmap = used_loop 16 blkdir blkmap 0 0

-- How many numbers below a bound are in a list.
tally : ℕ → List ℕ → ℕ
tally zero xs = 0
tally (suc n) xs = (if has n xs then 1 else 0) + tally n xs

tally-bound : (n : ℕ) (xs : List ℕ) → tally n xs ≤ n
unfolding tally
tally-bound zero xs = omega arith
tally-bound (suc n) xs = ground (arith, tally-bound n xs)

tally-cons :
    (n x : ℕ) (xs : List ℕ)
    → has x xs ≡ false
    → tally n (x ∷ xs) ≡ (if ltb x n then 1 else 0) + tally n xs
unfolding tally
tally-cons zero x xs out = ground arith
tally-cons (suc n) x xs out = ground (arith, tally-cons n x xs out)

tally-new : (n x : ℕ) (xs : List ℕ) → has x xs ≡ false → x < n → tally n (x ∷ xs) ≡ suc (tally n xs)
tally-new n x xs out l = rw (tally-cons n x xs out, lt→ltb x n l) (omega arith)

Leads-tally :
    (next : ℕ → ℕ) (stop p : ℕ) (xs : List ℕ) → Leads next stop p xs → length xs ≤ tally 10 xs
Leads-tally next stop p [] l = omega arith
Leads-tally next stop p (x ∷ xs) (e, lo, hi, out, l) =
    let rest = Leads-tally next stop (next x) xs l in
    let new = tally-new 10 x xs out hi in omega (arith, rest, new)

Leads-length : (next : ℕ → ℕ) (stop p : ℕ) (xs : List ℕ) → Leads next stop p xs → length xs ≤ 10
Leads-length next stop p xs l = omega (arith, Leads-tally next stop p xs l, tally-bound 10 xs)

count_loop-length :
    (fuel stop : ℕ) (m : Block) (p blks : ℕ) (xs : List ℕ)
    → 10 ≤ stop ⊎ stop < 2
    → Leads (link m) stop p xs
    → length xs < fuel
    → blks + length xs < 65536
    → count_loop fuel stop m p blks ≡ some (blks + length xs)
unfolding count_loop
count_loop-length zero stop m p blks xs away l enough fits = absurd (omega arith)
count_loop-length (suc fuel) stop m p blks [] away l enough fits = ground arith
count_loop-length (suc fuel) stop m p blks (x ∷ xs) away (e, lo, hi, out, l) enough fits =
    let rest =
      count_loop-length fuel stop m (link m x) (blks + 1) xs away l (omega arith) (omega arith) in
    let step : (blks + 1) % 65536 ≡ blks + 1 = omega arith in ground (arith, rest, step, e)

plain : (n : ℕ) → some (0 + n) ≡ some n
plain n = ground arith

-- The blocks of the files of `n` entries from the i-th on.
abbrev pub total_blocks : (ℕ → List ℕ) → (n i : ℕ) → ℕ
total_blocks chain zero i = 0
total_blocks chain (suc n) i = length (chain i) + total_blocks chain n (suc i)

module _ (d m : Block) (free : List ℕ) (chain : ℕ → List ℕ) (c : Consistent d m free chain) where
  used_loop-total_blocks :
      (n i u : ℕ)
      → i + n ≤ 16
      → u + 10 * n < 65536
      → used_loop n d m i u ≡ some (u + total_blocks chain n i)
  unfolding used_loop
  used_loop-total_blocks zero i u l fits = ground arith
  used_loop-total_blocks (suc n) i u l fits = elim (Bool-cases (dir_entry_is_empty d i)) [
    | inl e ↦
        let none_there = c.unused i (omega arith) (ground (arith, e)) in
        let rest = used_loop-total_blocks n (suc i) u (omega arith) (omega arith) in
        let start : 0 + total_blocks chain n (suc i) ≡ total_blocks chain n (suc i) = omega arith in
        rw (used_loop, e, none_there, start) rest
    | inr e ↦
        let file = c.file i (omega arith) (ground (arith, e)) in
        let short = Leads-length (link m) 65535 (first_block d i) (chain i) file in
        let counted =
          count_loop-length 11 65535 m (first_block d i) u (chain i) (omega arith) file
            (omega (arith, short)) (omega (arith, short)) in
        let rest =
          used_loop-total_blocks n (suc i) (u + length (chain i)) (omega arith)
            (omega (arith, short)) in
        rw (used_loop, e, counted, rest) (ground arith)
  ]

  -- For a consistent directory and block map the loops of info_myfs.c end: the free blocks counted
  -- are the blocks of the free list, the used blocks counted are those of all the files.
  pub freeblks-usedblks :
      (freeblks m ≡ some (length free)) × (usedblks d m ≡ some (total_blocks chain 16 0))
  unfolding freeblks usedblks
  freeblks-usedblks =
      let short = Leads-length (link m) 0 (link m 0) free c.free_list in
      let counted =
        count_loop-length 11 0 m (link m 0) 0 free (omega arith) c.free_list (omega (arith, short))
          (omega (arith, short)) in
      let files = used_loop-total_blocks 16 0 0 (omega arith) (omega arith) in
      (counted ∙ plain (length free), files ∙ plain (total_blocks chain 16 0))
