-- ===== src/Mm/Sizes.antt =====
-- The sizes of blocks, the sums over the list and the search for a block.
use edan35_os_lund_univ.Common.{
  ℕ, zero, suc, ◌+◌, ◌*◌, ◌%◌, ◌≤◌, ◌<◌, ◌≡◌, ◌⊎◌, refl, Bool, true, false, not, some, List, [],
  ◌∷◌, arith, if◌then◌else◌, length, has,
}
use edan35_os_lund_univ.Mm.{
  Store, size_mod, meta_size, null, aligned_size, block_to_data, data_to_block, size_loop,
  used_size, unused_size, seek_loop, find_block,
}
use edan35_os_lund_univ.Mm.Layout.{length-span, span, Blocks, Blocks-span, Blocks-sizes}

-- aligned_size gives a multiple of 16. It is the next one from `sz` on, or 0 where adding 15
-- leaves the range of size_t.
pub aligned_size-Rounds :
    (sz : ℕ)
    → sz < size_mod
    → (aligned_size sz % 16 ≡ 0)
      × (((sz ≤ aligned_size sz) × (aligned_size sz < sz + 16))
          ⊎ ((size_mod ≤ sz + 15) × (aligned_size sz ≡ 0)))
unfolding aligned_size
aligned_size-Rounds sz small = ground arith

-- What a loop over the blocks adds up.
abbrev pub total : Bool → List (Bool × ℕ) → ℕ
total flag [] = 0
total flag ((f, n) ∷ bs) = (if (if flag then f else not f) then n else 0) + total flag bs

size_loop-sum :
    (flag : Bool) (fuel : ℕ) (h : Store) (p last s : ℕ) (bs : List (Bool × ℕ))
    → Blocks h p last bs
    → 0 < p
    → last < size_mod
    → s + span bs < size_mod
    → length bs < fuel
    → size_loop flag fuel h p last s ≡ some (s + total flag bs)
unfolding size_loop
size_loop-sum flag zero h p last s bs b pos small fits enough = absurd (omega arith)
size_loop-sum flag (suc fuel) h p last s [] b pos small fits enough = ground arith
size_loop-sum true (suc fuel) h p last s ((true, n) ∷ bs) b pos small fits enough =
    let sizes = Blocks-sizes h p last true n bs b pos small in
    let whole = Blocks-span h p last ((true, n) ∷ bs) b in
    let rest =
      size_loop-sum true fuel h (p + 16 + n) last (s + n) bs b.2 (omega arith) small (omega arith)
        (omega arith) in
    ground (arith, rest, sizes, whole, b.0, b.1)
size_loop-sum true (suc fuel) h p last s ((false, n) ∷ bs) b pos small fits enough =
    let whole = Blocks-span h p last ((false, n) ∷ bs) b in
    let rest =
      size_loop-sum true fuel h (p + 16 + n) last s bs b.2 (omega arith) small (omega arith)
        (omega arith) in
    ground (arith, rest, whole, b.0, b.1)
size_loop-sum false (suc fuel) h p last s ((true, n) ∷ bs) b pos small fits enough =
    let whole = Blocks-span h p last ((true, n) ∷ bs) b in
    let rest =
      size_loop-sum false fuel h (p + 16 + n) last s bs b.2 (omega arith) small (omega arith)
        (omega arith) in
    ground (arith, rest, whole, b.0, b.1)
size_loop-sum false (suc fuel) h p last s ((false, n) ∷ bs) b pos small fits enough =
    let sizes = Blocks-sizes h p last false n bs b pos small in
    let whole = Blocks-span h p last ((false, n) ∷ bs) b in
    let rest =
      size_loop-sum false fuel h (p + 16 + n) last (s + n) bs b.2 (omega arith) small (omega arith)
        (omega arith) in
    ground (arith, rest, sizes, whole, b.0, b.1)

span-total : (bs : List (Bool × ℕ)) → total false bs + total true bs + 16 * length bs ≡ span bs
span-total [] = refl
span-total ((true, n) ∷ bs) = omega (arith, span-total bs)
span-total ((false, n) ∷ bs) = omega (arith, span-total bs)

-- For a list of blocks between `first` and sbrk(0), used_size and unused_size end with the sums
-- of the data sizes of the used and of the free blocks. Together with the headers these
-- account for every byte between the two addresses.
pub used_size-unused_size :
    (h : Store) (first last : ℕ) (bs : List (Bool × ℕ))
    → Blocks h first last bs
    → 0 < first
    → last < size_mod
    → (used_size h first last ≡ some (total false bs))
      × (unused_size h first last ≡ some (total true bs))
      × (first + total false bs + total true bs + 16 * length bs ≡ last)
unfolding used_size unused_size
used_size-unused_size h first last bs b pos small =
    let whole = Blocks-span h first last bs b in
    let few = length-span bs in
    let used =
      size_loop-sum false (suc last) h first last 0 bs b pos small (omega arith) (omega arith) in
    let free =
      size_loop-sum true (suc last) h first last 0 bs b pos small (omega arith) (omega arith) in
    (ground (arith, used), ground (arith, free), omega (arith, span-total bs))

-- The addresses at which blocks start.
abbrev pub starts : ℕ → List (Bool × ℕ) → List ℕ
starts p [] = []
starts p ((f, n) ∷ bs) = p ∷ starts (p + 16 + n) bs

seek_loop-starts :
    (fuel : ℕ) (h : Store) (p last q : ℕ) (bs : List (Bool × ℕ))
    → Blocks h p last bs
    → length bs < fuel
    → seek_loop fuel h p last q ≡ some (if has q (starts p bs) then q else null)
unfolding seek_loop
seek_loop-starts zero h p last q bs b enough = absurd (omega arith)
seek_loop-starts (suc fuel) h p last q [] b enough = ground arith
seek_loop-starts (suc fuel) h p last q ((f, n) ∷ bs) b enough =
    let whole = Blocks-span h p last ((f, n) ∷ bs) b in
    let rest = seek_loop-starts fuel h (p + 16 + n) last q bs b.2 (omega arith) in
    ground (arith, rest, whole, b.1)

-- find_block ends. For the data pointer of an address `q` it returns `q` where a block of the
-- list starts there and NULL where none does.
pub find_block-block_to_data :
    (h : Store) (first last q : ℕ) (bs : List (Bool × ℕ))
    → Blocks h first last bs
    → 0 < first
    → 0 < q
    → q + meta_size < size_mod
    → find_block h first last (block_to_data q) ≡ some (if has q (starts first bs) then q else null)
unfolding find_block block_to_data data_to_block
find_block-block_to_data h first last q bs b pos pos' small =
    let whole = Blocks-span h first last bs b in
    let few = length-span bs in
    let back : data_to_block (block_to_data q) ≡ q = ground arith in
    let found = seek_loop-starts (suc last) h first last q bs b (omega arith) in
    ground (arith, found, back)
