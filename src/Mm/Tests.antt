-- ===== src/Mm/Tests.antt =====
-- Runs of the allocator's list, and the theorems at concrete inputs.
use edan35_os_lund_univ.Common.{
  ℕ, ◌+◌, ◌-◌, ◌*◌, ◌%◌, ◌≤◌, ◌<◌, ◌≡◌, ◌⊎◌, refl, Bool, true, false, none, Option, leb, some, List,
  [], ◌∷◌, ◌++◌, arith, has, length, ltb, if◌then◌else◌,
}
use edan35_os_lund_univ.Mm.{
  Store, Memory, size_mod, meta_size, null, put_header, aligned_size, used_size, unused_size,
  find_block, block_to_data, split_block, merge_blocks, new_block, intptr,
}
use edan35_os_lund_univ.Mm.Break.{Sbrk, Moves, Increment, more, fewer}
use edan35_os_lund_univ.Mm.Layout.{span, Blocks}
use edan35_os_lund_univ.Mm.Sizes.{
  aligned_size-Rounds, total, used_size-unused_size, starts, find_block-block_to_data,
}
use edan35_os_lund_univ.Mm.Split.{whole_size, split_block-Splits}
use edan35_os_lund_univ.Mm.Merge.{coalesce, apart, used_blocks, merge_blocks-Coalesces}
use edan35_os_lund_univ.Mm.Grow.{new_block-Appends, new_block-overflow}

-- A used block of 64 bytes at 256 and two free ones of 32 bytes, at 336 and 384; sbrk(0) is 432.
abbrev blocks : List (Bool × ℕ)
blocks = (false, 64) ∷ (true, 32) ∷ (true, 32) ∷ []

abbrev store : Store
store =
    put_header
      (put_header
        (put_header (λ a. record { is_free = false; next = 0 }) 256
          (record { is_free = false; next = 336 }))
        336 (record { is_free = true; next = 384 }))
      384 (record { is_free = true; next = 432 })

blocks_there : Blocks store 256 432 blocks
blocks_there = (refl, refl, (refl, refl, (refl, refl, refl)))

abbrev move : ℕ → Increment → ℕ × Option ℕ
move k (more n) = if ltb (k + n) 4096 then (k + n, some k) else (k, none)
move k (fewer n) = if leb n k then (k - n, some k) else (k, none)

move-some : (k : ℕ) (i : Increment) (p : ℕ) → (move k i).1 ≡ some p → p ≡ k
move-some k (more n) p e = ground arith
move-some k (fewer n) p e = ground arith

move-none : (k : ℕ) (i : Increment) → (move k i).1 ≡ none → (move k i).0 ≡ k
move-none k (more n) e = ground arith
move-none k (fewer n) e = ground arith

-- A kernel whose break is a number; sbrk fails from 4096 on.
abbrev small_sbrk : Sbrk
small_sbrk = record { Kernel = ℕ; break = λ k. k; grow = move; set_break = λ k p. p }

small_sbrk-Moves : Moves small_sbrk
small_sbrk-Moves = record {
  grow-some = move-some;
  break-more = λ k n p e. ground arith;
  break-fewer = λ k n p e. ground arith;
  grow-none = move-none;
  break-set_break = λ k p. refl;
}

abbrev memory : Memory small_sbrk
memory = record { kernel = 432; store = store; first = 256; enomem = false }

aligned_size-Rounds_example :
    (aligned_size 17 % 16 ≡ 0)
    × (((17 ≤ aligned_size 17) × (aligned_size 17 < 17 + 16))
        ⊎ ((size_mod ≤ 17 + 15) × (aligned_size 17 ≡ 0)))
aligned_size-Rounds_example = aligned_size-Rounds 17 (omega arith)

used_size-unused_size_example :
    (used_size store 256 432 ≡ some (total false blocks))
    × (unused_size store 256 432 ≡ some (total true blocks))
    × (256 + total false blocks + total true blocks + 16 * length blocks ≡ 432)
used_size-unused_size_example =
    used_size-unused_size store 256 432 blocks blocks_there (omega arith) (omega arith)

find_block-block_to_data_example :
    find_block store 256 432 (block_to_data 336)
    ≡ some (if has 336 (starts 256 blocks) then 336 else null)
find_block-block_to_data_example =
    find_block-block_to_data store 256 432 336 blocks blocks_there (omega arith) (omega arith)
      (omega arith)

split_block-Splits_example :
    ((whole_size 8 ≤ 64)
      × (8 ≤ whole_size 8 - 16)
      × ((split_block store 256 8).1 ≡ 64 - whole_size 8)
      × Blocks (split_block store 256 8).0 256 432 (
          []
          ++ (false, whole_size 8 - 16) ∷ (true, 64 - whole_size 8) ∷ (true, 32) ∷ (true, 32) ∷ []))
    ⊎ ((64 < whole_size 8)
        × ((split_block store 256 8).0 ≡ store)
        × ((split_block store 256 8).1 + (whole_size 8 - 64) ≡ size_mod))
split_block-Splits_example =
    split_block-Splits store 256 256 432 [] false 64 ((true, 32) ∷ (true, 32) ∷ []) 8 refl
      blocks_there (omega arith) (omega arith) (omega arith)

merge_blocks-Coalesces_example :
    (h' : Store) × (merge_blocks store 256 432 ≡ some h')
    × Blocks h' 256 432 ([] ++ coalesce blocks)
    × (apart (coalesce blocks) ≡ true)
    × (used_blocks 256 (coalesce blocks) ≡ used_blocks 256 blocks)
merge_blocks-Coalesces_example =
    merge_blocks-Coalesces store 256 256 432 [] blocks refl blocks_there (omega arith)

new_block-Appends_example :
    (((new_block small_sbrk 20 memory).1 ≡ null)
      × ((new_block small_sbrk 20 memory).0.enomem ≡ true)
      × ((new_block small_sbrk 20 memory).0.store ≡ store)
      × ((new_block small_sbrk 20 memory).0.kernel ≡ 432))
    ⊎ (((new_block small_sbrk 20 memory).1 ≡ 256 + span blocks)
        × (20 ≤ whole_size 20 - 16)
        × Blocks
            (new_block small_sbrk 20 memory).0.store
            256
            (new_block small_sbrk 20 memory).0.kernel
            (blocks ++ (false, whole_size 20 - 16) ∷ []))
new_block-Appends_example =
    new_block-Appends small_sbrk small_sbrk-Moves 20 memory 256 blocks blocks_there (omega arith)

granted : (small_sbrk.grow memory.kernel (intptr (whole_size 0xffff_ffff_ffff_fff4))).1 ≡ some 432
unfolding aligned_size
granted = refl

new_block-overflow_example :
    ((new_block small_sbrk 0xffff_ffff_ffff_fff4 memory).1 ≡ 432)
    × ((new_block small_sbrk 0xffff_ffff_ffff_fff4 memory).0.kernel
        ≤ (new_block small_sbrk 0xffff_ffff_ffff_fff4 memory).1 + meta_size)
new_block-overflow_example =
    new_block-overflow small_sbrk small_sbrk-Moves 0xffff_ffff_ffff_fff4 memory 432 (omega arith)
      (omega arith) granted
