-- ===== src/Mm.antt =====
-- lab5_mm/ll-mm.c: an allocator over sbrk whose blocks form a list in memory.
pub mod Break
pub mod Layout
pub mod Split
pub mod Merge
pub mod Sizes
pub mod Grow
pub mod Tests
use edan35_os_lund_univ.Common.{
  ℕ, zero, suc, ◌+◌, ◌-◌, ◌*◌, ◌/◌, ◌%◌, ◌^◌, Bool, true, false, not, ◌&&◌, ◌||◌, Option, none,
  some, ◌==◌, ltb, leb, if◌then◌else◌,
}
use Break.{Sbrk, Increment, more, fewer}

-- ALIGNMENT and META_SIZE on x86-64, and the range of size_t
abbrev pub alignment : ℕ
alignment = 16

abbrev pub meta_size : ℕ
meta_size = 16

abbrev pub size_mod : ℕ
size_mod = 0x1_0000_0000_0000_0000

-- Addresses are numbers; NULL is 0.
abbrev pub null : ℕ
null = 0

-- struct block_s
pub record Header : Type 0 where
  pub is_free : Bool
  pub next : ℕ

-- The header that stands at each address. Blocks start at multiples of 16, so no two headers
-- overlap.
abbrev pub Store : Type 0
Store = ℕ → Header

abbrev pub put_header : Store → ℕ → Header → Store
put_header h p b a = if a == p then b else h a

-- (sz + ALIGNMENT - 1) & ~(ALIGNMENT - 1): the last four bits are cleared
unfoldable pub aligned_size : ℕ → ℕ
aligned_size sz = (sz + 15) % size_mod / 16 * 16

-- the difference of two pointers, as a size_t
abbrev pub distance : ℕ → ℕ → ℕ
distance p q = (q + size_mod - p) % size_mod

unfoldable pub block_total_size : Store → ℕ → ℕ
block_total_size h pb = if pb == null then 0 else distance pb (h pb).next

unfoldable pub block_data_size : Store → ℕ → ℕ
block_data_size h pb =
    if pb == null then 0 else (block_total_size h pb + size_mod - meta_size) % size_mod

unfoldable pub block_to_data : ℕ → ℕ
block_to_data pb = if pb == null then null else (pb + meta_size) % size_mod

unfoldable pub data_to_block : ℕ → ℕ
data_to_block p = if p == null then null else (p + size_mod - meta_size) % size_mod

-- The loop over the list that adds up the sizes of the blocks whose flag is `flag`; `none` if the
-- fuel runs out.
unfoldable pub size_loop : Bool → ℕ → Store → (pb last_addr s : ℕ) → Option ℕ
size_loop flag zero h pb last_addr s = none
size_loop flag (suc fuel) h pb last_addr s =
    let counts = if flag then (h pb).is_free else not (h pb).is_free in
    let s' = if counts then (s + block_data_size h pb) % size_mod else s in
    let rest = size_loop flag fuel h (h pb).next last_addr s' in
    if pb == last_addr then some s else rest

-- `last_addr` is sbrk(0); each block takes at least one address, so it bounds the rounds.
unfoldable pub used_size : Store → (first last_addr : ℕ) → Option ℕ
used_size h first last_addr =
    if first == null then some 0 else size_loop false (suc last_addr) h first last_addr 0

unfoldable pub unused_size : Store → (first last_addr : ℕ) → Option ℕ
unused_size h first last_addr =
    if first == null then some 0 else size_loop true (suc last_addr) h first last_addr 0

unfoldable pub seek_loop : ℕ → Store → (pb last_addr tofind : ℕ) → Option ℕ
seek_loop zero h pb last_addr tofind = none
seek_loop (suc fuel) h pb last_addr tofind =
    let rest = seek_loop fuel h (h pb).next last_addr tofind in
    if pb == last_addr then some null else if pb == tofind then some pb else rest

unfoldable pub find_block : Store → (first last_addr ptr : ℕ) → Option ℕ
find_block h first last_addr ptr =
    if first == null
    then some null
    else seek_loop (suc last_addr) h first last_addr (data_to_block ptr)

-- The store and the result, a ssize_t as the size_t with the same bits.
unfoldable pub split_block : Store → (pb size : ℕ) → Store × ℕ
split_block h pb size =
    let al = aligned_size ((size + meta_size) % size_mod) in
    let rest = (block_data_size h pb + size_mod - al) % size_mod in
    let pn = pb + al in
    let h1 = put_header h pn (record { is_free = true; next = (h pb).next }) in
    if ltb rest (2 ^ 63)
    then (put_header h1 pb (record { is_free = (h1 pb).is_free; next = pn }), rest)
    else (h, rest)

-- One round of merge_blocks on the store and the variable `pb`.
unfoldable pub merge_step : Store → ℕ → Store × ℕ
merge_step h pb =
    let pn = (h pb).next in
    if (h pb).is_free && (h pn).is_free
    then (put_header h pb (record { is_free = (h pb).is_free; next = (h pn).next }), pb)
    else (h, pn)

unfoldable pub merge_loop : ℕ → Store → (pb last_addr : ℕ) → Option Store
merge_loop zero h pb last_addr = none
merge_loop (suc fuel) h pb last_addr =
    let rest = merge_loop fuel (merge_step h pb).0 (merge_step h pb).1 last_addr in
    if (h pb).next == last_addr then some h else rest

unfoldable pub merge_blocks : Store → (pb last_addr : ℕ) → Option Store
merge_blocks h pb last_addr =
    if (pb == null) || (pb == last_addr) then some h else merge_loop (suc last_addr) h pb last_addr

-- The allocator's state: the memory, the list's head, the kernel and errno.
pub record Memory (s : Sbrk) : Type 0 where
  pub kernel : s.Kernel
  pub store : Store
  pub first : ℕ
  pub enomem : Bool

-- The conversion of a size_t to intptr_t: from 2^63 on the number is negative.
abbrev pub intptr : ℕ → Increment
intptr n = if ltb n (2 ^ 63) then more n else fewer (size_mod - n)

module _ (s : Sbrk) where
  unfoldable pub new_block : (size : ℕ) → Memory s → Memory s × ℕ
  new_block size m =
      let toalloc = aligned_size ((size + meta_size) % size_mod) in
      let (k, nb) = s.grow m.kernel (intptr toalloc) in
      elim nb [
        | none ↦ (record m { kernel = k; enomem = true }, null)
        | some p ↦ (
          record m {
            kernel = k;
            store = put_header m.store p (record { is_free = false; next = s.break k });
          },
          p,
        )
      ]

  -- reset: the break goes back to the first block
  unfoldable pub reset : Memory s → Memory s
  reset m =
      if m.first == null
      then m
      else record m { kernel = s.set_break m.kernel m.first; first = null }

  -- malloc, free and realloc are unfinished in the source: they do nothing, the first and the last
  -- return NULL.
  unfoldable pub malloc : (size : ℕ) → Memory s → Memory s × ℕ
  malloc size m = (m, null)

  unfoldable pub free : (ptr : ℕ) → Memory s → Memory s
  free ptr m = m

  unfoldable pub realloc : (ptr size : ℕ) → Memory s → Memory s × ℕ
  realloc ptr size m = (m, null)

  -- The memset of the source is behind a test for NULL, which every malloc returns.
  unfoldable pub calloc : (nitems item_size : ℕ) → Memory s → Memory s × ℕ
  unfolding malloc
  calloc nitems item_size m =
      if leb size_mod (nitems * item_size)
      then (record m { enomem = true }, null)
      else malloc (nitems * item_size) m
