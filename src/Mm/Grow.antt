-- ===== src/Mm/Grow.antt =====
-- new_block and reset, given what the manual page says of sbrk.
use edan35_os_lund_univ.Common.{
  ℕ, ◌+◌, ◌-◌, ◌≤◌, ◌<◌, ◌^◌, ◌≡◌, ◌⊎◌, inl, inr, refl, sym, ◌∙◌, Bool, true, false, none, some,
  Option-cases, List, [], ◌∷◌, ◌++◌, arith,
}
use edan35_os_lund_univ.Mm.{
  Store, Memory, size_mod, meta_size, intptr, null, put_header, aligned_size, new_block,
}
use edan35_os_lund_univ.Mm.Break.{Sbrk, Moves, more}
use edan35_os_lund_univ.Mm.Layout.{span, Blocks, Blocks-span, Blocks-frame, Blocks-append}
use edan35_os_lund_univ.Mm.Split.{whole_size, whole_size_bounds}

module _ (s : Sbrk) (moves : Moves s) where
  new_block-fails :
      (size : ℕ) (m : Memory s)
      → (s.grow m.kernel (intptr (whole_size size))).1 ≡ none
      → (new_block s size m).1 ≡ null
        × ((new_block s size m).0.enomem ≡ true)
        × ((new_block s size m).0.store ≡ m.store)
        × ((new_block s size m).0.kernel ≡ m.kernel)
  unfolding new_block
  new_block-fails size m e = (
    rw (new_block, e) refl,
    rw (new_block, e) refl,
    rw (new_block, e) refl,
    rw (new_block, e) (moves.grow-none m.kernel (intptr (whole_size size)) e),
  )

  new_block-grows :
      (size : ℕ) (m : Memory s) (p : ℕ)
      → whole_size size < 2 ^ 63
      → (s.grow m.kernel (intptr (whole_size size))).1 ≡ some p
      → ((new_block s size m).1 ≡ s.break m.kernel)
        × (s.break (new_block s size m).0.kernel ≡ s.break m.kernel + whole_size size)
        × ((new_block s size m).0.store
            ≡ put_header m.store
                (s.break m.kernel)
                (record { is_free = false; next = s.break m.kernel + whole_size size }))
  unfolding new_block
  new_block-grows size m p small e =
      let up : intptr (whole_size size) ≡ more (whole_size size) = ground (arith, small) in
      let at = moves.grow-some m.kernel (intptr (whole_size size)) p e in
      let to : s.break (s.grow m.kernel (intptr (whole_size size))).0 ≡ p + whole_size size =
        rw up (moves.break-more m.kernel (whole_size size) p (rw up at e)) in
      (rw (new_block, e) at, rw (new_block, e, to, at) refl, rw (new_block, e, to, at) refl)

  -- new_block on a list of blocks that ends at sbrk(0), for a size that is below 2^63 with its header
  -- and its padding, so that sbrk's intptr_t holds it. If sbrk fails, the result is NULL, errno is
  -- ENOMEM and the headers are as before. Otherwise the list has one more block at its end, which
  -- the result points to: it is used and has room for `size` bytes.
  pub new_block-Appends :
      (size : ℕ) (m : Memory s) (first : ℕ) (bs : List (Bool × ℕ))
      → Blocks m.store first (s.break m.kernel) bs
      → size + 31 < 2 ^ 63
      → (((new_block s size m).1 ≡ null)
          × ((new_block s size m).0.enomem ≡ true)
          × ((new_block s size m).0.store ≡ m.store)
          × ((new_block s size m).0.kernel ≡ m.kernel))
        ⊎ (((new_block s size m).1 ≡ first + span bs)
            × (size ≤ whole_size size - 16)
            × Blocks
                (new_block s size m).0.store
                first
                (s.break (new_block s size m).0.kernel)
                (bs ++ (false, whole_size size - 16) ∷ []))
  new_block-Appends size m first bs b small =
      let whole = Blocks-span m.store first (s.break m.kernel) bs b in
      let (low, high) = whole_size_bounds size (omega arith) in
      elim (Option-cases (s.grow m.kernel (intptr (whole_size size))).1) [
        | inl e ↦ inl (new_block-fails size m e)
        | inr (p, e) ↦
            let (at, to, store) = new_block-grows size m p (omega arith) e in
            let h' : Store = (new_block s size m).0.store in
            let head : h' (s.break m.kernel)
                ≡ record { is_free = false; next = s.break m.kernel + whole_size size } =
              rw store (ground arith) in
            inr (
              at ∙ sym whole,
              omega arith,
              rw to (
                  Blocks-append h' first (s.break m.kernel) (s.break m.kernel + whole_size size) bs
                    ((false, whole_size size - 16) ∷ [])
                    (Blocks-frame m.store h' first (s.break m.kernel) bs
                      (λ a l u. rw store (ground arith)) b)
                    (rw head refl, rw head (omega arith), omega arith)),
            )
      ]

  -- Where the size and its header leave the range of size_t, new_block asks sbrk for at most 16
  -- bytes: if that succeeds, the block returned has no byte of data before sbrk(0).
  pub new_block-overflow :
      (size : ℕ) (m : Memory s) (p : ℕ)
      → size < size_mod
      → size_mod ≤ size + 31
      → (s.grow m.kernel (intptr (whole_size size))).1 ≡ some p
      → ((new_block s size m).1 ≡ s.break m.kernel)
        × (s.break (new_block s size m).0.kernel ≤ (new_block s size m).1 + meta_size)
  unfolding aligned_size
  new_block-overflow size m p small big e =
      let none_left : whole_size size ≤ 16 = ground arith in
      let (at, to, store) = new_block-grows size m p (omega (arith, none_left)) e in
      (at, omega (arith, at, to))
