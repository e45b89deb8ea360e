-- ===== src/Mm/Split.antt =====
-- split_block on a block of the list.
use edan35_os_lund_univ.Common.{
  ℕ, ◌+◌, ◌-◌, ◌%◌, ◌^◌, ◌≤◌, ◌<◌, ◌≡◌, ◌⊎◌, inl, inr, refl, sym, subst, Bool, true, List, ◌∷◌,
  ◌++◌, arith, le_or_lt,
}
use edan35_os_lund_univ.Mm.{
  Store, size_mod, meta_size, put_header, aligned_size, block_data_size, split_block,
}
use edan35_os_lund_univ.Mm.Layout.{Blocks, Blocks-span, Blocks-frame, Blocks-append, Blocks-sizes}

-- What a block of `size` bytes takes, its header included.
abbrev pub whole_size : ℕ → ℕ
whole_size size = aligned_size ((size + meta_size) % size_mod)

pub whole_size_bounds :
    (size : ℕ)
    → size + 31 < size_mod
    → (size + 16 ≤ whole_size size) × (whole_size size < size + 32)
unfolding aligned_size
whole_size_bounds size small = (ground arith, ground arith)

split_block-fits :
    (h : Store) (p n size : ℕ)
    → block_data_size h p ≡ n
    → n < 2 ^ 63
    → 16 ≤ whole_size size
    → whole_size size ≤ n
    → ((split_block h p size).1 ≡ n - whole_size size)
      × ((split_block h p size).0
          ≡ put_header
              (put_header h (p + whole_size size) (record { is_free = true; next = (h p).next }))
              p
              (record { is_free = (h p).is_free; next = p + whole_size size }))
unfolding split_block
split_block-fits h p n size e small pos fits = (ground arith, ground arith)

split_block-refuses :
    (h : Store) (p n size : ℕ)
    → block_data_size h p ≡ n
    → n < whole_size size
    → whole_size size ≤ 2 ^ 63
    → ((split_block h p size).1 + (whole_size size - n) ≡ size_mod) × ((split_block h p size).0 ≡ h)
unfolding split_block
split_block-refuses h p n size e less small = (ground arith, ground arith)

-- The headers of the two blocks that a split makes.
split_block-pair :
    (h h' : Store) (p last : ℕ) (f : Bool) (n al : ℕ) (bs : List (Bool × ℕ))
    → h'
      ≡ put_header
          (put_header h (p + al) (record { is_free = true; next = (h p).next }))
          p
          (record { is_free = (h p).is_free; next = p + al })
    → Blocks h p last ((f, n) ∷ bs)
    → 16 ≤ al
    → al ≤ n
    → Blocks h' p last ((f, al - 16) ∷ (true, n - al) ∷ bs)
split_block-pair h h' p last f n al bs e b pos fits =
    let first_end : p + 16 + (al - 16) ≡ p + al = omega arith in
    let second_end : p + 16 + (al - 16) + 16 + (n - al) ≡ p + 16 + n = omega arith in
    let here : h' p ≡ record { is_free = (h p).is_free; next = p + al } = rw e (ground arith) in
    let there : h' (p + al) ≡ record { is_free = true; next = (h p).next } = rw e (ground arith) in
    let tail : Blocks h' (p + 16 + n) last bs =
      Blocks-frame h h' (p + 16 + n) last bs (λ a l u. rw e (ground arith)) b.2 in
    (
      rw here b.0,
      rw (here, first_end) refl,
      (
        rw (first_end, there) refl,
        rw (first_end, there, b.1) (omega arith),
        subst (λ a. Blocks h' a last bs) (sym second_end) tail,
      ),
    )

split_block-before :
    (h h' : Store) (first p n al : ℕ) (pre : List (Bool × ℕ))
    → h'
      ≡ put_header
          (put_header h (p + al) (record { is_free = true; next = n }))
          p
          (record { is_free = (h p).is_free; next = p + al })
    → Blocks h first p pre
    → Blocks h' first p pre
split_block-before h h' first p n al pre e before =
    Blocks-frame h h' first p pre (λ a l u. rw e (ground arith)) before

-- The result of split_block on a block between others, for a list below 2^63 and a size that
-- does not overflow. Where the second block has room for its header, the list has the block's
-- first part, of at least `size` bytes, and behind it a free block of the rest, which is the
-- number returned. Otherwise nothing changes and the number returned is negative.
pub split_block-Splits :
    (h : Store) (first p last : ℕ) (pre : List (Bool × ℕ)) (f : Bool) (n : ℕ) (bs : List (Bool × ℕ))
    (size : ℕ)
    → Blocks h first p pre
    → Blocks h p last ((f, n) ∷ bs)
    → 0 < p
    → last < 2 ^ 63
    → size + 32 < 2 ^ 63
    → ((whole_size size ≤ n)
        × (size ≤ whole_size size - 16)
        × ((split_block h p size).1 ≡ n - whole_size size)
        × Blocks
            (split_block h p size).0
            first
            last
            (pre ++ (f, whole_size size - 16) ∷ (true, n - whole_size size) ∷ bs))
      ⊎ ((n < whole_size size)
          × ((split_block h p size).0 ≡ h)
          × ((split_block h p size).1 + (whole_size size - n) ≡ size_mod))
split_block-Splits h first p last pre f n bs size before b pos small fits =
    let whole = Blocks-span h p last ((f, n) ∷ bs) b in
    let sizes = Blocks-sizes h p last f n bs b pos (omega arith) in
    let (low, high) = whole_size_bounds size (omega arith) in
    elim (le_or_lt (whole_size size) n) [
      | inl le ↦
          let (rest, h') = split_block-fits h p n size sizes.1 (omega arith) (omega arith) le in
          inl (
            le,
            omega arith,
            rest,
            Blocks-append (split_block h p size).0 first p last pre
                ((f, whole_size size - 16) ∷ (true, n - whole_size size) ∷ bs)
                (split_block-before h (split_block h p size).0 first p (h p).next (whole_size size)
                  pre h' before)
                (split_block-pair h (split_block h p size).0 p last f n (whole_size size) bs h' b
                  (omega arith) le),
          )
      | inr lt ↦
          let (rest, same) = split_block-refuses h p n size sizes.1 lt (omega arith) in
          inr (lt, same, rest)
    ]
