-- ===== src/Mm/Layout.antt =====
-- The list of blocks between two addresses, seen as flags and data sizes.
use edan35_os_lund_univ.Common.{
  ℕ, ◌+◌, ◌*◌, ◌≤◌, ◌<◌, ◌≡◌, Bool, List, [], ◌∷◌, ◌++◌, arith, length,
}
use edan35_os_lund_univ.Mm.{Store, size_mod, block_total_size, block_data_size}

-- The bytes that blocks take, their headers included.
abbrev pub span : List (Bool × ℕ) → ℕ
span [] = 0
span ((f, n) ∷ bs) = 16 + n + span bs

-- From `p` on the headers describe the blocks one behind the other, up to `last`. A block is its
-- flag and the size of its data.
abbrev pub Blocks : Store → (p last : ℕ) → List (Bool × ℕ) → Type 0
Blocks h p last [] = p ≡ last
Blocks h p last ((f, n) ∷ bs) =
    ((h p).is_free ≡ f) × ((h p).next ≡ p + 16 + n) × Blocks h (p + 16 + n) last bs

pub Blocks-span :
    (h : Store) (p last : ℕ) (bs : List (Bool × ℕ)) → Blocks h p last bs → p + span bs ≡ last
Blocks-span h p last [] b = omega arith
Blocks-span h p last ((f, n) ∷ bs) (e, e', b) = omega (arith, Blocks-span h (p + 16 + n) last bs b)

-- A change of headers outside leaves the blocks.
pub Blocks-frame :
    (h h' : Store) (p last : ℕ) (bs : List (Bool × ℕ))
    → ((a : ℕ) → p ≤ a → a < last → h' a ≡ h a)
    → Blocks h p last bs
    → Blocks h' p last bs
Blocks-frame h h' p last [] same b = b
Blocks-frame h h' p last ((f, n) ∷ bs) same (e, e', b) =
    let here : h' p ≡ h p =
      same p (omega arith) (omega (arith, Blocks-span h (p + 16 + n) last bs b)) in
    (rw here e, rw here e', Blocks-frame h h' (p + 16 + n) last bs (λ a l. same a (omega arith)) b)

pub Blocks-append :
    (h : Store) (p q last : ℕ) (xs ys : List (Bool × ℕ))
    → Blocks h p q xs
    → Blocks h q last ys
    → Blocks h p last (xs ++ ys)
Blocks-append h p q last [] ys b c = rw b c
Blocks-append h p q last ((f, n) ∷ xs) ys (e, e', b) c =
    (e, e', Blocks-append h (p + 16 + n) q last xs ys b c)

-- A block of the list, its sizes read from memory.
pub Blocks-sizes :
    (h : Store) (p last : ℕ) (f : Bool) (n : ℕ) (bs : List (Bool × ℕ))
    → Blocks h p last ((f, n) ∷ bs)
    → 0 < p
    → last < size_mod
    → (block_total_size h p ≡ 16 + n) × (block_data_size h p ≡ n)
unfolding block_total_size block_data_size
Blocks-sizes h p last f n bs (e, e', b) pos small =
    let whole = Blocks-span h (p + 16 + n) last bs b in (ground arith, ground arith)

-- Each block takes its header.
pub length-span : (bs : List (Bool × ℕ)) → 16 * length bs ≤ span bs
length-span [] = omega arith
length-span ((f, n) ∷ bs) = omega (arith, length-span bs)
