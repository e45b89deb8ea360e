-- ===== src/Mm/Merge.antt =====
-- merge_blocks against joining neighbours in a plain list.
use edan35_os_lund_univ.Common.{
  ℕ, zero, suc, ◌+◌, ◌<◌, ◌≡◌, refl, subst, ◌∙◌, Bool, true, false, not, ◌&&◌, some, List, [], ◌∷◌,
  ◌++◌, arith, if◌then◌else◌, length,
}
use edan35_os_lund_univ.Mm.{Store, put_header, merge_step, merge_loop, merge_blocks}
use edan35_os_lund_univ.Mm.Layout.{Blocks, Blocks-span, Blocks-frame, Blocks-append, length-span}

-- Neighbours that are free become one block, which takes the second header into its data.
abbrev pub gather : Bool → ℕ → List (Bool × ℕ) → List (Bool × ℕ)
gather f n [] = (f, n) ∷ []
gather f n ((g, k) ∷ bs) = if f && g then gather f (n + 16 + k) bs else (f, n) ∷ gather g k bs

abbrev pub coalesce : List (Bool × ℕ) → List (Bool × ℕ)
coalesce [] = []
coalesce ((f, n) ∷ bs) = gather f n bs

-- Whether no two neighbours are free.
abbrev pub apart : List (Bool × ℕ) → Bool
apart [] = true
apart ((f, n) ∷ []) = true
apart ((f, n) ∷ (g, k) ∷ bs) = not (f && g) && apart ((g, k) ∷ bs)

-- The used blocks with their addresses and sizes.
abbrev pub used_blocks : ℕ → List (Bool × ℕ) → List (ℕ × ℕ)
used_blocks p [] = []
used_blocks p ((true, n) ∷ bs) = used_blocks (p + 16 + n) bs
used_blocks p ((false, n) ∷ bs) = (p, n) ∷ used_blocks (p + 16 + n) bs

-- What `gather` makes starts with a block of the flag it was given.
gather-apart :
    (f : Bool) (n : ℕ) (bs : List (Bool × ℕ))
    → (apart (gather f n bs) ≡ true)
      × ((g : Bool) (m : ℕ) → (f && g) ≡ false → apart ((g, m) ∷ gather f n bs) ≡ true)
gather-apart f n [] = (refl, λ g m e. ground arith)
gather-apart true n ((true, k) ∷ bs) = gather-apart true (n + 16 + k) bs
gather-apart true n ((false, k) ∷ bs) =
    let rest = (gather-apart false k bs).1 true n refl in (rest, λ g m e. ground (arith, rest))
gather-apart false n ((g, k) ∷ bs) =
    let rest = (gather-apart g k bs).1 false n (ground arith) in
    (rest, λ g' m e. ground (arith, rest))

gather-used_blocks :
    (p : ℕ) (f : Bool) (n : ℕ) (bs : List (Bool × ℕ))
    → used_blocks p (gather f n bs) ≡ used_blocks p ((f, n) ∷ bs)
gather-used_blocks p true n [] = refl
gather-used_blocks p false n [] = refl
gather-used_blocks p true n ((true, k) ∷ bs) =
    let shift : p + 16 + (n + 16 + k) ≡ p + 16 + n + 16 + k = omega arith in
    rw (gather-used_blocks p true (n + 16 + k) bs, shift) refl
gather-used_blocks p true n ((false, k) ∷ bs) = gather-used_blocks (p + 16 + n) false k bs
gather-used_blocks p false n ((g, k) ∷ bs) = rw (gather-used_blocks (p + 16 + n) g k bs) refl

merge_loop-move :
    (fuel : ℕ) (h : Store) (p last : ℕ) (f : Bool) (n : ℕ) (g : Bool) (k : ℕ) (bs : List (Bool × ℕ))
    → Blocks h p last ((f, n) ∷ (g, k) ∷ bs)
    → (f && g) ≡ false
    → merge_loop (suc fuel) h p last ≡ merge_loop fuel h (p + 16 + n) last
unfolding merge_loop merge_step
merge_loop-move fuel h p last f n g k bs b e =
    let whole = Blocks-span h (p + 16 + n) last ((g, k) ∷ bs) b.2 in
    let step : merge_step h p ≡ (h, p + 16 + n) = rw (b.0, b.1, b.2.0, e) refl in
    rw step (ground (arith, b.1))

merge_loop-join :
    (fuel : ℕ) (h : Store) (p last n k : ℕ) (bs : List (Bool × ℕ))
    → Blocks h p last ((true, n) ∷ (true, k) ∷ bs)
    → merge_loop (suc fuel) h p last
      ≡ merge_loop fuel
          (put_header h p (record { is_free = true; next = p + 16 + (n + 16 + k) }))
          p
          last
unfolding merge_loop merge_step
merge_loop-join fuel h p last n k bs b =
    let whole = Blocks-span h (p + 16 + n) last ((true, k) ∷ bs) b.2 in
    let shift : p + 16 + (n + 16 + k) ≡ p + 16 + n + 16 + k = omega arith in
    let step : merge_step h p
        ≡ (put_header h p (record { is_free = true; next = p + 16 + n + 16 + k }), p) =
      rw (b.0, b.1, b.2.0, b.2.1) refl in
    rw (step, shift) (ground (arith, b.1))

joined-Blocks :
    (h : Store) (p last n k : ℕ) (bs : List (Bool × ℕ))
    → Blocks h p last ((true, n) ∷ (true, k) ∷ bs)
    → Blocks
        (put_header h p (record { is_free = true; next = p + 16 + (n + 16 + k) }))
        p
        last
        ((true, n + 16 + k) ∷ bs)
joined-Blocks h p last n k bs b =
    let h' : Store = put_header h p (record { is_free = true; next = p + 16 + (n + 16 + k) }) in
    let shift : p + 16 + n + 16 + k ≡ p + 16 + (n + 16 + k) = omega arith in
    (
      ground arith,
      ground arith,
      Blocks-frame h h' (p + 16 + (n + 16 + k)) last bs (λ a l u. ground arith)
          (subst (λ a. Blocks h a last bs) shift b.2.2),
    )

-- A round that goes on to the next block.
merge_loop-next :
    (fuel : ℕ) (h : Store) (p last : ℕ) (f : Bool) (n : ℕ) (g : Bool) (k : ℕ) (bs : List (Bool × ℕ))
    → Blocks h p last ((f, n) ∷ (g, k) ∷ bs)
    → (f && g) ≡ false
    → (h' : Store) × (merge_loop fuel h (p + 16 + n) last ≡ some h')
      × Blocks h' (p + 16 + n) last (gather g k bs)
      × ((a : ℕ) → a < p + 16 + n → h' a ≡ h a)
    → (h' : Store) × (merge_loop (suc fuel) h p last ≡ some h')
      × Blocks h' p last ((f, n) ∷ gather g k bs)
      × ((a : ℕ) → a < p → h' a ≡ h a)
merge_loop-next fuel h p last f n g k bs b e (h', run, b', same) =
    let here = same p (omega arith) in
    (
      h',
      merge_loop-move fuel h p last f n g k bs b e ∙ run,
      (rw here b.0, rw here b.1, b'),
      λ a l. same a (omega arith),
    )

-- The loop from a block on: it ends and joins the rest of the list. Headers below are kept.
pub merge_loop-gather :
    (fuel : ℕ) (h : Store) (p last : ℕ) (f : Bool) (n : ℕ) (bs : List (Bool × ℕ))
    → Blocks h p last ((f, n) ∷ bs)
    → length bs < fuel
    → (h' : Store) × (merge_loop fuel h p last ≡ some h')
      × Blocks h' p last (gather f n bs)
      × ((a : ℕ) → a < p → h' a ≡ h a)
unfolding merge_loop
merge_loop-gather zero h p last f n bs b enough = absurd (omega arith)
merge_loop-gather (suc fuel) h p last f n [] b enough = (h, ground arith, b, λ a l. refl)
merge_loop-gather (suc fuel) h p last true n ((true, k) ∷ bs) b enough =
    let joined : Store = put_header h p (record { is_free = true; next = p + 16 + (n + 16 + k) }) in
    let kept : (a : ℕ) → a < p → joined a ≡ h a = λ a l. ground arith in
    let (h', run, b', same) =
      merge_loop-gather fuel joined p last true (n + 16 + k) bs (joined-Blocks h p last n k bs b)
        (omega arith) in
    (h', merge_loop-join fuel h p last n k bs b ∙ run, b', λ a l. same a l ∙ kept a l)
merge_loop-gather (suc fuel) h p last true n ((false, k) ∷ bs) b enough =
    merge_loop-next fuel h p last true n false k bs b refl
      (merge_loop-gather fuel h (p + 16 + n) last false k bs b.2 (omega arith))
merge_loop-gather (suc fuel) h p last false n ((g, k) ∷ bs) b enough =
    merge_loop-next fuel h p last false n g k bs b refl
      (merge_loop-gather fuel h (p + 16 + n) last g k bs b.2 (omega arith))

-- merge_blocks from a block `p` of the list on ends. It leaves the blocks before `p` and joins
-- the others as `coalesce` does: no two of them are free neighbours then, and the used ones
-- are where they were, with the same sizes.
pub merge_blocks-Coalesces :
    (h : Store) (first p last : ℕ) (pre bs : List (Bool × ℕ))
    → Blocks h first p pre
    → Blocks h p last bs
    → 0 < p
    → (h' : Store) × (merge_blocks h p last ≡ some h')
      × Blocks h' first last (pre ++ coalesce bs)
      × (apart (coalesce bs) ≡ true)
      × (used_blocks p (coalesce bs) ≡ used_blocks p bs)
unfolding merge_blocks
merge_blocks-Coalesces h first p last pre [] before b pos =
    (h, ground arith, Blocks-append h first p last pre [] before b, refl, refl)
merge_blocks-Coalesces h first p last pre ((f, n) ∷ bs) before b pos =
    let whole = Blocks-span h p last ((f, n) ∷ bs) b in
    let few = length-span bs in
    let (h', run, b', same) = merge_loop-gather (suc last) h p last f n bs b (omega arith) in
    (
      h',
      ground (arith, run),
      Blocks-append h' first p last pre (gather f n bs)
          (Blocks-frame h h' first p pre (λ a l u. same a u) before) b',
      (gather-apart f n bs).0,
      gather-used_blocks p f n bs,
    )
