-- ===== src/Fs/Chain.antt =====
-- A linked list of block numbers, as the block map holds one for each file and one for the free
-- blocks: `next` is the map, the list ends where `stop` is reached.
use edan35_os_lund_univ.Common.{
  ℕ, suc, ◌≤◌, ◌<◌, ◌≡◌, ◌≢◌, refl, sym, ◌⊎◌, true, false, List, [], ◌∷◌, ◌++◌, arith, has,
  has-append, length, get_or, zero, subst,
}

-- From `p` the links lead through the distinct data blocks `xs` to `stop`.
abbrev pub Leads : (ℕ → ℕ) → ℕ → ℕ → List ℕ → Type 0
Leads next stop p [] = p ≡ stop
Leads next stop p (x ∷ xs) =
    (p ≡ x) × (2 ≤ x) × (x < 10) × (has x xs ≡ false) × Leads next stop (next x) xs

module _ (next : ℕ → ℕ) (stop : ℕ) where
  pub Leads-frame :
      (next' : ℕ → ℕ) (p : ℕ) (xs : List ℕ)
      → ((x : ℕ) → has x xs ≡ true → next' x ≡ next x)
      → Leads next stop p xs
      → Leads next' stop p xs
  Leads-frame next' p [] same l = l
  Leads-frame next' p (x ∷ xs) same (e, lo, hi, out, l) = (
    e,
    lo,
    hi,
    out,
    rw (same x (ground arith)) (Leads-frame next' (next x) xs (λ y i. same y (ground arith)) l),
  )

  pub Leads-bounded : (p : ℕ) (xs : List ℕ) → stop < 65536 → Leads next stop p xs → p < 65536
  Leads-bounded p [] s l = omega arith
  Leads-bounded p (x ∷ xs) s l = omega arith

  pub Leads-mem :
      (p x : ℕ) (xs : List ℕ) → Leads next stop p xs → has x xs ≡ true → (2 ≤ x) × (x < 10)
  Leads-mem p x [] l i = cc
  Leads-mem p x (y ∷ xs) (e, lo, hi, out, l) i = ground (arith, Leads-mem (next y) x xs l)

  -- A link out of the chain's blocks stays in the chain or ends it.
  pub Leads-next :
      (p x : ℕ) (xs : List ℕ)
      → Leads next stop p xs
      → has x xs ≡ true
      → (next x ≡ stop) ⊎ (has (next x) xs ≡ true)
  Leads-next p x [] l i = cc
  Leads-next p x (y ∷ []) l i = ground arith
  Leads-next p x (y ∷ z ∷ xs) (e, lo, hi, out, l) i =
      ground (arith, Leads-next (next y) x (z ∷ xs) l)

  -- A block behind the last one: only the two links at the end change.
  pub Leads-extend :
      (next' : ℕ → ℕ) (p k y : ℕ) (xs : List ℕ)
      → 10 ≤ stop ⊎ stop < 2
      → Leads next stop p xs
      → has k xs ≡ true
      → next k ≡ stop
      → 2 ≤ y
      → y < 10
      → has y xs ≡ false
      → next' k ≡ y
      → next' y ≡ stop
      → ((x : ℕ) → has x xs ≡ true → x ≢ k → next' x ≡ next x)
      → Leads next' stop p (xs ++ y ∷ [])
  Leads-extend next' p k y [] far l i end lo hi out e f same = cc
  Leads-extend next' p k y (x ∷ []) far l i end lo hi out e f same = ground arith
  Leads-extend next' p k y (x ∷ z ∷ xs) far (q, lo', hi', fresh, l) i end lo hi out e f same =
      let before : x ≢ k = ground (arith, l) in
      (
        q,
        lo',
        hi',
        rw (has-append x (z ∷ xs) (y ∷ [])) (ground arith),
        rw (same x (ground arith) before) (
            Leads-extend next' (next x) k y (z ∷ xs) far l (ground arith) end lo hi (ground arith) e
              f (λ w j ne. same w (ground arith) ne)),
      )

  pub Leads-first : (p : ℕ) (xs : List ℕ) → Leads next stop p xs → get_or xs 0 stop ≡ p
  Leads-first p [] l = sym l
  Leads-first p (x ∷ xs) l = sym l.0

  -- The link of the block at place i is the block at the next place.
  pub Leads-get_or :
      (p i : ℕ) (xs : List ℕ)
      → Leads next stop p xs
      → i < length xs
      → next (get_or xs i stop) ≡ get_or xs (suc i) stop
  Leads-get_or p i [] l h = elim h [ ]
  Leads-get_or p zero (x ∷ xs) (e, lo, hi, out, l) h = sym (Leads-first (next x) xs l)
  Leads-get_or p (suc i) (x ∷ xs) (e, lo, hi, out, l) h = Leads-get_or (next x) i xs l (omega arith)

  pub Leads-has_first :
      (p : ℕ) (xs : List ℕ) → Leads next stop p xs → 0 < length xs → has p xs ≡ true
  Leads-has_first p [] l h = elim h [ ]
  Leads-has_first p (x ∷ xs) l h = ground (arith, l.0)

  -- A map leads to one list alone.
  pub Leads-unique :
      (p : ℕ) (xs ys : List ℕ)
      → 10 ≤ stop ⊎ stop < 2
      → Leads next stop p xs
      → Leads next stop p ys
      → xs ≡ ys
  Leads-unique p [] [] far l k = refl
  Leads-unique p [] (y ∷ ys) far l k = absurd (omega arith)
  Leads-unique p (x ∷ xs) [] far l k = absurd (omega arith)
  Leads-unique p (x ∷ xs) (y ∷ ys) far l k =
      let same : x ≡ y = omega arith in
      ground (
        arith,
        same,
        Leads-unique (next x) xs ys far l.4
            (subst (λ z. Leads next stop (next z) ys) (sym same) k.4),
      )
