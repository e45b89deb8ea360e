-- ===== src/Sh/SearchPath/Strings.antt =====
-- Directories joined by colons, and the strings that their pieces become.
use edan35_os_lund_univ.Common.{
  ℕ, zero, suc, ◌+◌, ◌≤◌, ◌<◌, ◌≡◌, refl, sym, ap, subst, ◌∙◌, Bool, true, not, ◌&&◌, some, List,
  [], ◌∷◌, ◌++◌, map, arith, ◌==◌, ◌||◌, length, length-append,
}
use edan35_os_lund_univ.Sh.Text.{Holds, Holds-frame, store}
use edan35_os_lund_univ.Sh.SearchPath.{find_end}

-- A directory of PATH has no colon and no zero.
abbrev pub name : List ℕ → Bool
name [] = true
name (c ∷ w) = not (c == b':') && not (c == 0) && name w

abbrev pub join : List ℕ → List (List ℕ) → List ℕ
join w [] = w
join w (v ∷ ws) = w ++ b':' ∷ join v ws

abbrev pub AllNames : List (List ℕ) → Type 0
AllNames [] = Unit {0}
AllNames (w ∷ ws) = (name w ≡ true) × AllNames ws

-- The strings at the pointers, in the bytes below `lim`.
abbrev pub Strings : (ℕ → ℕ) → ℕ → List ℕ → List (List ℕ) → Type 0
Strings b lim [] [] = Unit {0}
Strings b lim [] (w ∷ ws) = ⊥
Strings b lim (p ∷ ps) [] = ⊥
Strings b lim (p ∷ ps) (w ∷ ws) =
    (Holds b p (w ++ 0 ∷ []) × (p + length w < lim)) × Strings b lim ps ws

-- Bytes from a place on, when only bytes below it change.
pub Holds-after :
    (b b' : ℕ → ℕ) (i : ℕ) (s : List ℕ)
    → ((j : ℕ) → i ≤ j → b' j ≡ b j)
    → Holds b i s
    → Holds b' i s
Holds-after b b' i [] same h = tt
Holds-after b b' i (c ∷ s) same (e, h) =
    (same i (omega arith) ∙ e, Holds-after b b' (suc i) s (λ j l. same j (omega arith)) h)

pub find_end-name :
    (fuel : ℕ) (b : ℕ → ℕ) (d : ℕ) (w : List ℕ) (c : ℕ) (r : List ℕ)
    → Holds b d (w ++ c ∷ r)
    → name w ≡ true
    → ((c == b':') || (c == 0)) ≡ true
    → length w < fuel
    → find_end fuel b d ≡ some (d + length w)
unfolding find_end
find_end-name zero b d w c r h n e enough = absurd (omega arith)
find_end-name (suc fuel) b d [] c r (at, h) n e enough =
    let here : d + 0 ≡ d = omega arith in rw (here, at) (ground (arith, e))
find_end-name (suc fuel) b d (x ∷ w) c r (at, h) n e enough =
    let up : d + suc (length w) ≡ suc d + length w = omega arith in
    let rest = find_end-name fuel b (suc d) w c r h (ground (arith, n)) e (omega arith) in
    rw (up, at) (ground (arith, n, rest))

pub Strings-frame :
    (b b' : ℕ → ℕ) (lim lim' : ℕ) (ps : List ℕ) (ws : List (List ℕ))
    → ((j : ℕ) → j < lim → b' j ≡ b j)
    → lim ≤ lim'
    → Strings b lim ps ws
    → Strings b' lim' ps ws
Strings-frame b b' lim lim' [] [] same l h = tt
Strings-frame b b' lim lim' [] (w ∷ ws) same l h = absurd h
Strings-frame b b' lim lim' (p ∷ ps) [] same l h = absurd h
Strings-frame b b' lim lim' (p ∷ ps) (w ∷ ws) same l ((h, below), t) =
    let len = length-append w (0 ∷ []) in
    (
      (Holds-frame b b' p (w ++ 0 ∷ []) (λ j i. same j (omega (arith, len))) h, omega arith),
      Strings-frame b b' lim lim' ps ws same l t,
    )

pub Strings-concat :
    (b : ℕ → ℕ) (lim : ℕ) (ps : List ℕ) (ws : List (List ℕ)) (p : ℕ) (w : List ℕ)
    → Strings b lim ps ws
    → Holds b p (w ++ 0 ∷ [])
    → p + length w < lim
    → Strings b lim (ps ++ p ∷ []) (ws ++ w ∷ [])
Strings-concat b lim [] [] p w t h l = ((h, l), tt)
Strings-concat b lim [] (v ∷ ws) p w t h l = absurd t
Strings-concat b lim (q ∷ ps) [] p w t h l = absurd t
Strings-concat b lim (q ∷ ps) (v ∷ ws) p w (g, t) h l = (g, Strings-concat b lim ps ws p w t h l)

pub map-concat : (g : ℕ → ℕ) (xs : List ℕ) (y : ℕ) → map g (xs ++ y ∷ []) ≡ map g xs ++ g y ∷ []
map-concat g [] y = refl
map-concat g (x ∷ xs) y = ap (λ l. g x ∷ l) (map-concat g xs y)

-- The string up to a byte that is cleared, and what is behind that byte.
pub cut :
    (b : ℕ → ℕ) (d : ℕ) (w : List ℕ) (c : ℕ) (r : List ℕ)
    → Holds b d (w ++ c ∷ r)
    → (b (d + length w) ≡ c)
      × Holds (store b (d + length w) 0) d (w ++ 0 ∷ [])
      × Holds (store b (d + length w) 0) (suc (d + length w)) r
cut b d [] c r (at, h) =
    let here : d + 0 ≡ d = omega arith in
    (
      rw here at,
      (rw here (ground arith), tt),
      rw here (Holds-after b (store b d 0) (suc d) r (λ j l. ground arith) h),
    )
cut b d (x ∷ w) c r (at, h) =
    let up : d + suc (length w) ≡ suc d + length w = omega arith in
    let (e, front, back) = cut b (suc d) w c r h in
    (
      rw up e,
      (ground (arith, at), subst (λ n. Holds (store b n 0) (suc d) (w ++ 0 ∷ [])) (sym up) front),
      subst (λ n. Holds (store b n 0) (suc n) r) (sym up) back,
    )
