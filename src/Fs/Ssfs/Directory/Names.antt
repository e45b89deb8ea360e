-- ===== src/Fs/Ssfs/Directory/Names.antt =====
-- The names that do_readdir lists, next to the entry that find_dir_entry finds for a name.
use edan35_os_lund_univ.Common.{
  ℕ, zero, suc, ◌+◌, ◌*◌, ◌≤◌, ◌<◌, ◌≡◌, ◌⊎◌, inl, inr, refl, sym, subst, ◌∙◌, ap, List, [], ◌∷◌,
  none, some, arith, ◌==◌, length, take, false, Bool-cases, le_or_lt,
}
use edan35_os_lund_univ.Fs.Bytes.{Block, Same}
use edan35_os_lund_univ.Fs.Layout.{dir_entry_is_empty}
use edan35_os_lund_univ.Fs.Text.{text_at, text_at-cong}
use edan35_os_lund_univ.Fs.Support.Lookup.{IsUsed, entry_name, Finds}
use edan35_os_lund_univ.Fs.Ssfs.{list_loop}

-- Whether a name is among names.
abbrev pub Among : List ℕ → List (List ℕ) → Type 0
Among name [] = ⊥
Among name (x ∷ xs) = (name ≡ x) ⊎ Among name xs

-- Entries 0 to k are in use, and k has the name in its first eleven bytes.
abbrev pub Lists : List ℕ → Block → ℕ → Type 0
Lists name d k = (k < 16) × ((j : ℕ) → j ≤ k → IsUsed d j) × (text_at 11 d (32 * k) ≡ name)

pub list_loop-Among :
    (n : ℕ) (d : Block) (i k : ℕ) (name : List ℕ)
    → i + n ≡ 16
    → i ≤ k
    → Lists name d k
    → Among name (list_loop n d i)
unfolding list_loop
list_loop-Among zero d i k name e le (small, used, named) = absurd (omega (arith))
list_loop-Among (suc n) d i k name e le (small, used, named) =
    let u = used i le in
    let here : dir_entry_is_empty d i ≡ false = ground (arith, u) in
    elim (Bool-cases (i == k)) [
      | inl same ↦
          let at : i ≡ k = ground (arith, same) in
          rw here (inl (sym named ∙ ap (λ k. text_at 11 d (32 * k)) (sym at)))
      | inr other ↦ rw here (
          inr (
            list_loop-Among n d (suc i) k name (omega arith) (ground (arith, other, le))
              (small, used, named)))
    ]

pub Among-list_loop :
    (n : ℕ) (d : Block) (i : ℕ) (name : List ℕ)
    → i + n ≡ 16
    → ((j : ℕ) → j < i → IsUsed d j)
    → Among name (list_loop n d i)
    → (k : ℕ) × Lists name d k
unfolding list_loop
Among-list_loop zero d i name e before m = absurd m
Among-list_loop (suc n) d i name e before m = elim (Bool-cases (dir_entry_is_empty d i)) [
  | inl empty ↦ absurd (rw empty at m)
  | inr used ↦
      let u : IsUsed d i = ground (arith, used) in
      let upto : (j : ℕ) → j ≤ i → IsUsed d j = λ j l. elim (Bool-cases (j == i)) [
        | inl same ↦ ground arith
        | inr other ↦ before j (ground arith)
      ] in
      let here_or_later : (name ≡ text_at 11 d (32 * i)) ⊎ Among name (list_loop n d (suc i)) =
        rw used at m in
      elim here_or_later [
        | inl here ↦ (i, (omega arith, upto, sym here))
        | inr later ↦
            Among-list_loop n d (suc i) name (omega arith) (λ j l. upto j (omega arith)) later
      ]
]

-- A text that does not fill its field is the text of the field without its last byte.
pub text_at-short :
    (n : ℕ) (d : Block) (o : ℕ)
    → length (text_at (suc n) d o) ≤ n
    → text_at n d o ≡ text_at (suc n) d o
unfolding text_at
text_at-short zero d o short = ground (arith, short)
text_at-short (suc n) d o short = elim (Bool-cases (d o == 0)) [
  | inl end ↦ rw end refl
  | inr more ↦
      let short' : suc (length (text_at (suc n) d (suc o))) ≤ suc n = rw more at short in
      rw more (ap (λ s. d o ∷ s) (text_at-short n d (suc o) (omega arith)))
]

pub take_short : (n : ℕ) (s : List ℕ) → length s ≤ n → take n s ≡ s
take_short zero [] l = refl
take_short zero (c ∷ s) l = absurd (omega arith)
take_short (suc n) [] l = refl
take_short (suc n) (c ∷ s) l = ap (λ t. c ∷ t) (take_short n s (omega arith))

pub take_cut : (n : ℕ) (s : List ℕ) → length (take n s) < n → take n s ≡ s
take_cut zero s l = absurd (omega arith)
take_cut (suc n) [] l = refl
take_cut (suc n) (c ∷ s) l = ap (λ t. c ∷ t) (take_cut n s (omega arith))

-- Every name in use leaves the last byte of its field free.
abbrev pub ShortNames : Block → Type 0
ShortNames d = (k : ℕ) → k < 16 → IsUsed d k → length (entry_name d k) ≤ 11

-- The name that is listed for an entry is the entry's name.
pub short_name :
    (d : Block) (k : ℕ)
    → ShortNames d
    → k < 16
    → IsUsed d k
    → text_at 11 d (32 * k) ≡ entry_name d k
short_name d k short l u = text_at-short 11 d (32 * k) (short k l u)

pub found-Lists :
    (d : Block) (name : List ℕ) (k : ℕ)
    → ShortNames d
    → Finds (take 12 name) d (some k)
    → Lists name d k
found-Lists d name k short (l, u, named, before) =
    let t = short k l u in
    let cut : length (take 12 name) ≤ 11 = subst (λ s. length s ≤ 11) named t in
    let whole : take 12 name ≡ name = take_cut 12 name (omega (arith, cut)) in
    (
      l,
      λ j le. elim (Bool-cases (j == k)) [
        | inl same ↦ let at : j ≡ k = ground (arith, same) in rw at u
        | inr other ↦ (before j (ground (arith, other, le))).0
      ],
      short_name d k short l u ∙ named ∙ whole,
    )

pub not_found-Lists :
    (d : Block) (name : List ℕ) (k : ℕ)
    → ShortNames d
    → Finds (take 12 name) d none
    → ¬ (Lists name d k)
not_found-Lists d name k short (n, le, before, end) (l, used, named) =
    let u = used k (omega arith) in
    let name_here : entry_name d k ≡ name = sym (short_name d k short l u) ∙ named in
    let whole : take 12 name ≡ name =
      take_short 12 name
        (subst (λ s. length s ≤ 12) name_here (let t = short k l u in omega (arith, t))) in
    elim (le_or_lt n k) [
      | inl behind ↦ elim end [
        | inl all ↦ absurd (omega (arith, all))
        | inr empty ↦ absurd (used n behind empty)
      ]
      | inr in_front ↦ absurd ((before k in_front).1 (name_here ∙ sym whole))
    ]

pub Lists-Same : (b d : Block) (name : List ℕ) (k : ℕ) → Same b d → Lists name b k → Lists name d k
Lists-Same b d name k same (l, used, named) = (
  l,
  λ j le z. used j le (same (32 * j) (omega arith) ∙ z),
  text_at-cong 11 d b (32 * k) (λ j p q. sym (same j (omega arith))) ∙ named,
)
