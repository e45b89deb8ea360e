-- ===== src/Fs/Support/Lookup.antt =====
-- The searches of the directory: find_dir_entry and first_empty_dir_entry of fs_support.c.
use edan35_os_lund_univ.Common.{
  ℕ, zero, suc, ◌+◌, ◌*◌, ◌≤◌, ◌<◌, ◌≡◌, ◌≢◌, ◌↔◌, ◌⊎◌, inl, inr, true, false, Option, none, some,
  List, arith, ◌==◌, take, ◌||◌, if◌then◌else◌, Bool-cases, refl, sym,
}
use edan35_os_lund_univ.Fs.Bytes.{Block}
use edan35_os_lund_univ.Fs.Layout.{name_at, dir_entry_is_empty}
use edan35_os_lund_univ.Fs.Text.{IsText, strncmp_eq, text_at, strncmp_eq_iff}
use edan35_os_lund_univ.Fs.Support.{find_loop, find_dir_entry, empty_loop, first_empty_dir_entry}

-- Entry k is in use; its name.
abbrev pub IsUsed : Block → ℕ → Type 0
IsUsed d k = d (32 * k) ≢ 0

abbrev pub entry_name : Block → ℕ → List ℕ
entry_name d k = text_at 12 d (32 * k)

-- Entries 0 to k - 1 are in use, and none of them has the name.
abbrev pub NoneBefore : List ℕ → Block → ℕ → Type 0
NoneBefore name d k = (j : ℕ) → j < k → IsUsed d j × (entry_name d j ≢ name)

-- What a search for a name gives: the first entry that has it, where the used entries in front
-- of the first empty one have it, or nothing where they do not.
abbrev pub Finds : List ℕ → Block → Option ℕ → Type 0
Finds name d none = (k : ℕ) × (k ≤ 16) × NoneBefore name d k × ((k ≡ 16) ⊎ (d (32 * k) ≡ 0))
Finds name d (some k) = (k < 16) × IsUsed d k × (entry_name d k ≡ name) × NoneBefore name d k

abbrev Stops : List ℕ → Block → ℕ → Type 0
Stops path d r = (r ≡ 16) ⊎ (d (32 * r) ≡ 0) ⊎ (strncmp_eq 12 path d (32 * r) ≡ true)

find_loop-Stops :
    (n : ℕ) (path : List ℕ) (d : Block) (di : ℕ)
    → di + n ≡ 16
    → ((j : ℕ) → j < di → IsUsed d j × (strncmp_eq 12 path d (32 * j) ≡ false))
    → let r = find_loop n path d di in
      (r ≤ 16)
      × ((j : ℕ) → j < r → IsUsed d j × (strncmp_eq 12 path d (32 * j) ≡ false))
      × Stops path d r
unfolding find_loop
find_loop-Stops zero path d di e h = (omega arith, h, inl (omega arith))
find_loop-Stops (suc n) path d di e h =
    elim (Bool-cases (dir_entry_is_empty d di || strncmp_eq 12 path d (name_at di))) [
      | inl stop ↦ rw stop (omega arith, h, ground arith)
      | inr go ↦ rw go (
          find_loop-Stops n path d (suc di) (omega arith) (λ j l. elim (Bool-cases (j == di)) [
            | inl same ↦ ground arith
            | inr other ↦ h j (ground arith)
          ]))
    ]

named :
    (path : List ℕ) (d : Block) (k : ℕ)
    → IsText path
    → (strncmp_eq 12 path d (32 * k) ≡ true) ↔ (entry_name d k ≡ take 12 path)
named path d k t = (
  λ h. sym ((strncmp_eq_iff 12 path d (32 * k) t).0 h),
  λ h. (strncmp_eq_iff 12 path d (32 * k) t).1 (sym h),
)

not_named :
    (path : List ℕ) (d : Block) (k : ℕ)
    → IsText path
    → strncmp_eq 12 path d (32 * k) ≡ false
    → entry_name d k ≢ take 12 path
not_named path d k t h e = ground (arith, (named path d k t).1 e)

Stops-Finds :
    (path : List ℕ) (d : Block) (r : ℕ)
    → IsText path
    → (r ≤ 16)
    → ((j : ℕ) → j < r → IsUsed d j × (strncmp_eq 12 path d (32 * j) ≡ false))
    → Stops path d r
    → Finds (take 12 path) d (if (r == 16) || dir_entry_is_empty d r then none else some r)
Stops-Finds path d r t le h s = elim (Bool-cases ((r == 16) || dir_entry_is_empty d r)) [
  | inl missing ↦ rw missing (r, le, before, ground arith)
  | inr found ↦ rw found (ground arith, ground arith, (named path d r t).0 (ground arith), before)
]
  where
    before : NoneBefore (take 12 path) d r
    before j l = let (used, differ) = h j l in (used, not_named path d j t differ)

-- find_dir_entry searches correctly: it returns the first used entry whose name is the path's
-- first twelve bytes, if the entries in front of the first empty one include such an entry, and -1
-- exactly where none of them has that name.
pub find_dir_entry-Finds :
    (path : List ℕ) (d : Block) → IsText path → Finds (take 12 path) d (find_dir_entry path d)
unfolding find_dir_entry
find_dir_entry-Finds path d t =
    let (le, before, stop) = find_loop-Stops 16 path d 0 refl (λ j l. absurd (omega arith)) in
    Stops-Finds path d (find_loop 16 path d 0) t le before stop

-- What a search for an empty entry gives.
abbrev pub FindsEmpty : Block → Option ℕ → Type 0
FindsEmpty d none = (j : ℕ) → j < 16 → IsUsed d j
FindsEmpty d (some k) = (k < 16) × (d (32 * k) ≡ 0) × ((j : ℕ) → j < k → IsUsed d j)

empty_loop_lem :
    (n : ℕ) (d : Block) (di : ℕ)
    → di + n ≡ 16
    → ((j : ℕ) → j < di → IsUsed d j)
    → let r = empty_loop n d di in
      (r ≤ 16) × ((j : ℕ) → j < r → IsUsed d j) × ((r ≡ 16) ⊎ (d (32 * r) ≡ 0))
unfolding empty_loop
empty_loop_lem zero d di e h = (omega arith, h, inl (omega arith))
empty_loop_lem (suc n) d di e h = elim (Bool-cases (dir_entry_is_empty d di)) [
  | inl stop ↦ rw stop (omega arith, h, ground arith)
  | inr go ↦ rw go (
      empty_loop_lem n d (suc di) (omega arith) (λ j l. elim (Bool-cases (j == di)) [
        | inl same ↦ ground arith
        | inr other ↦ h j (ground arith)
      ]))
]

-- first_empty_dir_entry returns the first empty entry, and -1 exactly where all sixteen are in use.
pub first_empty_dir_entry-FindsEmpty : (d : Block) → FindsEmpty d (first_empty_dir_entry d)
unfolding first_empty_dir_entry
first_empty_dir_entry-FindsEmpty d =
    let (le, before, stop) = empty_loop_lem 16 d 0 refl (λ j l. absurd (omega arith)) in
    elim (Bool-cases (empty_loop 16 d 0 == 16)) [
      | inl full ↦ rw full (λ j l. before j (ground arith))
      | inr room ↦ rw room (ground arith, ground arith, before)
    ]
