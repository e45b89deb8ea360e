-- ===== src/Fs/Text.antt =====
-- The C strings of lab4_fs: a path is the list of its bytes up to the terminating zero, a name in a
-- directory entry is a field of twelve bytes.
use edan35_os_lund_univ.Common.{
  ℕ, zero, suc, ◌+◌, ◌≤◌, ◌<◌, ◌≡◌, ◌≢◌, refl, ◌⊎◌, Bool, true, false, List, [], ◌∷◌, arith, ◌==◌,
  if◌then◌else◌, take, ◌↔◌,
}
use edan35_os_lund_univ.Fs.Bytes.{Block, put_byte}

-- the byte at a place of a C string: zero at its end
abbrev pub head_byte : List ℕ → ℕ
head_byte [] = 0
head_byte (c ∷ s) = c

abbrev pub tail_bytes : List ℕ → List ℕ
tail_bytes [] = []
tail_bytes (c ∷ s) = s

-- A C string holds no zero byte.
abbrev pub IsText : List ℕ → Type 0
IsText [] = Unit {0}
IsText (c ∷ s) = (c ≢ 0) × IsText s

-- strncmp(s, &b[o], n) == 0
unfoldable pub strncmp_eq : ℕ → List ℕ → Block → ℕ → Bool
strncmp_eq zero s b o = true
strncmp_eq (suc n) s b o =
    let rest = strncmp_eq n (tail_bytes s) b (suc o) in
    if head_byte s == b o then (if b o == 0 then true else rest) else false

-- strncpy(&b[o], s, n)
unfoldable pub strncpy : Block → ℕ → List ℕ → ℕ → Block
strncpy b o s zero = b
strncpy b o s (suc n) = strncpy (put_byte b o (head_byte s)) (suc o) (tail_bytes s) n

-- The text in a field of n bytes at offset o: up to the first zero, or all of it.
unfoldable pub text_at : ℕ → Block → ℕ → List ℕ
text_at zero b o = []
text_at (suc n) b o = let rest = b o ∷ text_at n b (suc o) in if b o == 0 then [] else rest

-- strncmp compares a path with the text in the field, both cut off after n bytes.
pub strncmp_eq_iff :
    (n : ℕ) (s : List ℕ) (b : Block) (o : ℕ)
    → IsText s
    → (strncmp_eq n s b o ≡ true) ↔ (take n s ≡ text_at n b o)
unfolding strncmp_eq text_at
strncmp_eq_iff zero s b o t = (λ _. refl, λ _. refl)
strncmp_eq_iff (suc n) [] b o t = (λ h. ground arith, λ h. ground arith)
strncmp_eq_iff (suc n) (c ∷ s) b o (ne, t) =
    let ih = strncmp_eq_iff n s b (suc o) t in
    (λ h. ground (arith, ih.0), λ h. ground (arith, ih.1))

-- After strncpy the field holds the string, cut off after n bytes, and the bytes around it are as
-- before.
pub strncpy-outside :
    (b : Block) (o : ℕ) (s : List ℕ) (n j : ℕ) → (j < o) ⊎ (o + n ≤ j) → strncpy b o s n j ≡ b j
unfolding strncpy put_byte
strncpy-outside b o s zero j h = refl
strncpy-outside b o s (suc n) j h =
    ground (arith, strncpy-outside (put_byte b o (head_byte s)) (suc o) (tail_bytes s) n j)

pub text_at-cong :
    (n : ℕ) (b c : Block) (o : ℕ)
    → ((j : ℕ) → o ≤ j → j < o + n → b j ≡ c j)
    → text_at n b o ≡ text_at n c o
unfolding text_at
text_at-cong zero b c o h = refl
text_at-cong (suc n) b c o h = ground (
  arith,
  h o (omega arith) (omega arith),
  text_at-cong n b c (suc o) (λ j p q. h j (omega arith) (omega arith)),
)

pub text_at-strncpy :
    (n : ℕ) (s : List ℕ) (b : Block) (o : ℕ) → IsText s → text_at n (strncpy b o s n) o ≡ take n s
unfolding text_at strncpy put_byte
text_at-strncpy zero s b o t = refl
text_at-strncpy (suc n) [] b o t = ground (arith, strncpy-outside (put_byte b o 0) (suc o) [] n o)
text_at-strncpy (suc n) (c ∷ s) b o (ne, t) = ground (
  arith,
  strncpy-outside (put_byte b o c) (suc o) s n o,
  text_at-strncpy n s (put_byte b o c) (suc o) t,
)

pub strncmp_eq-cong :
    (n : ℕ) (s : List ℕ) (b c : Block) (o : ℕ)
    → ((j : ℕ) → o ≤ j → j < o + n → b j ≡ c j)
    → strncmp_eq n s b o ≡ strncmp_eq n s c o
unfolding strncmp_eq
strncmp_eq-cong zero s b c o h = refl
strncmp_eq-cong (suc n) s b c o h = ground (
  arith,
  h o (omega arith) (omega arith),
  strncmp_eq-cong n (tail_bytes s) b c (suc o) (λ j p q. h j (omega arith) (omega arith)),
)
