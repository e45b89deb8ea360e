-- ===== src/Sh/Text.antt =====
-- Bytes in arrays, and tokens of a text, apart from any buffer.
use edan35_os_lund_univ.Common.{
  has, ℕ, suc, ◌+◌, ◌<◌, ◌≡◌, refl, ◌∙◌, Bool, ◌||◌, List, [], ◌∷◌, ◌++◌, arith, ◌==◌,
  if◌then◌else◌, length,
}

-- The array holds the bytes from an index on.
abbrev pub Holds : (ℕ → ℕ) → ℕ → List ℕ → Type 0
Holds b i [] = Unit {0}
Holds b i (c ∷ s) = (b i ≡ c) × Holds b (suc i) s

abbrev pub store : (ℕ → ℕ) → ℕ → ℕ → ℕ → ℕ
store b i c j = if j == i then c else b j

-- The array with bytes written from an index on.
abbrev pub write : (ℕ → ℕ) → ℕ → List ℕ → ℕ → ℕ
write b i [] = b
write b i (c ∷ s) = write (store b i c) (suc i) s

pub write-before : (b : ℕ → ℕ) (i : ℕ) (s : List ℕ) (j : ℕ) → j < i → write b i s j ≡ b j
write-before b i [] j l = refl
write-before b i (c ∷ s) j l = write-before (store b i c) (suc i) s j (omega arith) ∙ ground arith

pub Holds-write : (b : ℕ → ℕ) (i : ℕ) (s : List ℕ) → Holds (write b i s) i s
Holds-write b i [] = tt
Holds-write b i (c ∷ s) = (
  write-before (store b i c) (suc i) s i (omega arith) ∙ ground arith,
  Holds-write (store b i c) (suc i) s,
)

pub Holds-frame :
    (b b' : ℕ → ℕ) (i : ℕ) (s : List ℕ)
    → ((j : ℕ) → j < i + length s → b' j ≡ b j)
    → Holds b i s
    → Holds b' i s
Holds-frame b b' i [] same h = tt
Holds-frame b b' i (c ∷ s) same (e, h) =
    (same i (omega arith) ∙ e, Holds-frame b b' (suc i) s (λ j l. same j (omega arith)) h)

pub Holds-append_left : (b : ℕ → ℕ) (i : ℕ) (s t : List ℕ) → Holds b i (s ++ t) → Holds b i s
Holds-append_left b i [] t h = tt
Holds-append_left b i (c ∷ s) t (e, h) = (e, Holds-append_left b (suc i) s t h)

pub write-append :
    (b : ℕ → ℕ) (i : ℕ) (s t : List ℕ) → write b i (s ++ t) ≡ write (write b i s) (i + length s) t
write-append b i [] t = let e : i + 0 ≡ i = omega arith in rw e refl
write-append b i (c ∷ s) t =
    let e : i + suc (length s) ≡ suc i + length s = omega arith in
    rw e (write-append (store b i c) (suc i) s t)

abbrev pub is_blank : ℕ → Bool
is_blank c = (c == b' ') || (c == b'\t')

-- end_of_token of the source
abbrev pub end_of_token : ℕ → Bool
end_of_token c =
    (c == 0)
    || (c == b' ')
    || (c == b'\t')
    || (c == b'\n')
    || (c == b';')
    || (c == b'|')
    || (c == b'&')
    || (c == b'<')
    || (c == b'>')

-- The bytes that separate words, and the zero behind a line.
abbrev pub separators : List ℕ
separators = 0 ∷ b' ' ∷ b'\t' ∷ b'\n' ∷ b'<' ∷ b'>' ∷ b'|' ∷ b'&' ∷ b';' ∷ []

abbrev pub ends_word : ℕ → Bool
ends_word c = has c separators

pub end_of_token-ends_word : (c : ℕ) → end_of_token c ≡ ends_word c
end_of_token-ends_word c = ground arith

-- The bytes up to the next one that ends a token, and those from it on.
abbrev pub word : List ℕ → List ℕ
word [] = []
word (c ∷ s) = if ends_word c then [] else c ∷ word s

abbrev pub after : List ℕ → List ℕ
after [] = []
after (c ∷ s) = let rest = after s in if ends_word c then c ∷ s else rest

pub length-word : (s : List ℕ) → length (word s) + length (after s) ≡ length s
length-word [] = refl
length-word (c ∷ s) = ground (arith, length-word s)
