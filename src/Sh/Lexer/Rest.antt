-- ===== src/Sh/Lexer/Rest.antt =====
-- What is left of a text behind a token.
use edan35_os_lund_univ.Common.{
  ℕ, suc, ◌+◌, ◌-◌, ◌≤◌, ◌≡◌, true, List, [], ◌∷◌, arith, has, length, Bool-cases, ◌⊎◌, inl, inr,
}
use edan35_os_lund_univ.Sh.Text.{Holds, is_blank, ends_word, after, length-word}
use edan35_os_lund_univ.Sh.Lexer.{newline, is_normal}
use edan35_os_lund_univ.Sh.Lexer.Reads.{
  kind_of, unblank, lexeme, lex, has-unblank, length-unblank, length-lexeme, has-lexeme,
}

pub Holds-unblank :
    (b : ℕ → ℕ) (i : ℕ) (s : List ℕ)
    → Holds b i s
    → Holds b (i + (length s - length (unblank s))) (unblank s)
Holds-unblank b i [] h = tt
Holds-unblank b i (c ∷ s) (e, h) =
    let shorter = length-unblank s in
    elim (Bool-cases (is_blank c)) [
      | inl blank ↦
          let up : i + (suc (length s) - length (unblank s))
              ≡ suc i + (length s - length (unblank s)) =
            omega (arith, shorter) in
          rw (blank, up) (Holds-unblank b (suc i) s h)
      | inr other ↦
          let stay : i + (suc (length s) - suc (length s)) ≡ i = omega arith in
          rw (other, stay) (e, h)
    ]

Holds-after :
    (b : ℕ → ℕ) (i : ℕ) (s : List ℕ)
    → Holds b i s
    → Holds b (i + (length s - length (after s))) (after s)
Holds-after b i [] h = tt
Holds-after b i (c ∷ s) (e, h) =
    let shorter = length-word s in
    elim (Bool-cases (ends_word c)) [
      | inl end ↦
          let stay : i + (suc (length s) - suc (length s)) ≡ i = omega arith in
          rw (end, stay) (e, h)
      | inr more ↦
          let up : i + (suc (length s) - length (after s)) ≡ suc i + (length s - length (after s)) =
            omega (arith, shorter) in
          rw (more, up) (Holds-after b (suc i) s h)
    ]

Holds-lexeme :
    (b : ℕ → ℕ) (i c : ℕ) (s : List ℕ)
    → Holds b i (c ∷ s)
    → Holds b (i + (suc (length s) - length (lexeme (c ∷ s)).rest)) (lexeme (c ∷ s)).rest
Holds-lexeme b i c s (e, h) =
    let shorter = length-word s in
    elim (Bool-cases (is_normal (kind_of c))) [
      | inl more ↦
          let up : i + (suc (length s) - length (after s)) ≡ suc i + (length s - length (after s)) =
            omega (arith, shorter) in
          rw (more, up) (Holds-after b (suc i) s h)
      | inr single ↦
          let up : i + (suc (length s) - length s) ≡ suc i = omega arith in rw (single, up) h
    ]

-- What is left of a text after a token, in the array that holds the text.
pub Holds-lex :
    (b : ℕ → ℕ) (i : ℕ) (s : List ℕ)
    → Holds b i s
    → has b'\n' s ≡ true
    → Holds b (i + (length s - length (lex s).rest)) (lex s).rest
Holds-lex b i s h n = go (unblank s) (Holds-unblank b i s h) (length-unblank s) (has-unblank s n)
  where
    go :
        (u : List ℕ)
        → Holds b (i + (length s - length u)) u
        → length u ≤ length s
        → has b'\n' u ≡ true
        → Holds b (i + (length s - length (lexeme u).rest)) (lexeme u).rest
    go [] h' short n' = cc
    go (c ∷ u) h' short n' =
        let total = length-lexeme c u in
        let up : i + (length s - suc (length u)) + (suc (length u) - length (lexeme (c ∷ u)).rest)
            ≡ i + (length s - length (lexeme (c ∷ u)).rest) =
          omega (arith, total, short) in
        rw (← up) (Holds-lexeme b (i + (length s - suc (length u))) c u h')

-- A token has a byte at least; what is left behind it is shorter than the text, and ends the line too
-- unless the token did.
pub lex-shorter :
    (s : List ℕ)
    → has b'\n' s ≡ true
    → (length (lex s).text + length (lex s).rest ≤ length s)
      × (1 ≤ length (lex s).text)
      × (((lex s).kind ≡ newline) ⊎ (has b'\n' (lex s).rest ≡ true))
lex-shorter s n = go (unblank s) (length-unblank s) (has-unblank s n)
  where
    go :
        (u : List ℕ)
        → length u ≤ length s
        → has b'\n' u ≡ true
        → (length (lexeme u).text + length (lexeme u).rest ≤ length s)
          × (1 ≤ length (lexeme u).text)
          × (((lexeme u).kind ≡ newline) ⊎ (has b'\n' (lexeme u).rest ≡ true))
    go [] short n' = cc
    go (c ∷ u) short n' =
        let total = length-lexeme c u in
        (omega (arith, total, short), omega arith, has-lexeme c u n')
