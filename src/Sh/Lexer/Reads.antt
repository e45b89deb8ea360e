-- ===== src/Sh/Lexer/Reads.antt =====
-- gettoken against the tokens of a text.
use edan35_os_lund_univ.Common.{
  ℕ, zero, suc, ◌+◌, ◌-◌, ◌≤◌, ◌<◌, ◌≡◌, ◌∙◌, refl, true, false, List, [], ◌∷◌, ◌++◌, arith, ◌==◌,
  lt→ltb, if◌then◌else◌, has, length, Bool-cases, ◌⊎◌, inl, inr,
}
use edan35_os_lund_univ.Sh.Access.{ok, ◌>>=◌}
use edan35_os_lund_univ.Sh.Text.{
  Holds, store, write, is_blank, end_of_token, ends_word, end_of_token-ends_word, word, after,
  length-word, write-append,
}
use edan35_os_lund_univ.Sh.Lexer.{
  TokenType, ampersand, newline, normal, input, output, pipe, semicolon, Lexer, maxbuf, token_size,
  is_normal, skip_blanks, put_token, copy_char, copy_word, classify, rest_of_token, scan, hand_over,
  gettoken,
}

-- The text from its first byte that is no blank on.
abbrev pub unblank : List ℕ → List ℕ
unblank [] = []
unblank (c ∷ s) = let rest = unblank s in if is_blank c then rest else c ∷ s

-- A token: its type, its bytes, and what is left of the text.
pub record Lexeme : Type 0 where
  pub kind : TokenType
  pub text : List ℕ
  pub rest : List ℕ

-- The bytes that are tokens by themselves.
abbrev pub operators : List (ℕ × TokenType)
operators =
    (b'<', input) ∷ (b'>', output) ∷ (b'|', pipe) ∷ (b'&', ampersand) ∷ (b'\n', newline) ∷ []

abbrev pub kind_in : List (ℕ × TokenType) → ℕ → TokenType
kind_in [] c = normal
kind_in ((d, kind) ∷ ops) c = let rest = kind_in ops c in if c == d then kind else rest

unfoldable pub kind_of : ℕ → TokenType
kind_of c = kind_in operators c

classify-kind_of : (c : ℕ) → classify c ≡ kind_of c
unfolding classify kind_of
classify-kind_of c = ground arith

abbrev pub lexeme : List ℕ → Lexeme
lexeme [] = record { kind = newline; text = []; rest = [] }
lexeme (c ∷ s) = record {
  kind = kind_of c;
  text = c ∷ (if is_normal (kind_of c) then word s else []);
  rest = if is_normal (kind_of c) then after s else s;
}

abbrev pub lex : List ℕ → Lexeme
lex s = lexeme (unblank s)

skip_blanks-unblank :
    (fuel : ℕ) (l : Lexer) (s : List ℕ)
    → Holds l.input_buf l.input_char s
    → has b'\n' s ≡ true
    → l.input_char + length s ≤ maxbuf
    → length s < fuel
    → (i : ℕ) × (skip_blanks fuel l ≡ ok (record l { input_char = i }))
      × Holds l.input_buf i (unblank s)
      × (i + length (unblank s) ≡ l.input_char + length s)
unfolding skip_blanks
skip_blanks-unblank zero l s h n fits enough = absurd (omega arith)
skip_blanks-unblank (suc fuel) l [] h n fits enough = cc
skip_blanks-unblank (suc fuel) l (c ∷ s) (e, h) n fits enough = elim (Bool-cases (is_blank c)) [
  | inl blank ↦
      let (i, run, h', len) =
        skip_blanks-unblank fuel (record l { input_char = suc l.input_char }) s h
          (ground (arith, n, blank)) (omega arith) (omega arith) in
      let room = lt→ltb l.input_char maxbuf (omega arith) in
      (i, rw (skip_blanks, room, e, blank) run, rw blank h', rw blank (omega (arith, len)))
  | inr other ↦
      let room = lt→ltb l.input_char maxbuf (omega arith) in
      (l.input_char, rw (skip_blanks, room, e, other) refl, rw other (e, h), rw other refl)
]

-- The lexer behind bytes that were copied.
abbrev pub copied : Lexer → List ℕ → Lexer
copied l s = record l {
  input_char = l.input_char + length s;
  token_buf = write l.token_buf l.token s;
  token = l.token + length s;
}

copied-nil : (l : Lexer) → copied l [] ≡ l
copied-nil l =
    let e : l.input_char + 0 ≡ l.input_char = omega arith in
    let e' : l.token + 0 ≡ l.token = omega arith in rw (e, e') refl

copied-cons : (l : Lexer) (c : ℕ) (s : List ℕ) → copied (copied l (c ∷ [])) s ≡ copied l (c ∷ s)
copied-cons l c s =
    let e : l.input_char + suc (length s) ≡ l.input_char + 1 + length s = omega arith in
    let e' : l.token + suc (length s) ≡ l.token + 1 + length s = omega arith in
    let e'' : suc l.token ≡ l.token + 1 = omega arith in rw (e, e', e'') refl

copy_char-ok :
    (l : Lexer) (c : ℕ)
    → l.input_buf l.input_char ≡ c
    → l.token < token_size
    → copy_char l ≡ ok (copied l (c ∷ []))
unfolding copy_char put_token
copy_char-ok l c e room =
    let fits = lt→ltb l.token token_size room in
    let up : suc l.token ≡ l.token + 1 = omega arith in
    let up' : suc l.input_char ≡ l.input_char + 1 = omega arith in
    rw (copy_char, e, put_token, fits, up, up') refl

put_token-ok :
    (l : Lexer) (c : ℕ)
    → l.token < token_size
    → put_token c l ≡ ok (record l { token_buf = store l.token_buf l.token c; token = suc l.token })
unfolding put_token
put_token-ok l c room = let fits = lt→ltb l.token token_size room in rw (put_token, fits) refl

copy_word-word :
    (fuel : ℕ) (l : Lexer) (s : List ℕ)
    → Holds l.input_buf l.input_char s
    → has b'\n' s ≡ true
    → l.input_char + length s ≤ maxbuf
    → l.token + length s ≤ token_size
    → length s < fuel
    → copy_word fuel l ≡ ok (copied l (word s))
unfolding copy_word
copy_word-word zero l s h n fits room enough = absurd (omega arith)
copy_word-word (suc fuel) l [] h n fits room enough = cc
copy_word-word (suc fuel) l (c ∷ s) (e, h) n fits room enough =
    let inside = lt→ltb l.input_char maxbuf (omega arith) in
    let same = end_of_token-ends_word c in
    elim (Bool-cases (ends_word c)) [
      | inl end ↦
          let end' : end_of_token c ≡ true = same ∙ end in
          rw (copy_word, inside, e, end', end, copied-nil l) refl
      | inr more ↦
          let more' : end_of_token c ≡ false = same ∙ more in
          let one = copy_char-ok l c e (omega arith) in
          let up : l.input_char + 1 ≡ suc l.input_char = omega arith in
          let rest =
            copy_word-word fuel (copied l (c ∷ [])) s (rw up h) (ground (arith, n, more))
              (omega arith) (omega arith) (omega arith) in
          rw (copy_word, inside, e, more', more, one, rest, copied-cons l c (word s)) refl
    ]

pub has-unblank : (s : List ℕ) → has b'\n' s ≡ true → has b'\n' (unblank s) ≡ true
has-unblank [] n = n
has-unblank (c ∷ s) n = ground (arith, n, has-unblank s)

has-after : (s : List ℕ) → has b'\n' s ≡ true → has b'\n' (after s) ≡ true
has-after [] n = n
has-after (c ∷ s) n = ground (arith, n, has-after s)

pub length-unblank : (s : List ℕ) → length (unblank s) ≤ length s
length-unblank [] = omega arith
length-unblank (c ∷ s) = ground (arith, length-unblank s)

-- A token and what is left are all of the text.
pub length-lexeme :
    (c : ℕ) (s : List ℕ)
    → length (lexeme (c ∷ s)).text + length (lexeme (c ∷ s)).rest ≡ suc (length s)
length-lexeme c s = ground (arith, length-word s)

-- Behind a token that does not end the line there is still the end of the line.
pub has-lexeme :
    (c : ℕ) (s : List ℕ)
    → has b'\n' (c ∷ s) ≡ true
    → ((lexeme (c ∷ s)).kind ≡ newline) ⊎ (has b'\n' (lexeme (c ∷ s)).rest ≡ true)
unfolding kind_of
has-lexeme c s n = elim (Bool-cases (c == b'\n')) [
  | inl end ↦ inl (ground (arith, end))
  | inr more ↦ inr (ground (arith, n, more, has-after s))
]

-- The lexer behind a token: input_char stands at the rest of the text, token behind the bytes of the
-- token and their terminating zero.
abbrev pub behind : Lexer → List ℕ → Lexeme → Lexer
behind l s t = record l {
  input_char = l.input_char + (length s - length t.rest);
  token_buf = write l.token_buf l.token (t.text ++ 0 ∷ []);
  token = l.token + length t.text + 1;
}

rest_of_token-copied :
    (t : TokenType) (l : Lexer) (w : List ℕ)
    → (is_normal t ≡ true → copy_word 513 l ≡ ok (copied l w))
    → rest_of_token t l ≡ ok (copied l (if is_normal t then w else []))
rest_of_token-copied normal l w run = run refl
rest_of_token-copied newline l w run = rw (copied-nil l) refl
rest_of_token-copied input l w run = rw (copied-nil l) refl
rest_of_token-copied output l w run = rw (copied-nil l) refl
rest_of_token-copied ampersand l w run = rw (copied-nil l) refl
rest_of_token-copied pipe l w run = rw (copied-nil l) refl
rest_of_token-copied semicolon l w run = rw (copied-nil l) refl

is_normal-newline :
    (c : ℕ) (s : List ℕ)
    → has b'\n' (c ∷ s) ≡ true
    → is_normal (kind_of c) ≡ true
    → has b'\n' s ≡ true
unfolding kind_of
is_normal-newline c s n more = ground (arith, n, more)

behind-copied :
    (l : Lexer) (s : List ℕ) (t : Lexeme)
    → length t.text + length t.rest ≡ length s
    → behind l s t ≡ record (copied l t.text) {
      token_buf = store (copied l t.text).token_buf (copied l t.text).token 0;
      token = suc (copied l t.text).token;
    }
behind-copied l s t len =
    let used : length s - length t.rest ≡ length t.text = omega (arith, len) in
    let up : l.token + length t.text + 1 ≡ suc (l.token + length t.text) = omega arith in
    rw (used, up, write-append l.token_buf l.token t.text (0 ∷ [])) refl

-- The lexer from the first byte of a token on.
scan-lexeme :
    (l : Lexer) (c : ℕ) (s : List ℕ)
    → Holds l.input_buf l.input_char (c ∷ s)
    → has b'\n' (c ∷ s) ≡ true
    → l.input_char + length (c ∷ s) ≤ maxbuf
    → l.token + length (c ∷ s) < token_size
    → scan l ≡ ok (behind l (c ∷ s) (lexeme (c ∷ s)), kind_of c)
unfolding scan
scan-lexeme l c s (e, h) n fits room =
    let w = if is_normal (kind_of c) then word s else [] in
    let one = copy_char-ok l c e (omega arith) in
    let up : l.input_char + 1 ≡ suc l.input_char = omega arith in
    let copy = rest_of_token-copied (kind_of c) (copied l (c ∷ [])) (word s) (λ more.
      copy_word-word 513 (copied l (c ∷ [])) s (rw up h) (is_normal-newline c s n more)
        (omega arith) (omega arith) (omega arith)) in
    let len = length-lexeme c s in
    let last = put_token-ok (copied l (c ∷ w)) 0 (omega (arith, len)) in
    rw
      (
        scan,
        one,
        e,
        classify-kind_of c,
        copy,
        copied-cons l c w,
        last,
        behind-copied l (c ∷ s) (lexeme (c ∷ s)) len,
      )
      refl

-- gettoken on a text that has an end of line, in buffers with room for it: it returns the type of
-- the text's first token and the place where token stood. From that place on token_buf has the
-- bytes of the token and a zero, and is as before elsewhere; input_char stands at the rest.
pub gettoken-lex :
    (l : Lexer) (s : List ℕ)
    → Holds l.input_buf l.input_char s
    → has b'\n' s ≡ true
    → l.input_char + length s ≤ maxbuf
    → l.token + length s < token_size
    → gettoken l ≡ ok (behind l s (lex s), (lex s).kind, l.token)
unfolding gettoken
gettoken-lex l s h n fits room =
    let (i, skip, h', len) = skip_blanks-unblank 513 l s h n fits (omega arith) in
    rw (gettoken, skip) (go (unblank s) i h' (has-unblank s n) len (length-unblank s))
  where
    go :
        (u : List ℕ) (i : ℕ)
        → Holds l.input_buf i u
        → has b'\n' u ≡ true
        → i + length u ≡ l.input_char + length s
        → length u ≤ length s
        → (scan (record l { input_char = i }) >>= hand_over l.token)
          ≡ ok (behind l s (lexeme u), (lexeme u).kind, l.token)
    go [] i h' n' len short = cc
    go (c ∷ u) i (e, h') n' len short =
        let at : Lexer = record l { input_char = i } in
        let total = length-lexeme c u in
        let same : i + (suc (length u) - length (lexeme (c ∷ u)).rest)
            ≡ l.input_char + (length s - length (lexeme (c ∷ u)).rest) =
          omega (arith, len, total, short) in
        let run = scan-lexeme at c u (e, h') n' (omega (arith, len)) (omega (arith, len, short)) in
        rw (run, same) refl
