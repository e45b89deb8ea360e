-- ===== src/Sh/Parser/Safe.antt =====
-- parse_line ends and stays in its buffers.
use edan35_os_lund_univ.Common.{
  ℕ, zero, suc, ◌+◌, ◌*◌, ◌≤◌, ◌<◌, ◌≡◌, ◌≢◌, inl, inr, refl, Bool, true, false, some, List, [],
  ◌∷◌, arith, ◌==◌, ltb, lt→ltb, has, length, Bool-cases, le_or_lt,
}
use edan35_os_lund_univ.Sh.Access.{Access, ok, argv_overrun, buffer_overrun, ◌>>=◌}
use edan35_os_lund_univ.Sh.Text.{Holds}
use edan35_os_lund_univ.Sh.Lexer.{
  TokenType, ampersand, newline, normal, input, output, pipe, semicolon, Lexer, maxbuf, is_normal,
  gettoken,
}
use edan35_os_lund_univ.Sh.Lexer.Reads.{lex, behind, gettoken-lex}
use edan35_os_lund_univ.Sh.Lexer.Rest.{lex-shorter}
use edan35_os_lund_univ.Sh.Lexer.Rest.{Holds-lex}
use edan35_os_lund_univ.Sh.Parser.{
  Files, Parser, Round, again, finished, argv_size, next_token, read_from, write_to, end_command,
  act, go_on, parse_loop, parse_line, set_arg,
}

-- The text that is left, and the room for its tokens: a token takes a byte more than it has.
pub record Reading (l : Lexer) (s : List ℕ) : Type 0 where
  pub holds : Holds l.input_buf l.input_char s
  pub ends : has b'\n' s ≡ true
  pub inside : l.input_char + length s ≤ maxbuf
  pub room : l.token + 2 * length s ≤ 1024

pub has-nonempty : (s : List ℕ) → has b'\n' s ≡ true → 1 ≤ length s
has-nonempty [] n = cc
has-nonempty (c ∷ s) n = omega arith

pub gettoken-Reading :
    (l : Lexer) (s : List ℕ)
    → Reading l s
    → gettoken l ≡ ok (behind l s (lex s), (lex s).kind, l.token)
gettoken-Reading l s r =
    let some_left = has-nonempty s r.ends in
    let room = r.room in gettoken-lex l s r.holds r.ends r.inside (omega arith)

pub behind-Reading :
    (l : Lexer) (s : List ℕ)
    → Reading l s
    → has b'\n' (lex s).rest ≡ true
    → Reading (behind l s (lex s)) (lex s).rest
behind-Reading l s r n =
    let (total, some_text, more) = lex-shorter s r.ends in
    let inside = r.inside in
    let room = r.room in
    record {
      holds = Holds-lex l.input_buf l.input_char s r.holds r.ends;
      ends = n;
      inside = omega (arith, total);
      room = omega (arith, total, some_text);
    }

module _ (f : Files) where
  -- The parser behind a token.
  abbrev pub after_token : Parser f → List ℕ → Parser f
  after_token p s = record p {
    lexer = behind p.lexer s (lex s);
    argv = set_arg p.argv p.argc (some p.lexer.token);
  }

  pub next_token-Reading :
      (p : Parser f) (s : List ℕ)
      → Reading p.lexer s
      → p.argc < argv_size
      → next_token f p ≡ ok (after_token p s, (lex s).kind)
  unfolding next_token
  next_token-Reading p s r l =
      let fits = lt→ltb p.argc argv_size l in
      rw (next_token, fits, gettoken-Reading p.lexer s r) refl

  pub next_token-far : (p : Parser f) → argv_size ≤ p.argc → next_token f p ≡ argv_overrun
  unfolding next_token
  next_token-far p far =
      let out : ltb p.argc argv_size ≡ false = ground arith in rw (next_token, out) refl

  -- Neither buffer is overrun, and argv only where `n` is more than MAX_ARG.
  abbrev pub Within : {A : Type 0} → ℕ → Access A → Type 0
  Within n (ok a) = Unit {0}
  Within n argv_overrun = 100 < n
  Within n buffer_overrun = ⊥

  -- A round that goes on leaves a shorter text, and read a byte at least for each new argument.
  abbrev Step : (n m : ℕ) → Round f → Type 0
  Step n m (finished p) = Unit {0}
  Step n m (again p) = (s : List ℕ) × Reading p.lexer s × (p.argc + length s ≤ n) × (length s < m)

  abbrev StepWithin : (n m : ℕ) → Access (Round f) → Type 0
  StepWithin n m (ok r) = Step n m r
  StepWithin n m argv_overrun = 100 < n
  StepWithin n m buffer_overrun = ⊥

  end_command-Step :
      (n m : ℕ) (foreground doing_pipe : Bool) (p : Parser f) (s : List ℕ)
      → Reading p.lexer s
      → p.argc + length s ≤ n
      → length s < m
      → Step n m (end_command f foreground doing_pipe false p)
  unfolding end_command
  end_command-Step n m foreground doing_pipe p s r l l' = elim (Bool-cases (p.argc == 0)) [
    | inl none_there ↦ rw (end_command, none_there) tt
    | inr some_there ↦ rw (end_command, some_there) (s, r, omega arith, l')
  ]

  end_line-Step : (n m : ℕ) (p : Parser f) → Step n m (end_command f true false true p)
  unfolding end_command
  end_line-Step n m p = elim (Bool-cases (p.argc == 0)) [
    | inl none_there ↦ rw (end_command, none_there) tt
    | inr some_there ↦ rw (end_command, some_there) tt
  ]

  is_normal-newline : (t : TokenType) → is_normal t ≡ true → t ≢ newline
  is_normal-newline normal e = λ c. cc
  is_normal-newline newline e = cc
  is_normal-newline input e = cc
  is_normal-newline output e = cc
  is_normal-newline ampersand e = cc
  is_normal-newline pipe e = cc
  is_normal-newline semicolon e = cc

  module _ (n m : ℕ) (p : Parser f) (s : List ℕ) (r : Reading p.lexer s) (l : p.argc + length s ≤ n)
      (l' : length s ≤ m) where
    -- What is left behind a token, unless that ended the line.
    rest_left :
        (lex s).kind ≢ newline
        → Reading (behind p.lexer s (lex s)) (lex s).rest
          × (p.argc + length (lex s).rest < n)
          × (length (lex s).rest < m)
    rest_left ne =
        let (total, some_text, more) = lex-shorter s r.ends in
        let still : has b'\n' (lex s).rest ≡ true = elim more [
          | inl e ↦ absurd (ne e)
          | inr e ↦ e
        ] in
        (
          behind-Reading p.lexer s r still,
          omega (arith, total, some_text),
          omega (arith, total, some_text),
        )

    next_token-StepWithin :
        (k : Parser f × TokenType → Access (Round f))
        → StepWithin n m (k (after_token p s, (lex s).kind))
        → StepWithin n m (next_token f p >>= k)
    next_token-StepWithin k then_fine = elim (le_or_lt argv_size p.argc) [
      | inl far ↦ rw (next_token-far p far) (omega arith)
      | inr near ↦ rw (next_token-Reading p s r near) then_fine
    ]

    read_from-StepWithin : StepWithin n m (next_token f p >>= read_from f)
    unfolding read_from
    read_from-StepWithin =
        next_token-StepWithin (read_from f) (elim (Bool-cases (is_normal (lex s).kind)) [
          | inl name ↦
              let (left, less, less') = rest_left (is_normal-newline (lex s).kind name) in
              rw (read_from, name) ((lex s).rest, left, omega (arith, less), less')
          | inr other ↦ rw (read_from, other) tt
        ])

    write_to-StepWithin : StepWithin n m (next_token f p >>= write_to f)
    unfolding write_to
    write_to-StepWithin =
        next_token-StepWithin (write_to f) (elim (Bool-cases (is_normal (lex s).kind)) [
          | inl name ↦
              let (left, less, less') = rest_left (is_normal-newline (lex s).kind name) in
              rw (write_to, name) ((lex s).rest, left, omega (arith, less), less')
          | inr other ↦ rw (write_to, other) tt
        ])

  module _ (n m : ℕ) (p : Parser f) (s : List ℕ) (r : Reading p.lexer s) (l : p.argc + length s ≤ n)
      (l' : length s ≤ m) where
    act-StepWithin :
        (kind : TokenType) → (lex s).kind ≡ kind → StepWithin n m (act f (after_token p s, kind))
    act-StepWithin newline e = end_line-Step n m (after_token p s)
    act-StepWithin normal e =
        let (left, less, less') = rest_left n m p s r l l' (λ c. cc) in
        ((lex s).rest, left, omega (arith, less), less')
    act-StepWithin input e =
        let (left, less, less') = rest_left n m p s r l l' (λ c. cc) in
        read_from-StepWithin n m (after_token p s) (lex s).rest left (omega (arith, less))
          (omega (arith, less'))
    act-StepWithin output e =
        let (left, less, less') = rest_left n m p s r l l' (λ c. cc) in
        write_to-StepWithin n m (after_token p s) (lex s).rest left (omega (arith, less))
          (omega (arith, less'))
    act-StepWithin pipe e =
        let (left, less, less') = rest_left n m p s r l l' (λ c. cc) in
        end_command-Step n m false true (after_token p s) (lex s).rest left (omega (arith, less))
          less'
    act-StepWithin ampersand e =
        let (left, less, less') = rest_left n m p s r l l' (λ c. cc) in
        end_command-Step n m false false (after_token p s) (lex s).rest left (omega (arith, less))
          less'
    act-StepWithin semicolon e =
        let (left, less, less') = rest_left n m p s r l l' (λ c. cc) in
        end_command-Step n m true false (after_token p s) (lex s).rest left (omega (arith, less))
          less'

    round-StepWithin : StepWithin n m (next_token f p >>= act f)
    round-StepWithin =
        next_token-StepWithin n m p s r l l' (act f) (act-StepWithin (lex s).kind refl)

  go_on-Within :
      (n m : ℕ) (loop : Parser f → Access (Parser f)) (o : Access (Round f))
      → StepWithin n m o
      → ((q : Parser f) (s : List ℕ)
          → Reading q.lexer s
          → q.argc + length s ≤ n
          → length s < m
          → Within n (loop q))
      → Within n (o >>= go_on f loop)
  go_on-Within n m loop (ok (finished q)) h more = tt
  go_on-Within n m loop (ok (again q)) (s, r, l, less) more = more q s r l less
  go_on-Within n m loop argv_overrun h more = h
  go_on-Within n m loop buffer_overrun h more = absurd h

  parse_loop-Within :
      (fuel n : ℕ) (p : Parser f) (s : List ℕ)
      → Reading p.lexer s
      → p.argc + length s ≤ n
      → length s < fuel
      → Within n (parse_loop f fuel p)
  unfolding parse_loop
  parse_loop-Within zero n p s r l enough = absurd (omega arith)
  parse_loop-Within (suc fuel) n p s r l enough =
      go_on-Within n (length s) (parse_loop f fuel) (next_token f p >>= act f)
        (round-StepWithin n (length s) p s r l (omega arith))
        (λ q s' r' l' less. parse_loop-Within fuel n q s' r' l' (omega arith))

  -- parse_line on a line in input_buf, of at most MAXBUF bytes and with an end of line, ends, stays
  -- in input_buf and token_buf, and goes beyond argv only where the line is longer than MAX_ARG
  -- bytes.
  pub parse_line-Within :
      (p : Parser f) (s : List ℕ)
      → p.lexer.input_char ≡ 0
      → p.lexer.token ≡ 0
      → Holds p.lexer.input_buf 0 s
      → has b'\n' s ≡ true
      → length s ≤ maxbuf
      → Within (length s) (parse_line f p)
  unfolding parse_line
  parse_line-Within p s at_start empty h n fits =
      parse_loop-Within 513 (length s)
        (record p { input_fd = some 0; output_fd = some 0; argc = 0 }) s
        (record { holds = rw at_start h; ends = n; inside = omega arith; room = omega arith })
        (omega arith) (omega arith)
