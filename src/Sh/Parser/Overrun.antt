-- ===== src/Sh/Parser/Overrun.antt =====
-- parse_line on a command with more words than argv has room for.
use edan35_os_lund_univ.Common.{
  ℕ, zero, suc, ◌+◌, ◌≤◌, ◌<◌, ◌≡◌, refl, ◌∙◌, true, some, List, arith, has, length, inl, inr,
  le_or_lt, ◌⊎◌,
}
use edan35_os_lund_univ.Sh.Access.{ok, argv_overrun, ◌>>=◌}
use edan35_os_lund_univ.Sh.Text.{Holds}
use edan35_os_lund_univ.Sh.Lexer.{TokenType, newline, normal, input, output, maxbuf}
use edan35_os_lund_univ.Sh.Lexer.Reads.{lex}
use edan35_os_lund_univ.Sh.Lexer.Rest.{lex-shorter}
use edan35_os_lund_univ.Sh.Parser.{
  Files, Parser, again, argv_size, parse_loop, parse_line, next_token, act, read_from, write_to,
  file_name, report_failure, cannot_read, cannot_write,
}
use edan35_os_lund_univ.Sh.Parser.Safe.{
  Reading, next_token-far, next_token-Reading, behind-Reading, after_token,
}
use edan35_os_lund_univ.Sh.Parser.RoundTrip.{loop-again}

-- A text starts with so many words of one command, whatever blanks are between them; redirections,
-- each with its file name, may stand between them too.
pub data StartsWith : ℕ → List ℕ → Type 0 where
  no_words : {s : List ℕ} → StartsWith zero s
  word_first :
      {n : ℕ} {s : List ℕ}
      → (lex s).kind ≡ normal
      → StartsWith n (lex s).rest
      → StartsWith (suc n) s
  redirection_first :
      {n : ℕ} {s : List ℕ}
      → ((lex s).kind ≡ input) ⊎ ((lex s).kind ≡ output)
      → (lex (lex s).rest).kind ≡ normal
      → StartsWith n (lex (lex s).rest).rest
      → StartsWith n s

ends_later :
    (s : List ℕ) → has b'\n' s ≡ true → ((lex s).kind ≡ newline → ⊥) → has b'\n' (lex s).rest ≡ true
ends_later s n other = elim (lex-shorter s n).2 [ inl e ↦ absurd (other e) | inr more ↦ more ]

redirects-newline : {k : TokenType} → (k ≡ input) ⊎ (k ≡ output) → k ≡ newline → ⊥
redirects-newline (inl e) n = cc
redirects-newline (inr e) n = cc

module _ (f : Files) where
  loop-far :
      (fuel : ℕ) (p : Parser f) → argv_size ≤ p.argc → parse_loop f (suc fuel) p ≡ argv_overrun
  unfolding parse_loop
  loop-far fuel p far = rw (parse_loop, next_token-far f p far) refl

  word-round :
      (p : Parser f) (s : List ℕ)
      → Reading p.lexer s
      → p.argc < argv_size
      → (lex s).kind ≡ normal
      → (p' : Parser f) × ((next_token f p >>= act f) ≡ ok (again p'))
        × Reading p'.lexer (lex s).rest
        × (p'.argc ≡ suc p.argc)
  word-round p s r near k = (
    record (after_token f p s) { argc = suc p.argc },
    rw (next_token-Reading f p s r near, k) refl,
    behind-Reading p.lexer s r (ends_later s r.ends (λ e. cc)),
    refl,
  )

  read_from-again :
      (p : Parser f)
      → (p' : Parser f) × (read_from f (p, normal) ≡ ok (again p'))
        × (p'.lexer ≡ p.lexer)
        × (p'.argc ≡ p.argc)
  unfolding read_from
  read_from-again p =
      let opened = f.open_read p.kernel (file_name f p) in
      (
        record p {
          kernel = opened.0;
          input_fd = opened.1;
          trace = report_failure opened.1 (cannot_read (file_name f p)) p.trace;
        },
        refl,
        refl,
        refl,
      )

  write_to-again :
      (p : Parser f)
      → (p' : Parser f) × (write_to f (p, normal) ≡ ok (again p'))
        × (p'.lexer ≡ p.lexer)
        × (p'.argc ≡ p.argc)
  unfolding write_to
  write_to-again p =
      let opened = f.open_write p.kernel (file_name f p) in
      (
        record p {
          kernel = opened.0;
          output_fd = opened.1;
          trace = report_failure opened.1 (cannot_write (file_name f p)) p.trace;
        },
        refl,
        refl,
        refl,
      )

  redirection-round :
      (p : Parser f) (s : List ℕ)
      → Reading p.lexer s
      → p.argc < argv_size
      → ((lex s).kind ≡ input) ⊎ ((lex s).kind ≡ output)
      → (lex (lex s).rest).kind ≡ normal
      → has b'\n' (lex s).rest ≡ true
      → (p' : Parser f) × ((next_token f p >>= act f) ≡ ok (again p'))
        × Reading p'.lexer (lex (lex s).rest).rest
        × (p'.argc ≡ p.argc)
  redirection-round p s r near kinds k' more =
      let t = (lex s).rest in
      let r' = behind-Reading p.lexer s r more in
      let q = after_token f (after_token f p s) t in
      let token = next_token-Reading f (after_token f p s) t r' near in
      let read = behind-Reading (after_token f p s).lexer t r' (ends_later t more (λ e. cc)) in
      elim kinds [
        | inl k ↦
            let (p', run, same, count) = read_from-again q in
            (p', rw (next_token-Reading f p s r near, k) (rw (token, k') run), rw same read, count)
        | inr k ↦
            let (p', run, same, count) = write_to-again q in
            (p', rw (next_token-Reading f p s r near, k) (rw (token, k') run), rw same read, count)
      ]

  shorter : (s : List ℕ) → has b'\n' s ≡ true → length (lex s).rest < length s
  shorter s n = let (total, some_text, more) = lex-shorter s n in omega (arith, total, some_text)

  loop-overrun :
      (fuel n : ℕ) (p : Parser f) (s : List ℕ)
      → StartsWith n s
      → Reading p.lexer s
      → length s < fuel
      → argv_size ≤ p.argc + n
      → parse_loop f fuel p ≡ argv_overrun
  loop-overrun zero n p s w r enough many = absurd (omega arith)
  loop-overrun (suc fuel) n p s no_words r enough many = loop-far fuel p (omega arith)
  loop-overrun (suc fuel) (suc n) p s (word_first k w) r enough many =
      elim (le_or_lt argv_size p.argc) [
        | inl far ↦ loop-far fuel p far
        | inr near ↦
            let (p', run, r', argc') = word-round p s r near k in
            loop-again f fuel p p' run
            ∙ loop-overrun fuel n p' (lex s).rest w r' (omega (arith, enough, shorter s r.ends))
                (omega (arith, argc', many))
      ]
  loop-overrun (suc fuel) n p s (redirection_first k k' w) r enough many =
      elim (le_or_lt argv_size p.argc) [
        | inl far ↦ loop-far fuel p far
        | inr near ↦
            let more = ends_later s r.ends (redirects-newline k) in
            let (p', run, r', argc') = redirection-round p s r near k k' more in
            loop-again f fuel p p' run
            ∙ loop-overrun fuel n p' (lex (lex s).rest).rest w r'
                (omega (arith, enough, shorter s r.ends, shorter (lex s).rest more))
                (omega (arith, argc', many))
      ]

  -- parse_line on a line of at most MAXBUF bytes with an end of line, whose first command has more
  -- than MAX_ARG words, goes beyond argv. The words may have any blanks, and redirections with their
  -- file names, before and between them.
  pub parse_line-overrun :
      (p : Parser f) (n : ℕ) (s : List ℕ)
      → StartsWith n s
      → 100 < n
      → has b'\n' s ≡ true
      → p.lexer.input_char ≡ 0
      → p.lexer.token ≡ 0
      → Holds p.lexer.input_buf 0 s
      → length s ≤ maxbuf
      → parse_line f p ≡ argv_overrun
  unfolding parse_line
  parse_line-overrun p n s w many ends at_start empty h fits =
      let p0 : Parser f = record p { input_fd = some 0; output_fd = some 0; argc = 0 } in
      loop-overrun 513 n p0 s w
        (record { holds = rw at_start h; ends = ends; inside = omega arith; room = omega arith })
        (omega arith) (omega arith)
