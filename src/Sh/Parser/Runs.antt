-- ===== src/Sh/Parser/Runs.antt =====
-- parse_line on a command line that is written out.
use edan35_os_lund_univ.Common.{
  ℕ, suc, ◌+◌, ◌≤◌, ◌<◌, ◌≡◌, refl, ap, subst, ◌∙◌, true, some, List, [], ◌∷◌, ◌++◌, arith, has,
  length, length-append,
}
use edan35_os_lund_univ.Sh.Access.{ok, ◌>>=◌}
use edan35_os_lund_univ.Sh.Text.{Holds-write, write-before}
use edan35_os_lund_univ.Sh.Lexer.{normal}
use edan35_os_lund_univ.Sh.Lexer.Reads.{kind_of, lex, Lexeme}
use edan35_os_lund_univ.Sh.Lexer.Rest.{lex-shorter}
use edan35_os_lund_univ.Sh.Parser.{
  Files, Parser, again, argv_size, next_token, read_from, write_to, act, text_of, report_failure,
  cannot_read, cannot_write,
}
use edan35_os_lund_univ.Sh.Parser.Safe.{Reading, after_token, next_token-Reading, behind-Reading}
use edan35_os_lund_univ.Sh.Parser.Args.{Points, Args, text_of-Points, Args-frame, Args-concat}
use edan35_os_lund_univ.Sh.Parser.Commands.{
  Item, arg, from, to, render_items, plain, IsWord, AllWords, arg_count, Job, do_item, stops,
  lex-word,
}

module _ (f : Files) where
  -- parse_line's variables and a job that has come as far.
  pub record Matches (p : Parser f) (j : Job f) : Type 0 where
    pub words : Args p.lexer.token_buf p.argv p.lexer.token 0 j.words
    pub count : p.argc ≡ length j.words
    pub input_same : p.input_fd ≡ j.input_fd
    pub output_same : p.output_fd ≡ j.output_fd
    pub kernel_same : p.kernel ≡ j.kernel
    pub trace_same : p.trace ≡ j.trace

  module _ (p : Parser f) (j : Job f) (s : List ℕ) (r : Reading p.lexer s) (m : Matches p j) where
    -- The token is written behind the words and its place in argv is behind theirs.
    pub token-Matches : Matches (after_token f p s) j
    token-Matches =
        let count = m.count in
        record {
          words =
              Args-frame p.lexer.token_buf (after_token f p s).lexer.token_buf p.argv p.lexer.token
                (after_token f p s).lexer.token 0 p.argc (some p.lexer.token) j.words
                (λ i l. write-before p.lexer.token_buf p.lexer.token ((lex s).text ++ 0 ∷ []) i l)
                (omega arith) (omega arith) m.words;
          count = m.count;
          input_same = m.input_same;
          output_same = m.output_same;
          kernel_same = m.kernel_same;
          trace_same = m.trace_same;
        }

    token-Points :
        plain (lex s).text ≡ true
        → Points
            (after_token f p s).lexer.token_buf
            (after_token f p s).lexer.token
            ((after_token f p s).argv p.argc)
            (lex s).text
    token-Points e = record {
      ptr = p.lexer.token;
      there = ground arith;
      below = omega arith;
      bytes = Holds-write p.lexer.token_buf p.lexer.token ((lex s).text ++ 0 ∷ []);
      no_zero = e;
    }

    pub token_fits : (after_token f p s).lexer.token ≤ 1024
    token_fits =
        let (total, some_text, more) = lex-shorter s r.ends in
        let room = r.room in omega (arith, total, some_text)

  -- The parser behind a word.
  module _ (p : Parser f) (j : Job f) (s w r : List ℕ) (reading : Reading p.lexer s)
      (m : Matches p j) (t : lex s ≡ record { kind = normal; text = w; rest = r }) (i : IsWord w)
      (n : has b'\n' r ≡ true) where
    left_Reading : Reading (after_token f p s).lexer r
    left_Reading =
        subst (λ x. Reading (after_token f p s).lexer x) (ap (λ (x : Lexeme). x.rest) t)
          (behind-Reading p.lexer s reading (rw t n))

    word-Points :
        Points
          (after_token f p s).lexer.token_buf
          (after_token f p s).lexer.token
          ((after_token f p s).argv p.argc)
          w
    word-Points =
        subst
          (λ x.
            Points (after_token f p s).lexer.token_buf (after_token f p s).lexer.token
              ((after_token f p s).argv p.argc) x)
          (ap (λ (x : Lexeme). x.text) t) (token-Points p j s reading m (rw t i.is_plain))

    word_name : text_of (after_token f p s).lexer.token_buf ((after_token f p s).argv p.argc) ≡ w
    word_name =
        text_of-Points (after_token f p s).lexer.token_buf (after_token f p s).lexer.token
          ((after_token f p s).argv p.argc) w word-Points (token_fits p j s reading m)

    word-token : p.argc < argv_size → next_token f p ≡ ok (after_token f p s, normal)
    word-token few =
        next_token-Reading f p s reading few ∙ ap (λ (x : Lexeme). ok (after_token f p s, x.kind)) t

    counted-Matches :
        Matches (record (after_token f p s) { argc = suc p.argc }) (do_item f (arg w) j)
    counted-Matches =
        let m1 = token-Matches p j s reading m in
        let count = m.count in
        let at : 0 + length j.words ≡ p.argc = omega arith in
        let longer = length-append j.words (w ∷ []) in
        record {
          words =
              Args-concat (after_token f p s).lexer.token_buf (after_token f p s).argv
                (after_token f p s).lexer.token 0 j.words w m1.words (rw at word-Points);
          count = omega (arith, longer);
          input_same = m.input_same;
          output_same = m.output_same;
          kernel_same = m.kernel_same;
          trace_same = m.trace_same;
        }

    opened_read :
        p.argc < argv_size
        → (p' : Parser f) × ((next_token f p >>= read_from f) ≡ ok (again p'))
          × Reading p'.lexer r
          × Matches p' (do_item f (from w) j)
          × (p'.argc ≡ p.argc)
    unfolding read_from
    opened_read few =
        let m1 = token-Matches p j s reading m in
        let opened = f.open_read j.kernel w in
        (
          record (after_token f p s) {
            kernel = opened.0;
            input_fd = opened.1;
            trace = report_failure opened.1 (cannot_read w) p.trace;
          },
          rw (word-token few, read_from, word_name, m.kernel_same) refl,
          left_Reading,
          record {
            words = m1.words;
            count = m1.count;
            input_same = refl;
            output_same = m.output_same;
            kernel_same = refl;
            trace_same = ap (report_failure opened.1 (cannot_read w)) m.trace_same;
          },
          refl,
        )

    opened_write :
        p.argc < argv_size
        → (p' : Parser f) × ((next_token f p >>= write_to f) ≡ ok (again p'))
          × Reading p'.lexer r
          × Matches p' (do_item f (to w) j)
          × (p'.argc ≡ p.argc)
    unfolding write_to
    opened_write few =
        let m1 = token-Matches p j s reading m in
        let opened = f.open_write j.kernel w in
        (
          record (after_token f p s) {
            kernel = opened.0;
            output_fd = opened.1;
            trace = report_failure opened.1 (cannot_write w) p.trace;
          },
          rw (word-token few, write_to, word_name, m.kernel_same) refl,
          left_Reading,
          record {
            words = m1.words;
            count = m1.count;
            output_same = refl;
            input_same = m.input_same;
            kernel_same = refl;
            trace_same = ap (report_failure opened.1 (cannot_write w)) m.trace_same;
          },
          refl,
        )

  -- One item of a command: a round of the loop.
  pub item-step :
      (p : Parser f) (j : Job f) (item : Item) (r : List ℕ)
      → AllWords (item ∷ [])
      → stops r ≡ true
      → has b'\n' r ≡ true
      → Reading p.lexer (render_items (item ∷ []) r)
      → Matches p j
      → p.argc < argv_size
      → (p' : Parser f) × ((next_token f p >>= act f) ≡ ok (again p'))
        × Reading p'.lexer r
        × Matches p' (do_item f item j)
        × (p'.argc ≡ p.argc + arg_count (item ∷ []))
  unfolding kind_of
  item-step p j (arg w) r (i, u) e n reading m few =
      let t : lex (b' ' ∷ (w ++ r)) ≡ record { kind = normal; text = w; rest = r } =
        lex-word w r i e in
      (
        record (after_token f p (b' ' ∷ (w ++ r))) { argc = suc p.argc },
        rw (word-token p j (b' ' ∷ (w ++ r)) w r reading m t i n few) refl,
        left_Reading p j (b' ' ∷ (w ++ r)) w r reading m t i n,
        counted-Matches p j (b' ' ∷ (w ++ r)) w r reading m t i n,
        omega arith,
      )
  item-step p j (from w) r (i, u) e n reading m few =
      let s = b'<' ∷ (w ++ r) in
      let here : has b'\n' (w ++ r) ≡ true = reading.ends in
      let (p', run, left, m', same) =
        opened_read (after_token f p s) j (w ++ r) w r (behind-Reading p.lexer s reading here)
          (token-Matches p j s reading m) (lex-word w r i e) i n few in
      (p', rw (next_token-Reading f p s reading few) run, left, m', omega (arith, same))
  item-step p j (to w) r (i, u) e n reading m few =
      let s = b'>' ∷ (w ++ r) in
      let here : has b'\n' (w ++ r) ≡ true = reading.ends in
      let (p', run, left, m', same) =
        opened_write (after_token f p s) j (w ++ r) w r (behind-Reading p.lexer s reading here)
          (token-Matches p j s reading m) (lex-word w r i e) i n few in
      (p', rw (next_token-Reading f p s reading few) run, left, m', omega (arith, same))
