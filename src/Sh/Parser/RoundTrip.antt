-- ===== src/Sh/Parser/RoundTrip.antt =====
-- parse_line reads back a command line that is written out.
use edan35_os_lund_univ.Common.{
  ℕ, suc, ◌+◌, ◌-◌, ◌≤◌, ◌<◌, ◌≡◌, refl, ap, subst, ◌∙◌, Bool, true, false, some, none, List, [],
  ◌∷◌, ◌++◌, arith, ◌==◌, if◌then◌else◌, has, length,
}
use edan35_os_lund_univ.Sh.Access.{ok, ◌>>=◌}
use edan35_os_lund_univ.Sh.Text.{Holds}
use edan35_os_lund_univ.Sh.Lexer.{maxbuf}
use edan35_os_lund_univ.Sh.Lexer.Reads.{kind_of}
use edan35_os_lund_univ.Sh.Parser.{
  Files, Parser, again, finished, argv_size, next_token, end_command, act, parse_loop, parse_line,
  Command, ran, texts_of, set_arg,
}
use edan35_os_lund_univ.Sh.Parser.Safe.{Reading, after_token, next_token-Reading, behind-Reading}
use edan35_os_lund_univ.Sh.Parser.Args.{texts_of-Args}
use edan35_os_lund_univ.Sh.Parser.Commands.{
  Item, Line, last, followed, render_items, end_byte, render, AllWords, arg_count, IsLine, Job,
  do_item, do_items, do_end, do_line, stops, render_items-stops,
}
use edan35_os_lund_univ.Sh.Parser.Runs.{Matches, token-Matches, token_fits, item-step}
use edan35_os_lund_univ.Sh.Parser.Rendered.{
  has-render_items, has-render, rounds, rounds-render, render_item, AllWords-split, arg_count-cons,
  end_byte-stops,
}

module _ (f : Files) where
  pub loop-again :
      (fuel : ℕ) (p p' : Parser f)
      → (next_token f p >>= act f) ≡ ok (again p')
      → parse_loop f (suc fuel) p ≡ parse_loop f fuel p'
  unfolding parse_loop
  loop-again fuel p p' e = rw (parse_loop, e) refl

  loop-finished :
      (fuel : ℕ) (p p' : Parser f)
      → (next_token f p >>= act f) ≡ ok (finished p')
      → parse_loop f (suc fuel) p ≡ ok p'
  unfolding parse_loop
  loop-finished fuel p p' e = rw (parse_loop, e) refl

  -- The rounds that read the items of a command.
  items-run :
      (items : List Item) (p : Parser f) (j : Job f) (r : List ℕ)
      → AllWords items
      → stops r ≡ true
      → has b'\n' r ≡ true
      → Reading p.lexer (render_items items r)
      → Matches f p j
      → p.argc + arg_count items < argv_size
      → (p' : Parser f) × ((fuel : ℕ) → parse_loop f (length items + fuel) p ≡ parse_loop f fuel p')
        × Reading p'.lexer r
        × Matches f p' (do_items f items j)
        × (p'.argc ≡ p.argc + arg_count items)
  items-run [] p j r a e n reading m few = (
    p,
    (λ fuel. let none_left : 0 + fuel ≡ fuel = omega arith in rw none_left refl),
    reading,
    m,
    omega arith,
  )
  items-run (item ∷ items) p j r a e n reading m few =
      let (i, a') = AllWords-split item items a in
      let count = arg_count-cons item items in
      let (p1, run, reading1, m1, argc1) =
        item-step f p j item (render_items items r) i (render_items-stops items r e)
          (has-render_items items r n) (rw (render_item item items r) reading) m
          (omega (arith, count)) in
      let (p', runs, reading', m', argc') =
        items-run items p1 (do_item f item j) r a' e n reading1 m1 (omega (arith, count, argc1)) in
      (
        p',
        (λ fuel.
            let up : suc (length items) + fuel ≡ suc (length items + fuel) = omega arith in
            rw up (loop-again (length items + fuel) p p1 run ∙ runs fuel)),
        reading',
        m',
        omega (arith, count, argc1, argc'),
      )

  -- The end of a command runs it.
  end_command-do_end :
      (foreground doing_pipe ends : Bool) (p : Parser f) (j : Job f)
      → Matches f p j
      → 1 ≤ p.argc
      → p.lexer.token ≤ 1024
      → (p' : Parser f) × (end_command f foreground doing_pipe ends p
          ≡ (if ends then finished p' else again p'))
        × Matches f p' (do_end f foreground doing_pipe j)
        × (p'.lexer ≡ p.lexer)
        × (p'.argc ≡ 0)
  unfolding end_command
  end_command-do_end foreground doing_pipe ends p j m some_arg fits =
      let texts : texts_of p.lexer.token_buf p.argv p.argc 0 ≡ j.words =
        rw m.count (texts_of-Args p.lexer.token_buf p.argv p.lexer.token 0 j.words m.words fits) in
      let more : (p.argc == 0) ≡ false = ground arith in
      let c : Command = record {
        words = texts_of p.lexer.token_buf p.argv p.argc 0;
        foreground = foreground;
        doing_pipe = doing_pipe;
        input_fd = p.input_fd;
        output_fd = p.output_fd;
      } in
      (
        record p {
          argv = set_arg p.argv p.argc none;
          trace = p.trace ++ ran c ∷ [];
          input_fd = some 0;
          output_fd = some 0;
          argc = 0;
        },
        rw (end_command, more) refl,
        record {
          words = tt;
          count = refl;
          input_same = refl;
          output_same = refl;
          kernel_same = m.kernel_same;
          trace_same = rw (texts, m.input_same, m.output_same, m.trace_same) refl;
        },
        refl,
        refl,
      )

  -- The terminator of a command that is not the last.
  end-step :
      (p : Parser f) (j : Job f) (piped : Bool) (r : List ℕ)
      → has b'\n' r ≡ true
      → Reading p.lexer (end_byte piped ∷ r)
      → Matches f p j
      → 1 ≤ p.argc
      → p.argc < argv_size
      → (p' : Parser f) × ((next_token f p >>= act f) ≡ ok (again p'))
        × Reading p'.lexer r
        × Matches f p' (do_end f false piped j)
        × (p'.argc ≡ 0)
  unfolding kind_of
  end-step p j true r n reading m some_arg few =
      let s = b'|' ∷ r in
      let (p', run, m', same, argc') =
        end_command-do_end false true false (after_token f p s) j (token-Matches f p j s reading m)
          some_arg (token_fits f p j s reading m) in
      (
        p',
        rw (next_token-Reading f p s reading few) (ap ok run),
        rw same (behind-Reading p.lexer s reading n),
        m',
        argc',
      )
  end-step p j false r n reading m some_arg few =
      let s = b'&' ∷ r in
      let (p', run, m', same, argc') =
        end_command-do_end false false false (after_token f p s) j (token-Matches f p j s reading m)
          some_arg (token_fits f p j s reading m) in
      (
        p',
        rw (next_token-Reading f p s reading few) (ap ok run),
        rw same (behind-Reading p.lexer s reading n),
        m',
        argc',
      )

  line-step :
      (p : Parser f) (j : Job f)
      → Reading p.lexer (b'\n' ∷ [])
      → Matches f p j
      → 1 ≤ p.argc
      → p.argc < argv_size
      → (p' : Parser f) × ((next_token f p >>= act f) ≡ ok (finished p'))
        × Matches f p' (do_end f true false j)
  unfolding kind_of
  line-step p j reading m some_arg few =
      let s : List ℕ = b'\n' ∷ [] in
      let (p', run, m', same, argc') =
        end_command-do_end true false true (after_token f p s) j (token-Matches f p j s reading m)
          some_arg (token_fits f p j s reading m) in
      (p', rw (next_token-Reading f p s reading few) (ap ok run), m')

  line-run :
      (line : Line) (extra : ℕ) (p : Parser f) (j : Job f)
      → IsLine line
      → Reading p.lexer (render line)
      → Matches f p j
      → p.argc ≡ 0
      → (p' : Parser f) × (parse_loop f (rounds line + extra) p ≡ ok p')
        × Matches f p' (do_line f line j)
  line-run (last items) extra p j c reading m fresh =
      let few = c.few_args in
      let some_arg = c.some_arg in
      let (p1, run, reading1, m1, argc1) =
        items-run items p j (b'\n' ∷ []) c.all_words refl refl reading m (omega arith) in
      let (p2, run2, m2) =
        line-step p1 (do_items f items j) reading1 m1 (omega (arith, argc1))
          (omega (arith, argc1)) in
      let split : suc (length items) + extra ≡ length items + suc extra = omega arith in
      (p2, rw split (run (suc extra) ∙ loop-finished extra p1 p2 run2), m2)
  line-run (followed items piped line) extra p j (c, l) reading m fresh =
      let few = c.few_args in
      let some_arg = c.some_arg in
      let n = has-render line in
      let (p1, run, reading1, m1, argc1) =
        items-run items p j (end_byte piped ∷ render line) c.all_words (end_byte-stops piped)
          (ground (arith, n)) reading m (omega arith) in
      let (p2, run2, reading2, m2, argc2) =
        end-step p1 (do_items f items j) piped (render line) n reading1 m1 (omega (arith, argc1))
          (omega (arith, argc1)) in
      let (p3, run3, m3) =
        line-run line extra p2 (do_end f false piped (do_items f items j)) l reading2 m2 argc2 in
      let split : suc (length items) + rounds line + extra
          ≡ length items + suc (rounds line + extra) =
        omega arith in
      (
        p3,
        rw split
            (run (suc (rounds line + extra)) ∙ loop-again (rounds line + extra) p1 p2 run2 ∙ run3),
        m3,
      )

  -- What parse_line starts from.
  abbrev pub start : Parser f → Job f
  start p = record {
    words = [];
    input_fd = some 0;
    output_fd = some 0;
    kernel = p.kernel;
    trace = p.trace;
  }

  -- parse_line on a written out line of at most MAXBUF bytes, whose commands have a word at least and
  -- at most MAX_ARG, returns. It opens the files of the redirections in their order and runs
  -- each command with its words and its file descriptors: in the background where | or & follows, as a
  -- producer where | does.
  pub parse_line-render :
      (p : Parser f) (line : Line)
      → IsLine line
      → p.lexer.input_char ≡ 0
      → p.lexer.token ≡ 0
      → Holds p.lexer.input_buf 0 (render line)
      → length (render line) ≤ maxbuf
      → (p' : Parser f) × (parse_line f p ≡ ok p')
        × (p'.trace ≡ (do_line f line (start p)).trace)
        × (p'.kernel ≡ (do_line f line (start p)).kernel)
  unfolding parse_line
  parse_line-render p line l at_start empty h fits =
      let enough = rounds-render line in
      let split : rounds line + (513 - rounds line) ≡ 513 = omega arith in
      let p0 : Parser f = record p { input_fd = some 0; output_fd = some 0; argc = 0 } in
      let reading : Reading p0.lexer (render line) = record {
        holds = rw at_start h;
        ends = has-render line;
        inside = omega arith;
        room = omega arith;
      } in
      let fresh : Matches f p0 (start p) = record {
        words = tt;
        count = refl;
        input_same = refl;
        output_same = refl;
        kernel_same = refl;
        trace_same = refl;
      } in
      let (p', run, m) = line-run line (513 - rounds line) p0 (start p) l reading fresh refl in
      (p', subst (λ n. parse_loop f n p0 ≡ ok p') split run, m.trace_same, m.kernel_same)
