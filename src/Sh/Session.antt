-- ===== src/Sh/Session.antt =====
-- lab1_shell/sh.c: the loop of main, which reads lines and runs them up to the end of the input.
use edan35_os_lund_univ.Common.{
  ℕ, zero, suc, ◌+◌, ◌-◌, ◌≤◌, ◌<◌, ◌≡◌, ◌≢◌, refl, sym, ap, subst, ◌∙◌, true, false, Option, some,
  none, List, [], ◌∷◌, ◌++◌, arith, has, has-append, length, length-append,
}
use mathlib.Core.List.{append_assoc}
use edan35_os_lund_univ.Sh.Access.{Access, ok, argv_overrun, buffer_overrun}
use edan35_os_lund_univ.Sh.Text.{Holds, Holds-append_left}
use edan35_os_lund_univ.Sh.Lexer.{maxbuf}
use edan35_os_lund_univ.Sh.Line.{
  Fetched, eof, got, fetch_loop, fetch_line, fetch_line-unlines, Fetches, fetch_loop-Fetches,
}
use edan35_os_lund_univ.Sh.Parser.{Files, Parser, Event, parse_line}
use edan35_os_lund_univ.Sh.Parser.Safe.{Within, parse_line-Within}
use edan35_os_lund_univ.Sh.Parser.Commands.{
  Item, arg, from, to, Line, last, followed, render_items, render, plain, AllWords, IsLine, do_line,
}
use edan35_os_lund_univ.Sh.Parser.RoundTrip.{parse_line-render}

module _ (f : Files) where
  abbrev pub after_line :
      (Parser f → Option (Access (Parser f))) → Access (Parser f) → Option (Access (Parser f))
  after_line loop (ok p) = loop p
  after_line loop argv_overrun = some argv_overrun
  after_line loop buffer_overrun = some buffer_overrun

  -- the pointers and the buffer as fetch_line leaves them
  abbrev pub refilled : Parser f → (ℕ → ℕ) → Parser f
  refilled p buf = record p {
    lexer = record p.lexer { input_buf = buf; input_char = 0; token = 0 };
  }

  -- The loop for a number of lines at most; `none` if there are more.
  unfoldable pub main_loop : ℕ → Parser f → List ℕ → Option (Access (Parser f))
  main_loop zero p stream = none
  main_loop (suc fuel) p stream = elim (fetch_line stream p.lexer.input_buf) [
    | eof ↦ some (ok p)
    | got count buf rest ↦ after_line (λ q. main_loop fuel q rest) (parse_line f (refilled p buf))
  ]

  -- Each line takes a byte of the input at least.
  unfoldable pub session : Parser f → List ℕ → Option (Access (Parser f))
  session p stream = main_loop (suc (length stream)) p stream

  -- The shell stops without leaving input_buf or token_buf.
  abbrev Stops : Option (Access (Parser f)) → Type 0
  Stops none = ⊥
  Stops (some (ok p)) = Unit {0}
  Stops (some argv_overrun) = Unit {0}
  Stops (some buffer_overrun) = ⊥

  after_line-Stops :
      (n : ℕ) (loop : Parser f → Option (Access (Parser f))) (o : Access (Parser f))
      → Within f n o
      → ((q : Parser f) → Stops (loop q))
      → Stops (after_line loop o)
  after_line-Stops n loop (ok p) w h = h p
  after_line-Stops n loop argv_overrun w h = tt
  after_line-Stops n loop buffer_overrun w h = w

  main_loop-Stops :
      (fuel : ℕ) (p : Parser f) (stream : List ℕ)
      → length stream < fuel
      → Stops (main_loop fuel p stream)
  unfolding main_loop fetch_line
  main_loop-Stops zero p stream enough = absurd (omega arith)
  main_loop-Stops (suc fuel) p stream enough =
      go (fetch_loop stream p.lexer.input_buf 0) (fetch_loop-Fetches stream p.lexer.input_buf 0)
        (λ q rest l. main_loop-Stops fuel q rest (omega arith))
    where
      go :
          (o : Fetched)
          → Fetches stream o
          → ((q : Parser f) (rest : List ℕ)
              → length rest < length stream
              → Stops (main_loop fuel q rest))
          → Stops (elim o [
            | eof ↦ some (ok p)
            | got count buf rest ↦
                after_line (λ q. main_loop fuel q rest) (parse_line f (refilled p buf))
          ])
      go eof h more = tt
      go (got count buf rest) (s, h, n, l, shorter) more =
          after_line-Stops (length s) (λ q. main_loop fuel q rest) (parse_line f (refilled p buf))
            (parse_line-Within f (refilled p buf) s refl refl h n (omega arith))
            (λ q. more q rest shorter)

  Stops-some :
      (r : Option (Access (Parser f)))
      → Stops r
      → (o : Access (Parser f)) × (r ≡ some o) × (o ≢ buffer_overrun)
  Stops-some none s = absurd s
  Stops-some (some (ok p)) s = (ok p, refl, λ e. cc)
  Stops-some (some argv_overrun) s = (argv_overrun, refl, λ e. cc)
  Stops-some (some buffer_overrun) s = absurd s

  -- Whatever bytes the input has, the shell's loop ends, at its end or where a line goes beyond argv,
  -- and it never goes beyond input_buf or token_buf.
  pub session-ends :
      (p : Parser f) (stream : List ℕ)
      → (o : Access (Parser f)) × (session p stream ≡ some o) × (o ≢ buffer_overrun)
  unfolding session
  session-ends p stream =
      Stops-some (main_loop (suc (length stream)) p stream)
        (main_loop-Stops (suc (length stream)) p stream (omega arith))

  -- The input that has the lines, each of which ends itself.
  abbrev pub stream_of : List Line → List ℕ
  stream_of [] = []
  stream_of (l ∷ ls) = render l ++ stream_of ls

  -- Lines that parse_line has room for and that fit in input_buf with a zero.
  abbrev pub AllFit : List Line → Type 0
  AllFit [] = Unit {0}
  AllFit (l ∷ ls) = IsLine l × (length (render l) < maxbuf) × AllFit ls

  -- Each line is done from where the one before it ended.
  abbrev pub do_lines :
      List Line → (kernel : f.Kernel) → (trace : List Event) → f.Kernel × List Event
  do_lines [] k t = (k, t)
  do_lines (l ∷ ls) k t =
      let j =
        do_line f l
          (record { words = []; input_fd = some 0; output_fd = some 0; kernel = k; trace = t }) in
      do_lines ls j.kernel j.trace

has-plain : (w : List ℕ) → plain w ≡ true → has b'\n' w ≡ false
has-plain [] e = refl
has-plain (c ∷ w) e = ground (arith, e, has-plain w)

-- A line that is written out has its end at its end alone.
abbrev EndsOnce : List ℕ → Type 0
EndsOnce t = (s : List ℕ) × (t ≡ s ++ b'\n' ∷ []) × (has b'\n' s ≡ false)

EndsOnce-append : (w t : List ℕ) → has b'\n' w ≡ false → EndsOnce t → EndsOnce (w ++ t)
EndsOnce-append w t n (s, e, n') = (
  w ++ s,
  ap (λ x. w ++ x) e ∙ sym (append_assoc w s (b'\n' ∷ [])),
  ground (arith, has-append b'\n' w s, n, n'),
)

render_items-EndsOnce :
    (items : List Item) (r : List ℕ) → AllWords items → EndsOnce r → EndsOnce (render_items items r)
render_items-EndsOnce [] r a e = e
render_items-EndsOnce (arg w ∷ items) r (i, a) e =
    EndsOnce-append (b' ' ∷ w) (render_items items r) (has-plain w i.is_plain)
      (render_items-EndsOnce items r a e)
render_items-EndsOnce (from w ∷ items) r (i, a) e =
    EndsOnce-append (b'<' ∷ w) (render_items items r) (has-plain w i.is_plain)
      (render_items-EndsOnce items r a e)
render_items-EndsOnce (to w ∷ items) r (i, a) e =
    EndsOnce-append (b'>' ∷ w) (render_items items r) (has-plain w i.is_plain)
      (render_items-EndsOnce items r a e)

render-EndsOnce : (line : Line) → IsLine line → EndsOnce (render line)
render-EndsOnce (last items) c =
    render_items-EndsOnce items (b'\n' ∷ []) c.all_words ([], refl, refl)
render-EndsOnce (followed items true line) (c, l) =
    render_items-EndsOnce items (b'|' ∷ render line) c.all_words
      (EndsOnce-append (b'|' ∷ []) (render line) refl (render-EndsOnce line l))
render-EndsOnce (followed items false line) (c, l) =
    render_items-EndsOnce items (b'&' ∷ render line) c.all_words
      (EndsOnce-append (b'&' ∷ []) (render line) refl (render-EndsOnce line l))

-- fetch_line on a line that is written out.
fetch_line-render :
    (line : Line) (rest : List ℕ) (buf : ℕ → ℕ)
    → IsLine line
    → length (render line) < maxbuf
    → (count : ℕ) × (buf' : ℕ → ℕ) × (fetch_line (render line ++ rest) buf ≡ got count buf' rest)
      × Holds buf' 0 (render line)
fetch_line-render line rest buf l fits =
    let (s, e, n) = render-EndsOnce line l in
    let len : length (render line) ≡ length s + 1 = ap length e ∙ length-append s (b'\n' ∷ []) in
    let (buf', run, h) = fetch_line-unlines [] s rest buf tt n (omega (arith, len)) in
    let shape : render line ++ rest ≡ s ++ b'\n' ∷ rest =
      ap (λ x. x ++ rest) e ∙ append_assoc s (b'\n' ∷ []) rest in
    (
      length s + 1,
      buf',
      ap (λ x. fetch_line x buf) shape ∙ run,
      subst (Holds buf' 0) (sym e) (
          Holds-append_left buf' 0 (s ++ b'\n' ∷ []) (0 ∷ [])
            (subst (Holds buf' 0) (sym (append_assoc s (b'\n' ∷ []) (0 ∷ []))) h)),
    )

module _ (f : Files) where
  main_loop-render :
      (lines : List Line) (extra : ℕ) (p : Parser f)
      → AllFit f lines
      → (p' : Parser f) × (main_loop f (suc (length lines) + extra) p (stream_of f lines)
          ≡ some (ok p'))
        × ((p'.kernel, p'.trace) ≡ do_lines f lines p.kernel p.trace)
  unfolding main_loop fetch_line fetch_loop
  main_loop-render [] extra p a =
      let more : 1 + extra ≡ suc extra = omega arith in
      (p, rw (more, main_loop, fetch_line, fetch_loop) refl, refl)
  main_loop-render (l ∷ ls) extra p (i, fits, a) =
      let (count, buf, fetched, h) =
        fetch_line-render l (stream_of f ls) p.lexer.input_buf i fits in
      let q = refilled f p buf in
      let (q', run, trace, kernel) = parse_line-render f q l i refl refl h (omega arith) in
      let (p', runs, all) = main_loop-render ls extra q' a in
      let more : suc (suc (length ls)) + extra ≡ suc (suc (length ls) + extra) = omega arith in
      (
        p',
        rw (more, main_loop, fetched, run) runs,
        all ∙ ap (λ (j : f.Kernel × List Event). do_lines f ls j.0 j.1) (rw (kernel, trace) refl),
      )

  length-stream_of :
      (lines : List Line) → AllFit f lines → length lines ≤ length (stream_of f lines)
  length-stream_of [] a = omega arith
  length-stream_of (l ∷ ls) (i, fits, a) =
      let (s, e, n) = render-EndsOnce l i in
      let len : length (render l) ≡ length s + 1 = ap length e ∙ length-append s (b'\n' ∷ []) in
      omega (arith, len, length-append (render l) (stream_of f ls), length-stream_of ls a)

  -- On an input of written out lines, each shorter than MAXBUF bytes with its end, whose commands
  -- have a word at least and at most MAX_ARG, the shell comes to the end of the input and has done
  -- every line in its order: its trace and the files that it opened are those of the lines.
  pub session-render :
      (p : Parser f) (lines : List Line)
      → AllFit f lines
      → (p' : Parser f) × (session f p (stream_of f lines) ≡ some (ok p'))
        × ((p'.kernel, p'.trace) ≡ do_lines f lines p.kernel p.trace)
  unfolding session
  session-render p lines a =
      let enough = length-stream_of lines a in
      let n : ℕ = length (stream_of f lines) - length lines in
      let split : suc (length lines) + n ≡ suc (length (stream_of f lines)) = omega arith in
      let (p', run, all) = main_loop-render lines n p a in
      (p', subst (λ k. main_loop f k p (stream_of f lines) ≡ some (ok p')) split run, all)
