-- ===== src/Sh/Parser.antt =====
-- lab1_shell/sh.c: parse_line, with the programs that it hands to run_program.
pub mod Safe
pub mod Commands
pub mod Args
pub mod Runs
pub mod Rendered
pub mod RoundTrip
pub mod Overrun
use edan35_os_lund_univ.Common.{
  ℕ, zero, suc, ◌+◌, ◌≡◌, Bool, true, false, Option, none, some, List, [], ◌∷◌, ◌++◌, ◌==◌, ltb,
  if◌then◌else◌,
}
use edan35_os_lund_univ.Sh.Access.{Access, ok, argv_overrun, buffer_overrun, ◌>>=◌}
use edan35_os_lund_univ.Sh.Lexer.{
  TokenType, ampersand, newline, normal, input, output, pipe, semicolon, Lexer, is_normal, gettoken,
}

-- open for reading, and open that creates a file for writing; `none` is -1.
pub record Files : Type 1 where
  pub Kernel : Type 0
  pub open_read : Kernel → List ℕ → Kernel × Option ℕ
  pub open_write : Kernel → List ℕ → Kernel × Option ℕ

-- The arguments of run_program, with the file descriptors that it finds.
pub record Command : Type 0 where
  pub words : List (List ℕ)
  pub foreground : Bool
  pub doing_pipe : Bool
  pub input_fd : Option ℕ
  pub output_fd : Option ℕ

-- What parse_line does: it runs programs and prints error messages.
pub data Event : Type 0 where
  ran : Command → Event
  expected_file_name : List ℕ → Event
  cannot_read : List ℕ → Event
  cannot_write : List ℕ → Event

-- the elements of argv that exist: MAX_ARG + 1
abbrev pub argv_size : ℕ
argv_size = 101

-- the string at an index of token_buf
unfoldable pub string_at : ℕ → (ℕ → ℕ) → ℕ → List ℕ
string_at zero b p = []
string_at (suc n) b p = let rest = b p ∷ string_at n b (suc p) in if b p == 0 then [] else rest

-- the string that an element of argv points at; NULL has none
abbrev pub text_of : (ℕ → ℕ) → Option ℕ → List ℕ
text_of b none = []
text_of b (some p) = string_at 1024 b p

-- the strings of `n` elements of argv from the k-th on
abbrev pub texts_of : (ℕ → ℕ) → (ℕ → Option ℕ) → (n k : ℕ) → List (List ℕ)
texts_of b v zero k = []
texts_of b v (suc n) k = text_of b (v k) ∷ texts_of b v n (suc k)

abbrev pub set_arg : (ℕ → Option ℕ) → ℕ → Option ℕ → ℕ → Option ℕ
set_arg v k p j = if j == k then p else v j

abbrev pub report_failure : Option ℕ → Event → List Event → List Event
report_failure none e trace = trace ++ e ∷ []
report_failure (some fd) e trace = trace

module _ (f : Files) where
  -- the lexer, the local variables of parse_line, input_fd and output_fd, and what was done
  pub record Parser : Type 0 where
    pub lexer : Lexer
    pub argv : ℕ → Option ℕ
    pub argc : ℕ
    pub input_fd : Option ℕ
    pub output_fd : Option ℕ
    pub kernel : f.Kernel
    pub trace : List Event

  -- Whether the loop goes on.
  pub data Round : Type 0 where
    again : Parser → Round
    finished : Parser → Round

  abbrev pub took : Parser → Lexer × TokenType × ℕ → Access (Parser × TokenType)
  took p (l, kind, out) = ok (record p { lexer = l; argv = set_arg p.argv p.argc (some out) }, kind)

  -- gettoken(&argv[argc])
  unfoldable pub next_token : Parser → Access (Parser × TokenType)
  next_token p = if ltb p.argc argv_size then gettoken p.lexer >>= took p else argv_overrun

  -- the string at argv[argc]
  abbrev pub file_name : Parser → List ℕ
  file_name p = text_of p.lexer.token_buf (p.argv p.argc)

  unfoldable pub read_from : Parser × TokenType → Access Round
  read_from (p, kind) =
      let (k, fd) = f.open_read p.kernel (file_name p) in
      if is_normal kind
      then ok (
          again (record p {
            kernel = k;
            input_fd = fd;
            trace = report_failure fd (cannot_read (file_name p)) p.trace;
          }))
      else ok (finished (record p { trace = p.trace ++ expected_file_name (file_name p) ∷ [] }))

  unfoldable pub write_to : Parser × TokenType → Access Round
  write_to (p, kind) =
      let (k, fd) = f.open_write p.kernel (file_name p) in
      if is_normal kind
      then ok (
          again (record p {
            kernel = k;
            output_fd = fd;
            trace = report_failure fd (cannot_write (file_name p)) p.trace;
          }))
      else ok (finished (record p { trace = p.trace ++ expected_file_name (file_name p) ∷ [] }))

  -- The end of a command; `last` is the test for NEWLINE.
  unfoldable pub end_command : (foreground doing_pipe last : Bool) → Parser → Round
  end_command foreground doing_pipe last p =
      let c : Command = record {
        words = texts_of p.lexer.token_buf p.argv p.argc 0;
        foreground = foreground;
        doing_pipe = doing_pipe;
        input_fd = p.input_fd;
        output_fd = p.output_fd;
      } in
      let p' : Parser = record p {
        argv = set_arg p.argv p.argc none;
        trace = p.trace ++ ran c ∷ [];
        input_fd = some 0;
        output_fd = some 0;
        argc = 0;
      } in
      if p.argc == 0 then finished p else if last then finished p' else again p'

  abbrev pub act : Parser × TokenType → Access Round
  act (p, normal) = ok (again (record p { argc = suc p.argc }))
  act (p, input) = next_token p >>= read_from
  act (p, output) = next_token p >>= write_to
  act (p, pipe) = ok (end_command false true false p)
  act (p, ampersand) = ok (end_command false false false p)
  act (p, newline) = ok (end_command true false true p)
  act (p, semicolon) = ok (end_command true false false p)

  abbrev pub go_on : (Parser → Access Parser) → Round → Access Parser
  go_on loop (again p) = loop p
  go_on loop (finished p) = ok p

  -- Each round reads a byte of input_buf at least, so MAXBUF + 1 rounds reach its end.
  unfoldable pub parse_loop : ℕ → Parser → Access Parser
  parse_loop zero p = buffer_overrun
  parse_loop (suc fuel) p = next_token p >>= act >>= go_on (parse_loop fuel)

  unfoldable pub parse_line : Parser → Access Parser
  parse_line p = parse_loop 513 (record p { input_fd = some 0; output_fd = some 0; argc = 0 })
