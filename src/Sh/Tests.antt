-- ===== src/Sh/Tests.antt =====
-- Command lines, inputs and a search path, and the theorems at them.
use edan35_os_lund_univ.Common.{
  ℕ, zero, suc, ◌≡◌, ◌≢◌, refl, true, false, some, none, List, [], ◌∷◌, ◌++◌, map, arith, has,
  length,
}
use edan35_os_lund_univ.Shell.Rings.{IsRing}
use edan35_os_lund_univ.Sh.Access.{Access, ok, argv_overrun, buffer_overrun}
use edan35_os_lund_univ.Sh.Text.{Holds, Holds-write, write}
use edan35_os_lund_univ.Sh.Lexer.{Lexer, gettoken}
use edan35_os_lund_univ.Sh.Lexer.Reads.{lex, behind, gettoken-lex}
use edan35_os_lund_univ.Sh.Line.{got, fetch_line, unlines, fetch_line-unlines}
use edan35_os_lund_univ.Sh.Parser.{Files, Parser, parse_line, ran}
use edan35_os_lund_univ.Sh.Parser.Safe.{Within, parse_line-Within}
use edan35_os_lund_univ.Sh.Parser.Commands.{
  Item, arg, from, to, Line, last, followed, render_items, render, IsWord, IsLine, do_line,
}
use edan35_os_lund_univ.Sh.Parser.RoundTrip.{start, parse_line-render}
use edan35_os_lund_univ.Sh.Parser.Overrun.{StartsWith, no_words, word_first, parse_line-overrun}
use edan35_os_lund_univ.Sh.Lexer.Reads.{Lexeme}
use edan35_os_lund_univ.Sh.Parser.Commands.{stops, lex-word}
use edan35_os_lund_univ.Common.{ap, sym, subst}
use edan35_os_lund_univ.Sh.Session.{
  session, stream_of, do_lines, AllFit, session-ends, session-render,
}
use edan35_os_lund_univ.Sh.SearchPath.{Memory, init_search_path, set}
use edan35_os_lund_univ.Sh.SearchPath.Strings.{join, Strings}
use edan35_os_lund_univ.Sh.SearchPath.Listed.{init_search_path-join}

abbrev ls : List ℕ
ls = b'l' ∷ b's' ∷ []

abbrev wc : List ℕ
wc = b'w' ∷ b'c' ∷ []

abbrev file : List ℕ
file = b'f' ∷ []

ls-IsWord : IsWord ls
ls-IsWord = record { is_plain = refl; some_byte = omega arith }

wc-IsWord : IsWord wc
wc-IsWord = record { is_plain = refl; some_byte = omega arith }

file-IsWord : IsWord file
file-IsWord = record { is_plain = refl; some_byte = omega arith }

-- " ls<f| wc>f" and the end of the line
abbrev pipeline : Line
pipeline = followed (arg ls ∷ from file ∷ []) true (last (arg wc ∷ to file ∷ []))

pipeline-IsLine : IsLine pipeline
pipeline-IsLine = (
  record {
    all_words = (ls-IsWord, (file-IsWord, tt));
    some_arg = omega arith;
    few_args = omega arith;
  },
  record {
    all_words = (wc-IsWord, (file-IsWord, tt));
    some_arg = omega arith;
    few_args = omega arith;
  },
)

-- Every file opens, with the next free descriptor.
abbrev files : Files
files = record {
  Kernel = ℕ;
  open_read = λ k w. (suc k, some k);
  open_write = λ k w. (suc k, some k);
}

abbrev blank_buf : ℕ → ℕ
blank_buf j = 0

abbrev lexer_on : List ℕ → Lexer
lexer_on s = record {
  input_buf = write blank_buf 0 s;
  input_char = 0;
  token_buf = blank_buf;
  token = 0;
}

abbrev parser_on : List ℕ → Parser files
parser_on s = record {
  lexer = lexer_on s;
  argv = λ k. none;
  argc = 0;
  input_fd = none;
  output_fd = none;
  kernel = 3;
  trace = [];
}

pipeline_done :
    (do_line files pipeline (start files (parser_on []))).trace
    ≡ ran (record {
      words = ls ∷ [];
      foreground = false;
      doing_pipe = true;
      input_fd = some 3;
      output_fd = some 0;
    })
      ∷ ran (record {
        words = wc ∷ [];
        foreground = true;
        doing_pipe = false;
        input_fd = some 0;
        output_fd = some 4;
      })
      ∷ []
pipeline_done = refl

gettoken-lex_example :
    gettoken (lexer_on (render pipeline))
    ≡ ok (
      behind (lexer_on (render pipeline)) (render pipeline) (lex (render pipeline)),
      (lex (render pipeline)).kind,
      0,
    )
gettoken-lex_example =
    gettoken-lex (lexer_on (render pipeline)) (render pipeline)
      (Holds-write blank_buf 0 (render pipeline)) refl (omega arith) (omega arith)

parse_line-Within_example :
    Within files (length (render pipeline)) (parse_line files (parser_on (render pipeline)))
parse_line-Within_example =
    parse_line-Within files (parser_on (render pipeline)) (render pipeline) refl refl
      (Holds-write blank_buf 0 (render pipeline)) refl (omega arith)

parse_line-render_example :
    (p' : Parser files) × (parse_line files (parser_on (render pipeline)) ≡ ok p')
    × (p'.trace ≡ (do_line files pipeline (start files (parser_on (render pipeline)))).trace)
    × (p'.kernel ≡ 5)
parse_line-render_example =
    parse_line-render files (parser_on (render pipeline)) pipeline pipeline-IsLine refl refl
      (Holds-write blank_buf 0 (render pipeline)) (omega arith)

-- so many arguments
abbrev many : ℕ → List Item
many zero = []
many (suc n) = arg file ∷ many n

many-stops : (n : ℕ) → stops (render_items (many n) (b'\n' ∷ [])) ≡ true
many-stops zero = refl
many-stops (suc n) = refl

many-StartsWith : (n : ℕ) → StartsWith n (render_items (many n) (b'\n' ∷ []))
many-StartsWith zero = no_words
many-StartsWith (suc n) =
    let rest = render_items (many n) (b'\n' ∷ []) in
    let t = lex-word file rest file-IsWord (many-stops n) in
    word_first (ap (λ (l : Lexeme). l.kind) t)
      (subst (StartsWith n) (sym (ap (λ (l : Lexeme). l.rest) t)) (many-StartsWith n))

abbrev long_command : List ℕ
long_command = render_items (many 101) (b'\n' ∷ [])

parse_line-overrun_example : parse_line files (parser_on long_command) ≡ argv_overrun
parse_line-overrun_example =
    parse_line-overrun files (parser_on long_command) 101 long_command (many-StartsWith 101)
      (omega arith) refl refl refl (Holds-write blank_buf 0 long_command) (omega arith)

-- a line of dashes
abbrev dashes : ℕ → List ℕ
dashes zero = []
dashes (suc n) = b'-' ∷ dashes n

has-dashes : (n : ℕ) → has b'\n' (dashes n) ≡ false
has-dashes zero = refl
has-dashes (suc n) = has-dashes n

fetch_line-unlines_example :
    (buf' : ℕ → ℕ) × (fetch_line (unlines (dashes 600 ∷ []) (ls ++ b'\n' ∷ wc)) blank_buf
      ≡ got 3 buf' wc)
    × Holds buf' 0 (ls ++ b'\n' ∷ 0 ∷ [])
fetch_line-unlines_example =
    fetch_line-unlines (dashes 600 ∷ []) ls wc blank_buf (has-dashes 600, omega arith, tt) refl
      (omega arith)

session-ends_example :
    (o : Access (Parser files)) × (session files (parser_on []) (render pipeline) ≡ some o)
    × (o ≢ buffer_overrun)
session-ends_example = session-ends files (parser_on []) (render pipeline)

two_lines-AllFit : AllFit files (pipeline ∷ pipeline ∷ [])
two_lines-AllFit = (pipeline-IsLine, omega arith, (pipeline-IsLine, omega arith, tt))

session-render_example :
    (p' : Parser files) × (session files (parser_on []) (stream_of files (pipeline ∷ pipeline ∷ []))
      ≡ some (ok p'))
    × ((p'.kernel, p'.trace) ≡ do_lines files (pipeline ∷ pipeline ∷ []) 3 [])
session-render_example =
    session-render files (parser_on []) (pipeline ∷ pipeline ∷ []) two_lines-AllFit

abbrev memory : Memory
memory = record {
  chars = blank_buf;
  nodes = record { succ = λ a. 0; pred = λ a. 0; data_of = λ a. 0 };
}

init_search_path-join_example :
    (m' : Memory) × (init_search_path (some (join ls (wc ∷ []))) 100 (8 ∷ 16 ∷ []) 50 memory
      ≡ some (set m' 8))
    × IsRing m'.nodes 8 (16 ∷ [])
    × Strings m'.chars 106 (map m'.nodes.data_of (8 ∷ 16 ∷ [])) (ls ∷ wc ∷ [])
init_search_path-join_example =
    init_search_path-join memory ls (wc ∷ []) 100 8 (16 ∷ []) 50 (refl, (refl, tt)) (omega arith)
      (λ e. absurd (omega (arith, e))) refl (refl, (refl, tt)) refl
