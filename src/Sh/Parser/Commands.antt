-- ===== src/Sh/Parser/Commands.antt =====
-- Command lines as they are meant: words, redirections, and how a command ends.
use edan35_os_lund_univ.Common.{
  ℕ, suc, ◌≤◌, ◌≡◌, refl, Bool, true, false, not, ◌&&◌, Option, some, List, [], ◌∷◌, ◌++◌, arith,
  if◌then◌else◌, length,
}
use edan35_os_lund_univ.Sh.Text.{ends_word, word, after}
use edan35_os_lund_univ.Sh.Lexer.{normal}
use edan35_os_lund_univ.Sh.Lexer.Reads.{kind_of, lex}
use edan35_os_lund_univ.Sh.Parser.{
  Files, Command, Event, ran, cannot_read, cannot_write, report_failure,
}

pub data Item : Type 0 where
  arg : List ℕ → Item
  from : List ℕ → Item
  to : List ℕ → Item

-- Commands, each but the last ended by | or by &.
pub data Line : Type 0 where
  last : List Item → Line
  followed : List Item → (piped : Bool) → Line → Line

abbrev pub render_items : List Item → List ℕ → List ℕ
render_items [] rest = rest
render_items (arg w ∷ items) rest = b' ' ∷ (w ++ render_items items rest)
render_items (from w ∷ items) rest = b'<' ∷ (w ++ render_items items rest)
render_items (to w ∷ items) rest = b'>' ∷ (w ++ render_items items rest)

abbrev pub end_byte : Bool → ℕ
end_byte piped = if piped then b'|' else b'&'

abbrev pub render : Line → List ℕ
render (last items) = render_items items (b'\n' ∷ [])
render (followed items piped line) = render_items items (end_byte piped ∷ render line)

abbrev pub plain : List ℕ → Bool
plain [] = true
plain (c ∷ w) = not (ends_word c) && plain w

-- A word has a byte at least and none that ends a token.
pub record IsWord (w : List ℕ) : Type 0 where
  pub is_plain : plain w ≡ true
  pub some_byte : 1 ≤ length w

abbrev pub AllWords : List Item → Type 0
AllWords [] = Unit {0}
AllWords (arg w ∷ items) = IsWord w × AllWords items
AllWords (from w ∷ items) = IsWord w × AllWords items
AllWords (to w ∷ items) = IsWord w × AllWords items

abbrev pub arg_count : List Item → ℕ
arg_count [] = 0
arg_count (arg w ∷ items) = suc (arg_count items)
arg_count (from w ∷ items) = arg_count items
arg_count (to w ∷ items) = arg_count items

-- A command that parse_line has room for: a program at least and MAX_ARG arguments at most.
pub record IsCommand (items : List Item) : Type 0 where
  pub all_words : AllWords items
  pub some_arg : 1 ≤ arg_count items
  pub few_args : arg_count items ≤ 100

abbrev pub IsLine : Line → Type 0
IsLine (last items) = IsCommand items
IsLine (followed items piped line) = IsCommand items × IsLine line

module _ (f : Files) where
  -- What has been done, and what is known of the command that is being read.
  pub record Job : Type 0 where
    pub words : List (List ℕ)
    pub input_fd : Option ℕ
    pub output_fd : Option ℕ
    pub kernel : f.Kernel
    pub trace : List Event

  abbrev pub do_item : Item → Job → Job
  do_item (arg w) j = record j { words = j.words ++ w ∷ [] }
  do_item (from w) j =
      let (k, fd) = f.open_read j.kernel w in
      record j { kernel = k; input_fd = fd; trace = report_failure fd (cannot_read w) j.trace }
  do_item (to w) j =
      let (k, fd) = f.open_write j.kernel w in
      record j { kernel = k; output_fd = fd; trace = report_failure fd (cannot_write w) j.trace }

  abbrev pub do_items : List Item → Job → Job
  do_items [] j = j
  do_items (i ∷ items) j = do_items items (do_item i j)

  -- The command is run with its words and descriptors; the next one starts afresh.
  abbrev pub do_end : (foreground doing_pipe : Bool) → Job → Job
  do_end foreground doing_pipe j =
      let c : Command = record {
        words = j.words;
        foreground = foreground;
        doing_pipe = doing_pipe;
        input_fd = j.input_fd;
        output_fd = j.output_fd;
      } in
      record j { words = []; input_fd = some 0; output_fd = some 0; trace = j.trace ++ ran c ∷ [] }

  abbrev pub do_line : Line → Job → Job
  do_line (last items) j = do_end true false (do_items items j)
  do_line (followed items piped line) j = do_line line (do_end false piped (do_items items j))

-- Whether a text starts with a byte that ends a token.
abbrev pub stops : List ℕ → Bool
stops [] = false
stops (c ∷ s) = ends_word c

pub render_items-stops :
    (items : List Item) (rest : List ℕ) → stops rest ≡ true → stops (render_items items rest) ≡ true
render_items-stops [] rest e = e
render_items-stops (arg w ∷ items) rest e = refl
render_items-stops (from w ∷ items) rest e = refl
render_items-stops (to w ∷ items) rest e = refl

word-append :
    (w rest : List ℕ)
    → plain w ≡ true
    → stops rest ≡ true
    → (word (w ++ rest) ≡ w) × (after (w ++ rest) ≡ rest)
word-append [] [] p e = cc
word-append [] (c ∷ s) p e = (ground (arith, e), ground (arith, e))
word-append (c ∷ w) rest p e =
    let (a, b) = word-append w rest (ground (arith, p)) e in
    (ground (arith, p, a), ground (arith, p, b))

-- The first token of a text that starts with a word.
pub lex-word :
    (w rest : List ℕ)
    → IsWord w
    → stops rest ≡ true
    → lex (w ++ rest) ≡ record { kind = normal; text = w; rest = rest }
unfolding kind_of
lex-word [] rest i e = let n = i.some_byte in absurd (omega arith)
lex-word (c ∷ w) rest i e =
    let p = i.is_plain in
    let (a, b) = word-append w rest (ground (arith, p)) e in ground (arith, p, a, b)
