-- ===== src/Sh/Lexer.antt =====
-- lab1_shell/sh.c: gettoken, on the buffers and the pointers into them.
pub mod Reads
pub mod Rest
use edan35_os_lund_univ.Common.{
  ℕ, zero, suc, ◌+◌, ◌≡◌, Bool, true, false, List, [], ◌∷◌, ◌==◌, ltb, if◌then◌else◌,
}
use edan35_os_lund_univ.Sh.Access.{Access, ok, buffer_overrun, ◌>>=◌}
use edan35_os_lund_univ.Sh.Text.{store, is_blank, end_of_token}

pub data TokenType : Type 0 where
  ampersand newline normal input output pipe semicolon : TokenType

-- MAXBUF, and the size of token_buf
abbrev pub maxbuf : ℕ
maxbuf = 512

abbrev pub token_size : ℕ
token_size = 1024

-- the arrays input_buf and token_buf, with the indices that input_char and token point at
pub record Lexer : Type 0 where
  pub input_buf : ℕ → ℕ
  pub input_char : ℕ
  pub token_buf : ℕ → ℕ
  pub token : ℕ

-- The loop over blanks. It goes up through input_buf, so MAXBUF + 1 rounds reach the end.
unfoldable pub skip_blanks : ℕ → Lexer → Access Lexer
skip_blanks zero l = buffer_overrun
skip_blanks (suc fuel) l =
    let rest = skip_blanks fuel (record l { input_char = suc l.input_char }) in
    if ltb l.input_char maxbuf
    then if is_blank (l.input_buf l.input_char) then rest else ok l
    else buffer_overrun

-- *token++ = c
unfoldable pub put_token : ℕ → Lexer → Access Lexer
put_token c l =
    if ltb l.token token_size
    then ok (record l { token_buf = store l.token_buf l.token c; token = suc l.token })
    else buffer_overrun

-- *token++ = *input_char++
unfoldable pub copy_char : Lexer → Access Lexer
unfolding put_token
copy_char l = put_token (l.input_buf l.input_char) (record l { input_char = suc l.input_char })

unfoldable pub copy_word : ℕ → Lexer → Access Lexer
copy_word zero l = buffer_overrun
copy_word (suc fuel) l =
    let more = copy_char l >>= copy_word fuel in
    if ltb l.input_char maxbuf
    then if end_of_token (l.input_buf l.input_char) then ok l else more
    else buffer_overrun

-- the cases of the switch; there is none for a semicolon
unfoldable pub classify : ℕ → TokenType
classify c =
    if c == b'\n'
    then newline
    else if c == b'<'
    then input
    else if c == b'>'
    then output
    else if c == b'&'
    then ampersand
    else if c == b'|'
    then pipe
    else normal

abbrev pub is_normal : TokenType → Bool
is_normal normal = true
is_normal newline = false
is_normal input = false
is_normal output = false
is_normal ampersand = false
is_normal pipe = false
is_normal semicolon = false

abbrev pub rest_of_token : TokenType → Lexer → Access Lexer
rest_of_token normal l = copy_word 513 l
rest_of_token newline l = ok l
rest_of_token input l = ok l
rest_of_token output l = ok l
rest_of_token ampersand l = ok l
rest_of_token pipe l = ok l
rest_of_token semicolon l = ok l

-- gettoken behind the loop over blanks
unfoldable pub scan : Lexer → Access (Lexer × TokenType)
scan l1 = do
  l2 ← copy_char l1
  let kind = classify (l1.input_buf l1.input_char)
  l3 ← rest_of_token kind l2
  l4 ← put_token 0 l3
  ok (l4, kind)

abbrev pub hand_over : ℕ → Lexer × TokenType → Access (Lexer × TokenType × ℕ)
hand_over outptr (l, kind) = ok (l, kind, outptr)

-- The token's type and, for *outptr, the index in token_buf where the token starts.
unfoldable pub gettoken : Lexer → Access (Lexer × TokenType × ℕ)
gettoken l = do l1 ← skip_blanks 513 l; read ← scan l1; hand_over l.token read
