-- ===== src/Sh/Parser/Rendered.antt =====
-- The lengths, the rounds and the words of command lines that are written out.
use edan35_os_lund_univ.Common.{
  ℕ, suc, ◌+◌, ◌≤◌, ◌≡◌, refl, Bool, true, false, List, [], ◌∷◌, arith, has, has-append, length,
  length-append,
}
use edan35_os_lund_univ.Sh.Text.{ends_word}
use edan35_os_lund_univ.Sh.Parser.Commands.{
  Item, arg, from, to, Line, last, followed, render_items, end_byte, render, AllWords, arg_count,
}

pub has-render_items :
    (items : List Item) (r : List ℕ) → has b'\n' r ≡ true → has b'\n' (render_items items r) ≡ true
has-render_items [] r n = n
has-render_items (arg w ∷ items) r n =
    let rest = has-render_items items r n in
    ground (arith, has-append b'\n' w (render_items items r), rest)
has-render_items (from w ∷ items) r n =
    let rest = has-render_items items r n in
    ground (arith, has-append b'\n' w (render_items items r), rest)
has-render_items (to w ∷ items) r n =
    let rest = has-render_items items r n in
    ground (arith, has-append b'\n' w (render_items items r), rest)

pub has-render : (line : Line) → has b'\n' (render line) ≡ true
has-render (last items) = has-render_items items (b'\n' ∷ []) refl
has-render (followed items piped line) =
    let rest = has-render line in
    has-render_items items (end_byte piped ∷ render line) (ground (arith, rest))

pub length-render_items :
    (items : List Item) (r : List ℕ) → length items + length r ≤ length (render_items items r)
length-render_items [] r = omega arith
length-render_items (arg w ∷ items) r =
    omega (arith, length-render_items items r, length-append w (render_items items r))
length-render_items (from w ∷ items) r =
    omega (arith, length-render_items items r, length-append w (render_items items r))
length-render_items (to w ∷ items) r =
    omega (arith, length-render_items items r, length-append w (render_items items r))

-- The rounds of the loop that a line takes.
abbrev pub rounds : Line → ℕ
rounds (last items) = suc (length items)
rounds (followed items piped line) = suc (length items) + rounds line

pub rounds-render : (line : Line) → rounds line ≤ length (render line)
rounds-render (last items) = omega (arith, length-render_items items (b'\n' ∷ []))
rounds-render (followed items piped line) =
    omega (arith, length-render_items items (end_byte piped ∷ render line), rounds-render line)

pub render_item :
    (item : Item) (items : List Item) (r : List ℕ)
    → render_items (item ∷ []) (render_items items r) ≡ render_items (item ∷ items) r
render_item (arg w) items r = refl
render_item (from w) items r = refl
render_item (to w) items r = refl

pub AllWords-split :
    (item : Item) (items : List Item)
    → AllWords (item ∷ items)
    → AllWords (item ∷ []) × AllWords items
AllWords-split (arg w) items (i, a) = ((i, tt), a)
AllWords-split (from w) items (i, a) = ((i, tt), a)
AllWords-split (to w) items (i, a) = ((i, tt), a)

pub arg_count-cons :
    (item : Item) (items : List Item)
    → arg_count (item ∷ items) ≡ arg_count (item ∷ []) + arg_count items
arg_count-cons (arg w) items = omega arith
arg_count-cons (from w) items = omega arith
arg_count-cons (to w) items = omega arith

pub end_byte-stops : (piped : Bool) → ends_word (end_byte piped) ≡ true
end_byte-stops true = refl
end_byte-stops false = refl
