-- ===== src/Vm/Program/Assembles.antt =====
-- The words that read_program stores.
use edan35_os_lund_univ.Common.{
  fun_ext, ℕ, zero, suc, ◌+◌, ◌^◌, ◌≤◌, ◌<◌, ◌≡◌, ◌⊎◌, inl, inr, refl, ap, Bool, true, false, ◌&&◌,
  Bool-cases, Option, none, some, List, [], ◌∷◌, arith, ◌==◌, get_or,
}
use edan35_os_lund_univ.Common.Words.{u32_mod}
use edan35_os_lund_univ.Vm.{
  Outcome, bind, extract_constant, extract_dest, extract_opcode, extract_source1, make_instr, ok,
}
use edan35_os_lund_univ.Vm.Encoding.{extract-make_instr}
use edan35_os_lund_univ.Vm.Program.{
  Scan, mnemonics, find_opcode, is_comment, assemble, read_lines, read_program,
}

pub record Instr : Type 0 where
  pub opcode : ℕ
  pub dest : ℕ
  pub source1 : ℕ
  pub constant : ℕ

-- What the fields of an instruction's word have room for.
pub record IsInstr (i : Instr) : Type 0 where
  pub known_opcode : i.opcode < 17
  pub dest_register : i.dest < 32
  pub source_register : i.source1 < 32
  pub short_constant :
      (i.constant < 2 ^ 15) ⊎ ((u32_mod ≤ i.constant + 2 ^ 15) × (i.constant < u32_mod))

-- The fields of a word are an instruction's.
pub record Decodes (i : Instr) (word : ℕ) : Type 0 where
  pub has_opcode : extract_opcode word ≡ i.opcode
  pub has_dest : extract_dest word ≡ i.dest
  pub has_source1 : extract_source1 word ≡ i.source1
  pub has_constant : extract_constant word ≡ i.constant

-- Lines of a program's file, with what they mean.
pub data SourceLine : Type 0 where
  comment : (text : List ℕ) → SourceLine
  instruction : (text : List ℕ) → Instr → SourceLine

abbrev pub texts : List SourceLine → List (List ℕ)
texts [] = []
texts (comment t ∷ ls) = t ∷ texts ls
texts (instruction t i ∷ ls) = t ∷ texts ls

abbrev pub instructions : List SourceLine → List Instr
instructions [] = []
instructions (comment t ∷ ls) = instructions ls
instructions (instruction t i ∷ ls) = i ∷ instructions ls

-- A comment starts with a semicolon; sscanf finds the parts of an instruction.
abbrev pub Means : Scan → SourceLine → Type 0
Means sscanf (comment t) = is_comment t ≡ true
Means sscanf (instruction t i) =
    (is_comment t ≡ false)
    × (sscanf t ≡ some (get_or mnemonics i.opcode [], (i.dest, (i.source1, i.constant))))
    × IsInstr i

abbrev pub AllMean : Scan → List SourceLine → Type 0
AllMean sscanf [] = Unit {0}
AllMean sscanf (l ∷ ls) = Means sscanf l × AllMean sscanf ls

unfoldable is_some : ℕ → Option ℕ → Bool
is_some k none = false
is_some k (some i) = i == k

is_some-≡ : (k : ℕ) (o : Option ℕ) → is_some k o ≡ true → o ≡ some k
unfolding is_some
is_some-≡ k none e = cc
is_some-≡ k (some i) e = let same : i ≡ k = ground (arith, e) in ap some same

-- A test of the numbers below a bound.
unfoldable all_below : (ℕ → Bool) → ℕ → Bool
all_below t zero = true
all_below t (suc n) = t n && all_below t n

all_below-lt : (t : ℕ → Bool) (n k : ℕ) → all_below t n ≡ true → k < n → t k ≡ true
unfolding all_below
all_below-lt t zero k e l = absurd (omega arith)
all_below-lt t (suc n) k e l = elim (Bool-cases (k == n)) [
  | inl same ↦ let same' : k ≡ n = ground (arith, same) in rw same' (ground (arith, e))
  | inr other ↦ all_below-lt t n k (ground (arith, e)) (ground (arith, other, l))
]

-- Each mnemonic is found at its opcode.
find_opcode-mnemonics : (k : ℕ) → k < 17 → find_opcode (get_or mnemonics k []) mnemonics 0 ≡ some k
unfolding find_opcode is_some all_below
find_opcode-mnemonics k l =
    is_some-≡ k (find_opcode (get_or mnemonics k []) mnemonics 0)
      (all_below-lt (λ k. is_some k (find_opcode (get_or mnemonics k []) mnemonics 0)) 17 k refl l)

assemble-Decodes :
    (sscanf : Scan) (t : List ℕ) (i : Instr)
    → sscanf t ≡ some (get_or mnemonics i.opcode [], (i.dest, (i.source1, i.constant)))
    → IsInstr i
    → (word : ℕ) × (assemble sscanf t ≡ ok word) × Decodes i word
unfolding assemble
assemble-Decodes sscanf t i e h =
    let (o, d, s, c) =
      extract-make_instr i.opcode i.dest i.source1 i.constant
        (let l = h.known_opcode in omega (arith, l)) h.dest_register h.source_register
        h.short_constant in
    (
      make_instr i.opcode i.dest i.source1 i.constant,
      rw (assemble, e, find_opcode-mnemonics i.opcode h.known_opcode) refl,
      record { has_opcode = o; has_dest = d; has_source1 = s; has_constant = c },
    )

-- Words with the fields of the instructions, one for each.
abbrev pub AllDecode : List Instr → List ℕ → Type 0
AllDecode [] [] = Unit {0}
AllDecode [] (w ∷ ws) = ⊥
AllDecode (i ∷ is) [] = ⊥
AllDecode (i ∷ is) (w ∷ ws) = Decodes i w × AllDecode is ws

-- Words written to an address and the ones behind it, with the address behind the last one.
abbrev pub store_all :
    {M : Type 0} → (M → (addr data' : ℕ) → Outcome M) → ℕ → List ℕ → M → Outcome (M × ℕ)
store_all write a [] m = ok (m, a)
store_all write a (w ∷ ws) m = bind (write m a w) (λ m'. store_all write (suc a) ws m')

module _ (sscanf : Scan) {M : Type 0} (read : M → (addr : ℕ) → Outcome (M × ℕ))
    (write : M → (addr data' : ℕ) → Outcome M) where
  read_lines-Assembles :
      (src : List SourceLine)
      → AllMean sscanf src
      → (words : List ℕ) × AllDecode (instructions src) words
        × ((line : ℕ) (m : M)
            → read_lines sscanf read write (texts src) line m ≡ store_all write line words m)
  unfolding read_lines
  read_lines-Assembles [] h = ([], tt, λ line m. refl)
  read_lines-Assembles (comment t ∷ src) (c, h) =
      let (words, decode, run) = read_lines-Assembles src h in
      (words, decode, λ line m. rw (read_lines, c) (run line m))
  read_lines-Assembles (instruction t i ∷ src) ((c, e, ok_instr), h) =
      let (word, made, decodes) = assemble-Decodes sscanf t i e ok_instr in
      let (words, decode, run) = read_lines-Assembles src h in
      (
        word ∷ words,
        (decodes, decode),
        λ line m.
            rw (read_lines, c, made)
              (ap (λ k. bind (write m line word) k) (fun_ext (λ m'. run (suc line) m'))),
      )

  -- read_program on a file of comments and of instructions, for which sscanf finds the mnemonic of
  -- the opcode, registers below 32 and a constant that is a signed number of 16 bits. There is one
  -- word for each instruction in their order, with the instruction's fields, such that read_program
  -- is the storing of these words from address 0 on, with their number for its result. This holds
  -- over any memory, also over one whose writes fail.
  pub read_program-Assembles :
      (src : List SourceLine) (m : M)
      → AllMean sscanf src
      → (words : List ℕ) × AllDecode (instructions src) words
        × (read_program sscanf read write (some (texts src)) m ≡ store_all write 0 words m)
  unfolding read_program
  read_program-Assembles src m h =
      let (words, decode, run) = read_lines-Assembles src h in (words, decode, run 0 m)
