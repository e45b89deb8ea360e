-- ===== src/Vm/Program/Tests.antt =====
-- A program's file, and the theorems at it.
use edan35_os_lund_univ.Common.{
  ℕ, ◌+◌, ◌-◌, ◌*◌, ◌≡◌, ◌&&◌, inl, refl, Option, none, some, List, [], ◌∷◌, arith, ◌==◌, leb,
  if◌then◌else◌,
}
use edan35_os_lund_univ.Vm.{put, fifo, bit_or, make_instr, ok, stop, assertion}
use edan35_os_lund_univ.Vm.Tests.{cpu, read_flat, write_flat}
use edan35_os_lund_univ.Vm.Program.{
  Scan, find_opcode, assemble, read_lines, read_program, main, fifo_option,
}
use edan35_os_lund_univ.Vm.Program.Assembles.{
  SourceLine, comment, instruction, texts, instructions, AllMean, AllDecode, store_all,
  read_program-Assembles,
}
use edan35_os_lund_univ.Vm.Program.Aborts.{AllAssemble, main-aborts}

-- a number without a sign, and what follows it
abbrev number : ℕ → List ℕ → ℕ × List ℕ
number n [] = (n, [])
number n (c ∷ s) =
    let rest = number (10 * n + (c - b'0')) s in
    if leb b'0' c && leb c b'9' then rest else (n, c ∷ s)

abbrev comma : List ℕ → Option (List ℕ)
comma [] = none
comma (c ∷ s) = if c == b',' then some s else none

-- the bytes up to a blank, and those behind it
abbrev text : List ℕ → List ℕ × List ℕ
text [] = ([], [])
text (c ∷ s) = let rest = text s in if c == b' ' then ([], s) else (c ∷ rest.0, rest.1)

-- sscanf on lines with one blank and without signs
abbrev scan : Scan
scan line =
    let (t, r) = text line in
    let (a, r1) = number 0 r in
    elim (comma r1) [
      | none ↦ none
      | some r2 ↦
          let (b, r3) = number 0 r2 in
          elim (comma r3) [
            | none ↦ none
            | some r4 ↦ let (c, r5) = number 0 r4 in some (t, (a, (b, c)))
          ]
    ]

abbrev source : List SourceLine
source =
    comment (b';' ∷ b' ' ∷ b'f' ∷ b'i' ∷ b'v' ∷ b'e' ∷ [])
    ∷ instruction (b'a' ∷ b'd' ∷ b'd' ∷ b'i' ∷ b' ' ∷ b'1' ∷ b',' ∷ b'0' ∷ b',' ∷ b'5' ∷ [])
        (record { opcode = 1; dest = 1; source1 = 0; constant = 5 })
    ∷ instruction (b'h' ∷ b'a' ∷ b'l' ∷ b't' ∷ b' ' ∷ b'0' ∷ b',' ∷ b'0' ∷ b',' ∷ b'0' ∷ [])
        (record { opcode = 16; dest = 0; source1 = 0; constant = 0 })
    ∷ []

source-AllMean : AllMean scan source
source-AllMean = (
  refl,
  (
    (
      refl,
      refl,
      record {
        known_opcode = omega arith;
        dest_register = omega arith;
        source_register = omega arith;
        short_constant = inl (omega arith);
      },
    ),
    (
      (
        refl,
        refl,
        record {
          known_opcode = omega arith;
          dest_register = omega arith;
          source_register = omega arith;
          short_constant = inl (omega arith);
        },
      ),
      tt,
    ),
  ),
)

read_program-Assembles_example :
    (words : List ℕ) × AllDecode (instructions source) words
    × (read_program scan read_flat write_flat (some (texts source)) (λ a. 0)
        ≡ store_all write_flat 0 words (λ a. 0))
read_program-Assembles_example =
    read_program-Assembles scan read_flat write_flat source (λ a. 0) source-AllMean

loaded :
    read_program scan read_flat write_flat (some (texts source)) (λ a. 0)
    ≡ ok (put (put (λ a. 0) 0 69_206_021) 1 1_073_741_824, 2)
unfolding read_program read_lines assemble find_opcode make_instr bit_or
loaded = refl

-- every name opens the program
abbrev files : List ℕ → Option (List (List ℕ))
files name = some (texts source)

source-AllAssemble : AllAssemble scan (texts source)
unfolding assemble find_opcode
source-AllAssemble = (
  λ e. absurd (ground (arith, e)),
  (λ e. (make_instr 1 1 0 5, refl), (λ e. (make_instr 16 0 0 0, refl), tt)),
)

main-aborts_example : main scan files 2 cpu (fifo_option ∷ []) ≡ some (stop assertion)
main-aborts_example =
    main-aborts scan files 1 cpu fifo_option [] fifo (texts source) refl refl source-AllAssemble
