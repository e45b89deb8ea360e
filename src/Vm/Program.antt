-- ===== src/Vm/Program.antt =====
-- lab3_vm/c/machine.c: read_program, what run does before its loop, main, and the copies between
-- RAM and swap.
pub mod Assembles
pub mod Aborts
pub mod Swap
pub mod Tests
use edan35_os_lund_univ.Common.{
  ℕ, zero, suc, ◌+◌, ◌-◌, ◌*◌, ◌<◌, ◌≡◌, Bool, true, false, ◌&&◌, Option, none, some, List, [], ◌∷◌,
  ◌==◌, ltb, leb, if◌then◌else◌,
}
use edan35_os_lund_univ.Vm.{
  Machine, Cpu, Replace, fifo, second_chance, Outcome, ok, stop, assertion, out_of_range,
  cannot_open, syntax_error, bind, put, ram_pages, make_instr, read_memory, write_memory, run,
}

-- the mnemonics in the order of their opcodes
abbrev pub mnemonics : List (List ℕ)
mnemonics =
    (b'a' ∷ b'd' ∷ b'd' ∷ [])
    ∷ (b'a' ∷ b'd' ∷ b'd' ∷ b'i' ∷ [])
    ∷ (b's' ∷ b'u' ∷ b'b' ∷ [])
    ∷ (b's' ∷ b'u' ∷ b'b' ∷ b'i' ∷ [])
    ∷ (b's' ∷ b'g' ∷ b'e' ∷ [])
    ∷ (b's' ∷ b'g' ∷ b't' ∷ [])
    ∷ (b's' ∷ b'e' ∷ b'q' ∷ [])
    ∷ (b'b' ∷ b't' ∷ [])
    ∷ (b'b' ∷ b'f' ∷ [])
    ∷ (b'b' ∷ b'a' ∷ [])
    ∷ (b's' ∷ b't' ∷ [])
    ∷ (b'l' ∷ b'd' ∷ [])
    ∷ (b'c' ∷ b'a' ∷ b'l' ∷ b'l' ∷ [])
    ∷ (b'j' ∷ b'm' ∷ b'p' ∷ [])
    ∷ (b'm' ∷ b'u' ∷ b'l' ∷ [])
    ∷ (b's' ∷ b'e' ∷ b'q' ∷ b'i' ∷ [])
    ∷ (b'h' ∷ b'a' ∷ b'l' ∷ b't' ∷ [])
    ∷ []

-- strcmp(s, t) == 0
abbrev pub strings_equal : List ℕ → List ℕ → Bool
strings_equal [] [] = true
strings_equal [] (c ∷ t) = false
strings_equal (c ∷ s) [] = false
strings_equal (c ∷ s) (d ∷ t) = (c == d) && strings_equal s t

-- The loop over the mnemonics from the i-th on; `none` is -1.
unfoldable pub find_opcode : (text : List ℕ) → List (List ℕ) → (i : ℕ) → Option ℕ
find_opcode text [] i = none
find_opcode text (name ∷ names) i =
    let rest = find_opcode text names (suc i) in if strings_equal text name then some i else rest

abbrev pub is_comment : List ℕ → Bool
is_comment [] = false
is_comment (c ∷ buf) = c == b';'

-- What sscanf stores for the format of an instruction, text and the words a, b and c, where it
-- converts all four.
abbrev pub Scan : Type 0
Scan = List ℕ → Option (List ℕ × (ℕ × (ℕ × ℕ)))

abbrev pub encode : List ℕ × (ℕ × (ℕ × ℕ)) → Option ℕ → Outcome ℕ
encode scanned none = stop syntax_error
encode (text, (a, (b, c))) (some opcode) = ok (make_instr opcode a b c)

-- The instruction of a line.
unfoldable pub assemble : (sscanf : Scan) → (buf : List ℕ) → Outcome ℕ
assemble sscanf buf = elim (sscanf buf) [
  | none ↦ stop syntax_error
  | some scanned ↦ encode scanned (find_opcode scanned.0 mnemonics 0)
]

module _ (sscanf : Scan) {M : Type 0} (read : M → (addr : ℕ) → Outcome (M × ℕ))
    (write : M → (addr data' : ℕ) → Outcome M) where
  -- The loop over the lines that fgets returns.
  unfoldable pub read_lines : List (List ℕ) → (line : ℕ) → M → Outcome (M × ℕ)
  read_lines [] line m = ok (m, line)
  read_lines (buf ∷ bufs) line m =
      let skipped = read_lines bufs line m in
      let stored =
        bind (assemble sscanf buf)
          (λ instr. bind (write m line instr) (λ m'. read_lines bufs (suc line) m')) in
      if is_comment buf then skipped else stored

  -- The memory and ninstr; `none` is a file that fopen does not open.
  unfoldable pub read_program : Option (List (List ℕ)) → M → Outcome (M × ℕ)
  read_program none m = stop cannot_open
  read_program (some bufs) m = read_lines bufs 0 m

  -- run: `cpu` is what the variable holds before it is set up.
  unfoldable pub run_file : ℕ → Option (List (List ℕ)) → Cpu → M → Option (Outcome (M × Cpu))
  run_file fuel file cpu m = elim (read_program file m) [
    | stop e ↦ some (stop e)
    | ok (m', ninstr) ↦ run read write fuel (record { pc = 0; reg = put cpu.reg 0 0 }) m'
  ]

-- the static variables of a program that starts
abbrev pub booted : Replace → Machine
booted r = record {
  num_pagefault = 0;
  page_table = λ v. record {
    page = 0;
    inmemory = false;
    ondisk = false;
    modified = false;
    referenced = false;
    readonly = false;
  };
  memory = λ a. 0;
  replace = r;
}

abbrev pub fifo_option : List ℕ
fifo_option = b'-' ∷ b'-' ∷ b'f' ∷ b'i' ∷ b'f' ∷ b'o' ∷ []

abbrev pub second_chance_option : List ℕ
second_chance_option =
    b'-' ∷ b'-' ∷ b's' ∷ b'e' ∷ b'c' ∷ b'o' ∷ b'n' ∷ b'd' ∷ b'-' ∷ b'c' ∷ b'h' ∷ b'a' ∷ b'n' ∷ b'c'
    ∷ b'e' ∷ []

abbrev pub algorithm : List ℕ → Option Replace
algorithm option =
    if strings_equal option second_chance_option
    then some second_chance
    else if strings_equal option fifo_option
    then some fifo
    else none

-- argv[2], or "a.s"
abbrev pub file_name : List (List ℕ) → List ℕ
file_name [] = b'a' ∷ b'.' ∷ b's' ∷ []
file_name (name ∷ args) = name

-- How main ends, but for an early stop: with -1, or behind run.
pub data Exit : Type 0 where
  refused : Exit
  finished : Machine → Cpu → Exit

abbrev pub exit_of : Option (Outcome (Machine × Cpu)) → Option (Outcome Exit)
exit_of none = none
exit_of (some (stop e)) = some (stop e)
exit_of (some (ok (m, cpu))) = some (ok (finished m cpu))

-- The arguments are those behind the program's name; `files` are the lines of the files that open.
unfoldable pub main :
    (sscanf : Scan)
    → (files : List ℕ → Option (List (List ℕ))) → ℕ
    → Cpu
    → (args : List (List ℕ)) → Option (Outcome Exit)
main sscanf files fuel cpu [] = some (ok refused)
main sscanf files fuel cpu (option ∷ args) = elim (algorithm option) [
  | none ↦ some (ok refused)
  | some r ↦
      exit_of
        (run_file sscanf read_memory write_memory fuel (files (file_name args)) cpu (booted r))
]

-- memcpy of a page of PAGESIZE words
abbrev pub copy_page : (to from : ℕ → ℕ) → (to_page from_page : ℕ) → ℕ → ℕ
copy_page to from to_page from_page a =
    if leb (to_page * 4) a && ltb a (to_page * 4 + 4)
    then from (a - to_page * 4 + from_page * 4)
    else to a

abbrev pub swap_pages : ℕ
swap_pages = 128

-- memory after a page is read from swap
unfoldable pub read_page : (memory swap : ℕ → ℕ) → (phys_page swap_page : ℕ) → Outcome (ℕ → ℕ)
read_page memory swap phys_page swap_page =
    if ltb phys_page ram_pages && ltb swap_page swap_pages
    then ok (copy_page memory swap phys_page swap_page)
    else stop out_of_range

-- swap after a page is written to it
unfoldable pub write_page : (memory swap : ℕ → ℕ) → (phys_page swap_page : ℕ) → Outcome (ℕ → ℕ)
write_page memory swap phys_page swap_page =
    if ltb phys_page ram_pages && ltb swap_page swap_pages
    then ok (copy_page swap memory swap_page phys_page)
    else stop out_of_range

-- The page, and the static variable `count` afterwards.
unfoldable pub new_swap_page : (count : ℕ) → Outcome (ℕ × ℕ)
new_swap_page count = if ltb count swap_pages then ok (count, suc count) else stop assertion
