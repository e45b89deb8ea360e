-- ===== src/Vm/Program/Aborts.antt =====
-- main as it stands, with the unfinished replacement algorithms.
use edan35_os_lund_univ.Common.{
  ℕ, suc, ◌≡◌, ◌⊎◌, inl, inr, refl, false, Option, some, List, [], ◌∷◌, arith, Bool-cases,
}
use edan35_os_lund_univ.Vm.{
  Machine, Cpu, Replace, Outcome, ok, stop, assertion, put, read_memory, write_memory, step, run,
}
use edan35_os_lund_univ.Vm.Paging.{page_fault-stops}
use edan35_os_lund_univ.Vm.Program.{
  Scan, is_comment, assemble, read_lines, read_program, run_file, booted, algorithm, file_name,
  main,
}

-- Each line is a comment or an instruction.
abbrev pub AllAssemble : Scan → List (List ℕ) → Type 0
AllAssemble sscanf [] = Unit {0}
AllAssemble sscanf (t ∷ ts) =
    ((is_comment t ≡ false) → (word : ℕ) × (assemble sscanf t ≡ ok word)) × AllAssemble sscanf ts

-- The file is read without a write, or the first write fails.
abbrev ReadsNothing : Machine → Outcome (Machine × ℕ) → Type 0
ReadsNothing m o = (o ≡ ok (m, 0)) ⊎ (o ≡ stop assertion)

read_lines-booted :
    (sscanf : Scan) (r : Replace) (ts : List (List ℕ))
    → AllAssemble sscanf ts
    → ReadsNothing (booted r) (read_lines sscanf read_memory write_memory ts 0 (booted r))
unfolding read_lines
read_lines-booted sscanf r [] h = inl refl
read_lines-booted sscanf r (t ∷ ts) (a, h) = elim (Bool-cases (is_comment t)) [
  | inl e ↦ rw (read_lines, e) (read_lines-booted sscanf r ts h)
  | inr e ↦
      let (word, made) = a e in
      let (reads, writes) = page_fault-stops (booted r) 0 word (omega arith) refl in
      inr (rw (read_lines, e, made, writes) refl)
]

run-booted :
    (fuel : ℕ) (r : Replace) (reg : ℕ → ℕ)
    → run read_memory write_memory (suc fuel) (record { pc = 0; reg = reg }) (booted r)
      ≡ some (stop assertion)
unfolding run step
run-booted fuel r reg =
    let (reads, writes) = page_fault-stops (booted r) 0 0 (omega arith) refl in
    rw (run, step, reads) refl

run_file-booted :
    (sscanf : Scan) (fuel : ℕ) (cpu : Cpu) (r : Replace) (ts : List (List ℕ))
    → AllAssemble sscanf ts
    → run_file sscanf read_memory write_memory (suc fuel) (some ts) cpu (booted r)
      ≡ some (stop assertion)
unfolding run_file read_program
run_file-booted sscanf fuel cpu r ts h = elim (read_lines-booted sscanf r ts h) [
  | inl e ↦ rw (run_file, read_program, e) (run-booted fuel r (put cpu.reg 0 0))
  | inr e ↦ rw (run_file, read_program, e) refl
]

-- No program gets as far as an instruction: with one of the two replacement algorithms and a file
-- that opens and has comments and instructions alone, main comes to a failed assertion in the
-- first round at the latest.
pub main-aborts :
    (sscanf : Scan) (files : List ℕ → Option (List (List ℕ))) (fuel : ℕ) (cpu : Cpu)
    → (option : List ℕ) (args : List (List ℕ)) (r : Replace) (ts : List (List ℕ))
    → algorithm option ≡ some r
    → files (file_name args) ≡ some ts
    → AllAssemble sscanf ts
    → main sscanf files (suc fuel) cpu (option ∷ args) ≡ some (stop assertion)
unfolding main
main-aborts sscanf files fuel cpu option args r ts e opens h =
    rw (main, e, opens, run_file-booted sscanf fuel cpu r ts h) refl
