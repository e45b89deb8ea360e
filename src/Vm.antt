-- ===== src/Vm.antt =====
-- lab3_vm/c/machine.c: the processor. The names of its instructions and of its memory are passed on.
mod Instr
mod Memory
pub mod Encoding
pub mod Paging
pub mod Arithmetic
pub mod Rounds
pub mod Program
pub mod Tests
unfoldable pub use Instr.*
unfoldable pub use Memory.*
use edan35_os_lund_univ.Common.{
  ℕ, zero, suc, ◌+◌, ◌-◌, ◌*◌, ◌/◌, ◌%◌, ◌^◌, ◌≡◌, Bool, true, false, not, ◌&&◌, Option, none, some,
  ◌==◌, ltb, leb, if◌then◌else◌,
}
use edan35_os_lund_univ.Common.Words.{u32_mod}

pub record Cpu : Type 0 where
  pub pc : ℕ
  pub reg : ℕ → ℕ

-- the local variables of `run` that the instructions set
pub record Latch : Type 0 where
  pub dest : ℕ
  pub dest_reg : ℕ
  pub next_pc : ℕ
  pub increment_pc : Bool
  pub writeback : Bool
  pub proceed : Bool

-- Words are compared as signed numbers with their sign bits turned.
abbrev pub signed : ℕ → ℕ
signed w = (w + 2 ^ 31) % u32_mod

abbrev pub flag : Bool → ℕ
flag b = if b then 1 else 0

-- The instructions that compute a value; signed overflow wraps.
unfoldable pub alu : (opcode source1 source2 constant : ℕ) → Option ℕ
alu opcode source1 source2 constant =
    if opcode == op_add
    then some ((source1 + source2) % u32_mod)
    else if opcode == op_addi
    then some ((source1 + constant) % u32_mod)
    else if opcode == op_sub
    then some ((source1 + u32_mod - source2) % u32_mod)
    else if opcode == op_subi
    then some ((source1 + u32_mod - constant) % u32_mod)
    else if opcode == op_mul
    then some (source1 * source2 % u32_mod)
    else if opcode == op_sge
    then some (flag (leb (signed source2) (signed source1)))
    else if opcode == op_sgt
    then some (flag (ltb (signed source2) (signed source1)))
    else if opcode == op_seq
    then some (flag (source1 == source2))
    else if opcode == op_seqi
    then some (flag (source1 == constant))
    else none

abbrev pub value : (dest_reg pc v : ℕ) → Latch
value dest_reg pc v = record {
  dest = v;
  dest_reg = dest_reg;
  next_pc = pc;
  increment_pc = true;
  writeback = true;
  proceed = true;
}

abbrev pub branch : (dest_reg pc : ℕ) → (taken : Bool) → (target : ℕ) → Latch
branch dest_reg pc taken target = record {
  dest = 0;
  dest_reg = dest_reg;
  next_pc = if taken then target else pc;
  increment_pc = not taken;
  writeback = false;
  proceed = true;
}

-- The instructions that set pc; `none` is an opcode without an instruction.
unfoldable pub jump : (opcode source1 constant dest_reg pc : ℕ) → Option Latch
jump opcode source1 constant dest_reg pc =
    if opcode == op_bt
    then some (branch dest_reg pc (not (source1 == 0)) constant)
    else if opcode == op_bf
    then some (branch dest_reg pc (source1 == 0) constant)
    else if opcode == op_ba
    then some (branch dest_reg pc true constant)
    else if opcode == op_call
    then some (record (value 31 constant ((pc + 1) % u32_mod)) { increment_pc = false })
    else if opcode == op_jmp
    then some (branch dest_reg pc true source1)
    else if opcode == op_halt
    then some (record (branch dest_reg pc true pc) { proceed = false })
    else none

-- The instructions that leave the memory alone.
unfoldable pub compute : (opcode source1 source2 constant dest_reg pc : ℕ) → Option Latch
compute opcode source1 source2 constant dest_reg pc = elim (alu opcode source1 source2 constant) [
  | none ↦ jump opcode source1 constant dest_reg pc
  | some v ↦ some (value dest_reg pc v)
]

-- The end of a round: the result goes to its register, which is never register 0.
unfoldable pub finish : Cpu → Latch → Cpu
finish cpu l = record {
  pc = if l.increment_pc then (l.next_pc + 1) % u32_mod else l.next_pc;
  reg = if l.writeback && not (l.dest_reg == 0) then put cpu.reg l.dest_reg l.dest else cpu.reg;
}

-- An opcode without an instruction ends the program.
abbrev pub known : {M : Type 0} → M → Option Latch → Outcome (M × Latch)
known m none = stop illegal_instruction
known m (some l) = ok (m, l)

abbrev pub go_on :
    {M : Type 0}
    → (Cpu → M → Option (Outcome (M × Cpu)))
    → Outcome (M × (Cpu × Bool))
    → Option (Outcome (M × Cpu))
go_on again (stop e) = some (stop e)
go_on again (ok (m, (cpu, true))) = again cpu m
go_on again (ok (m, (cpu, false))) = some (ok (m, cpu))

-- The processor with the accesses to its memory as parameters.
module _ {M : Type 0} (read : M → (addr : ℕ) → Outcome (M × ℕ))
    (write : M → (addr data' : ℕ) → Outcome M) where
  unfoldable pub execute :
      (opcode source1 source2 constant dest_reg : ℕ) → Cpu → M → Outcome (M × Latch)
  unfolding compute
  execute opcode source1 source2 constant dest_reg cpu m =
      if opcode == op_ld
      then bind (read m ((source1 + constant) % u32_mod))
          (λ (m', data'). ok (m', value dest_reg cpu.pc data'))
      else if opcode == op_st
      then bind (write m ((source1 + constant) % u32_mod) (cpu.reg dest_reg))
          (λ m'. ok (m', record (value dest_reg cpu.pc 0) { writeback = false }))
      else known m (compute opcode source1 source2 constant dest_reg cpu.pc)

  -- what follows the fetch of an instruction
  unfoldable pub perform : Cpu → (instr : ℕ) → M → Outcome (M × (Cpu × Bool))
  unfolding execute
  perform cpu instr m =
      bind
        (execute (extract_opcode instr) (cpu.reg (extract_source1 instr))
          (cpu.reg (extract_constant instr % 32)) (extract_constant instr) (extract_dest instr) cpu
          m)
        (λ (m', l). ok (m', (finish cpu l, l.proceed)))

  -- One round of the loop of `run`, with whether there is another.
  unfoldable pub step : Cpu → M → Outcome (M × (Cpu × Bool))
  unfolding perform
  step cpu m = bind (read m cpu.pc) (λ (m', instr). perform cpu instr m')

  -- The loop of `run` for a number of rounds at most; `none` if it needs more.
  unfoldable pub run : ℕ → Cpu → M → Option (Outcome (M × Cpu))
  run zero cpu m = none
  run (suc fuel) cpu m = go_on (run fuel) (step cpu m)
