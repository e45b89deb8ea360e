-- ===== src/Vm/Rounds.antt =====
-- The rounds of the processor's loop whose instruction computes.
use edan35_os_lund_univ.Common.{
  ℕ, ◌+◌, ◌%◌, ◌^◌, ◌≤◌, ◌<◌, ◌≡◌, ◌⊎◌, inl, inr, refl, true, false, Bool-cases, some, arith, ◌==◌,
  if◌then◌else◌,
}
use edan35_os_lund_univ.Common.Words.{u32_mod}
use edan35_os_lund_univ.Vm.{
  Cpu, Outcome, ok, put, op_ld, op_st, make_instr, alu, compute, execute, perform, finish,
}
use edan35_os_lund_univ.Vm.Encoding.{extract-make_instr}

alu-memory :
    (opcode a b c v : ℕ)
    → alu opcode a b c ≡ some v
    → ((opcode == op_ld) ≡ false) × ((opcode == op_st) ≡ false)
unfolding alu
alu-memory opcode a b c v e = (ground (arith, e), ground (arith, e))

-- the processor behind an instruction that computes
abbrev pub computed : Cpu → (dest v : ℕ) → Cpu
computed cpu dest v = record {
  pc = (cpu.pc + 1) % u32_mod;
  reg = if dest == 0 then cpu.reg else put cpu.reg dest v;
}

module _ {M : Type 0} (read : M → (addr : ℕ) → Outcome (M × ℕ))
    (write : M → (addr data' : ℕ) → Outcome M) where
  -- What follows the fetch of an instruction that computes: for a word of make_instr, with an opcode
  -- below 64, registers below 32 and a constant that is a signed number of 16 bits, of which the
  -- opcode computes v from the two sources and the constant, pc goes on by one and the destination
  -- register becomes v, but register 0 stays as it is; so do the other registers and the memory,
  -- which is not accessed, and there is another round.
  pub perform-make_instr :
      (cpu : Cpu) (m : M) (opcode dest s1 constant v : ℕ)
      → opcode < 64
      → dest < 32
      → s1 < 32
      → (constant < 2 ^ 15) ⊎ ((u32_mod ≤ constant + 2 ^ 15) × (constant < u32_mod))
      → alu opcode (cpu.reg s1) (cpu.reg (constant % 32)) constant ≡ some v
      → perform read write cpu (make_instr opcode dest s1 constant) m
        ≡ ok (m, (computed cpu dest v, true))
  unfolding perform execute compute finish
  perform-make_instr cpu m opcode dest s1 constant v lo ld ls lc e =
      let (o, d, s, c) = extract-make_instr opcode dest s1 constant lo ld ls lc in
      let (no_load, no_store) = alu-memory opcode _ _ _ v e in
      elim (Bool-cases (dest == 0)) [
        | inl z ↦
            rw (perform, o, d, s, c)
              (rw (execute, no_load, no_store) (rw (compute, e, finish) (rw z refl)))
        | inr n ↦
            rw (perform, o, d, s, c)
              (rw (execute, no_load, no_store) (rw (compute, e, finish) (rw n refl)))
      ]
