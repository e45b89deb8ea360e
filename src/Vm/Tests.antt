-- ===== src/Vm/Tests.antt =====
-- The instructions of lab3_vm/c/machine.c at concrete words.
use edan35_os_lund_univ.Common.{ℕ, ◌≡◌, inl, refl, true, some, arith}
use edan35_os_lund_univ.Vm.{
  Cpu, Outcome, ok, put, perform, alu, bit_or, make_instr, extract_opcode, extract_dest,
  extract_source1, extract_constant, op_add, op_addi, op_sub, op_subi, op_mul, op_sge, op_sgt,
  op_seq, op_seqi,
}
use edan35_os_lund_univ.Vm.Encoding.{extract-make_instr}
use edan35_os_lund_univ.Vm.Arithmetic.{alu-int_of}
use edan35_os_lund_univ.Vm.Rounds.{computed, perform-make_instr}

abbrev pub cpu : Cpu
cpu = record { pc = 0; reg = λ i. 0 }

-- addi 1,0,5 and halt 0,0,0
assembled : (make_instr 1 1 0 5 ≡ 69_206_021) × (make_instr 16 0 0 0 ≡ 1_073_741_824)
unfolding make_instr bit_or
assembled = (refl, refl)

extract-make_instr_example :
    (extract_opcode (make_instr 1 1 0 5) ≡ 1)
    × (extract_dest (make_instr 1 1 0 5) ≡ 1)
    × (extract_source1 (make_instr 1 1 0 5) ≡ 0)
    × (extract_constant (make_instr 1 1 0 5) ≡ 5)
extract-make_instr_example =
    extract-make_instr 1 1 0 5 (omega arith) (omega arith) (omega arith) (inl (omega arith))

-- -3 and 5, and the constant -1
abbrev a : ℕ
a = 4_294_967_293

abbrev b : ℕ
b = 5

abbrev c : ℕ
c = 4_294_967_295

alu-int_of_example :
    ((alu op_add a b c ≡ some 2)
      × (alu op_addi a b c ≡ some 4_294_967_292)
      × (alu op_sub a b c ≡ some 4_294_967_288)
      × (alu op_subi a b c ≡ some 4_294_967_294)
      × (alu op_mul a b c ≡ some 4_294_967_281))
    × ((alu op_sge a b c ≡ some 0)
        × (alu op_sgt a b c ≡ some 0)
        × (alu op_seq a b c ≡ some 0)
        × (alu op_seqi a b c ≡ some 0))
alu-int_of_example = alu-int_of a b c (omega arith) (omega arith) (omega arith)

-- a memory of words without pages
abbrev pub read_flat : (ℕ → ℕ) → ℕ → Outcome ((ℕ → ℕ) × ℕ)
read_flat f addr = ok (f, f addr)

abbrev pub write_flat : (ℕ → ℕ) → (addr data' : ℕ) → Outcome (ℕ → ℕ)
write_flat f addr x = ok (put f addr x)

abbrev memory : ℕ → ℕ
memory addr = addr

addi-five : alu 1 (cpu.reg 0) (cpu.reg 5) 5 ≡ some 5
unfolding alu
addi-five = refl

perform-make_instr_example :
    perform read_flat write_flat cpu (make_instr 1 1 0 5) memory
    ≡ ok (memory, (computed cpu 1 5, true))
perform-make_instr_example =
    perform-make_instr read_flat write_flat cpu memory 1 1 0 5 5 (omega arith) (omega arith)
      (omega arith) (inl (omega arith)) addi-five
