-- ===== src/Vm/Instr.antt =====
-- lab3_vm/c/machine.c: the opcodes, and instructions as words.
use edan35_os_lund_univ.Common.{
  ℕ, zero, suc, ◌+◌, ◌-◌, ◌*◌, ◌/◌, ◌%◌, ◌^◌, ◌&&◌, ◌==◌, ltb, if◌then◌else◌,
}
use edan35_os_lund_univ.Common.Words.{u32_mod}

-- the opcodes
abbrev pub op_add : ℕ
op_add = 0

abbrev pub op_addi : ℕ
op_addi = 1

abbrev pub op_sub : ℕ
op_sub = 2

abbrev pub op_subi : ℕ
op_subi = 3

abbrev pub op_sge : ℕ
op_sge = 4

abbrev pub op_sgt : ℕ
op_sgt = 5

abbrev pub op_seq : ℕ
op_seq = 6

abbrev pub op_bt : ℕ
op_bt = 7

abbrev pub op_bf : ℕ
op_bf = 8

abbrev pub op_ba : ℕ
op_ba = 9

abbrev pub op_st : ℕ
op_st = 10

abbrev pub op_ld : ℕ
op_ld = 11

abbrev pub op_call : ℕ
op_call = 12

abbrev pub op_jmp : ℕ
op_jmp = 13

abbrev pub op_mul : ℕ
op_mul = 14

abbrev pub op_seqi : ℕ
op_seqi = 15

abbrev pub op_halt : ℕ
op_halt = 16

-- `|` on words of `n` bits, digit by digit
unfoldable pub bit_or : ℕ → ℕ → ℕ → ℕ
bit_or zero a b = 0
bit_or (suc n) a b = (if (a % 2 == 0) && (b % 2 == 0) then 0 else 1) + 2 * bit_or n (a / 2) (b / 2)

unfoldable pub make_instr : (opcode dest s1 s2 : ℕ) → ℕ
make_instr opcode dest s1 s2 =
    bit_or 32
      (bit_or 32 (bit_or 32 (opcode * 2 ^ 26 % u32_mod) (dest * 2 ^ 21 % u32_mod))
        (s1 * 2 ^ 16 % u32_mod))
      (s2 % 2 ^ 16)

unfoldable pub extract_opcode : ℕ → ℕ
extract_opcode instr = instr / 2 ^ 26

unfoldable pub extract_dest : ℕ → ℕ
extract_dest instr = instr / 2 ^ 21 % 32

unfoldable pub extract_source1 : ℕ → ℕ
extract_source1 instr = instr / 2 ^ 16 % 32

-- The conversion to short and back to a word extends the sign.
unfoldable pub extract_constant : ℕ → ℕ
extract_constant instr =
    let c = instr % 2 ^ 16 in if ltb c (2 ^ 15) then c else c + (u32_mod - 2 ^ 16)
