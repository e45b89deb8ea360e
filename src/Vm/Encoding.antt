-- ===== src/Vm/Encoding.antt =====
-- Instructions and their fields.
use edan35_os_lund_univ.Common.{ℕ, zero, suc, ◌+◌, ◌*◌, ◌/◌, ◌%◌, ◌^◌, ◌≤◌, ◌<◌, ◌≡◌, ◌⊎◌, arith}
use edan35_os_lund_univ.Common.Words.{u32_mod}
use edan35_os_lund_univ.Vm.{
  bit_or, make_instr, extract_opcode, extract_dest, extract_source1, extract_constant,
}

bit_or-zero : (n x : ℕ) → x < 2 ^ n → bit_or n x 0 ≡ x
unfolding bit_or
bit_or-zero zero x small = omega arith
bit_or-zero (suc n) x small = let rest = bit_or-zero n (x / 2) (omega arith) in ground (arith, rest)

-- A word that is a multiple of 2 ^ k, and one below 2 ^ k.
bit_or-disjoint :
    (n k x y : ℕ) → x < 2 ^ n → y < 2 ^ k → bit_or (k + n) (x * 2 ^ k) y ≡ x * 2 ^ k + y
unfolding bit_or
bit_or-disjoint n zero x y small low =
    let none_low : y ≡ 0 = omega arith in
    let start : 0 + n ≡ n = omega arith in
    let one : x * 2 ^ 0 ≡ x = omega arith in
    rw (none_low, one, start, bit_or-zero n x small) (omega arith)
bit_or-disjoint n (suc k) x y small low =
    let rest = bit_or-disjoint n k x (y / 2) small (omega arith) in
    let power : 2 ^ suc k ≡ 2 * 2 ^ k = omega arith in
    let double : x * 2 ^ suc k ≡ 2 * (x * 2 ^ k) = rw power (grind arith) in
    let high : 2 * (x * 2 ^ k) / 2 ≡ x * 2 ^ k = omega arith in
    let even : 2 * (x * 2 ^ k) % 2 ≡ 0 = omega arith in
    let digits : suc k + n ≡ suc (k + n) = omega arith in
    rw (double, digits) (rw (bit_or, high, even, rest) (ground arith))

make_instr-sum :
    (opcode dest s1 s2 : ℕ)
    → opcode < 64
    → dest < 32
    → s1 < 32
    → make_instr opcode dest s1 s2 ≡ opcode * 2 ^ 26 + dest * 2 ^ 21 + s1 * 2 ^ 16 + s2 % 2 ^ 16
unfolding make_instr
make_instr-sum opcode dest s1 s2 small_opcode small_dest small_s1 =
    let a : opcode * 2 ^ 26 % u32_mod ≡ opcode * 2 ^ 26 = omega arith in
    let b : dest * 2 ^ 21 % u32_mod ≡ dest * 2 ^ 21 = omega arith in
    let c : s1 * 2 ^ 16 % u32_mod ≡ s1 * 2 ^ 16 = omega arith in
    let first = bit_or-disjoint 6 26 opcode (dest * 2 ^ 21) (omega arith) (omega arith) in
    let first' : opcode * 2 ^ 26 + dest * 2 ^ 21 ≡ (opcode * 32 + dest) * 2 ^ 21 = omega arith in
    let second =
      bit_or-disjoint 11 21 (opcode * 32 + dest) (s1 * 2 ^ 16) (omega arith) (omega arith) in
    let second' : (opcode * 32 + dest) * 2 ^ 21 + s1 * 2 ^ 16
        ≡ ((opcode * 32 + dest) * 32 + s1) * 2 ^ 16 =
      omega arith in
    let third =
      bit_or-disjoint 16 16 ((opcode * 32 + dest) * 32 + s1) (s2 % 2 ^ 16) (omega arith)
        (omega arith) in
    rw (a, b, c) (rw (first, first') (rw (second, second') (rw third (omega arith))))

-- The fields of an instruction that make_instr makes are the arguments, for an opcode below 64,
-- registers below 32 and a constant that is a signed number of 16 bits.
pub extract-make_instr :
    (opcode dest s1 s2 : ℕ)
    → opcode < 64
    → dest < 32
    → s1 < 32
    → (s2 < 2 ^ 15) ⊎ ((u32_mod ≤ s2 + 2 ^ 15) × (s2 < u32_mod))
    → (extract_opcode (make_instr opcode dest s1 s2) ≡ opcode)
      × (extract_dest (make_instr opcode dest s1 s2) ≡ dest)
      × (extract_source1 (make_instr opcode dest s1 s2) ≡ s1)
      × (extract_constant (make_instr opcode dest s1 s2) ≡ s2)
unfolding extract_opcode extract_dest extract_source1 extract_constant
extract-make_instr opcode dest s1 s2 small_opcode small_dest small_s1 short =
    let word = make_instr-sum opcode dest s1 s2 small_opcode small_dest small_s1 in
    rw word (ground arith, ground arith, ground arith, ground arith)
