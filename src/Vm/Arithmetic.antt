-- ===== src/Vm/Arithmetic.antt =====
-- The instructions that compute, against arithmetic on integers.
use native.Mathlib.Nat.{mul-add}
use edan35_os_lund_univ.Common.{
  ℕ, ◌+◌, ◌-◌, ◌*◌, ◌%◌, ◌<◌, ◌≡◌, ap, ◌&&◌, some, arith, ◌==◌, ltb, leb,
}
use edan35_os_lund_univ.Common.Words.{u32_mod}
use edan35_os_lund_univ.Common.Int.{◌+ℤ◌, ◌-ℤ◌, ◌*ℤ◌, ltb_ℤ, leb_ℤ, int_of, word_of}
use edan35_os_lund_univ.Vm.{
  alu, flag, signed, op_add, op_addi, op_sub, op_subi, op_mul, op_sge, op_sgt, op_seq, op_seqi,
}

sum_word :
    (a b : ℕ) → a < u32_mod → b < u32_mod → (a + b) % u32_mod ≡ word_of (int_of a +ℤ int_of b)
sum_word a b la lb = ground arith

difference_word :
    (a b : ℕ)
    → a < u32_mod
    → b < u32_mod
    → (a + u32_mod - b) % u32_mod ≡ word_of (int_of a -ℤ int_of b)
difference_word a b la lb = ground arith

at_least_signed :
    (a b : ℕ) → a < u32_mod → b < u32_mod → leb (signed b) (signed a) ≡ leb_ℤ (int_of b) (int_of a)
at_least_signed a b la lb = ground arith

above_signed :
    (a b : ℕ) → a < u32_mod → b < u32_mod → ltb (signed b) (signed a) ≡ ltb_ℤ (int_of b) (int_of a)
above_signed a b la lb = ground arith

equal_signed :
    (a b : ℕ)
    → a < u32_mod
    → b < u32_mod
    → (a == b) ≡ (leb_ℤ (int_of a) (int_of b) && leb_ℤ (int_of b) (int_of a))
equal_signed a b la lb = ground arith

product_difference : (n a b : ℕ) → a + b ≡ u32_mod → n * a + n * b ≡ u32_mod * n
product_difference n a b e =
    let split = mul-add n a b in
    let whole : n * (a + b) ≡ n * u32_mod = ap (λ k. n * k) e in omega (arith, split, whole)

product_word :
    (a b : ℕ) → a < u32_mod → b < u32_mod → a * b % u32_mod ≡ word_of (int_of a *ℤ int_of b)
product_word a b la lb =
    let na = u32_mod - 1 - a + 1 in
    let nb = u32_mod - 1 - b + 1 in
    let left = product_difference a nb b (omega (arith, lb)) in
    let right = product_difference b na a (omega (arith, la)) in
    let both = product_difference na nb b (omega (arith, lb)) in ground (arith, left, right, both)

-- On words, the instructions that compute do arithmetic on the integers that the words stand for in
-- two's complement: ADD, ADDI, SUB, SUBI and MUL give the word of the sum, the difference and the
-- product modulo 2^32, whatever overflows, and SGE, SGT, SEQ and SEQI give 1 where the first integer
-- is at least, is above or is equal to the second one and 0 elsewhere.
pub alu-int_of :
    (a b c : ℕ)
    → a < u32_mod
    → b < u32_mod
    → c < u32_mod
    → ((alu op_add a b c ≡ some (word_of (int_of a +ℤ int_of b)))
        × (alu op_addi a b c ≡ some (word_of (int_of a +ℤ int_of c)))
        × (alu op_sub a b c ≡ some (word_of (int_of a -ℤ int_of b)))
        × (alu op_subi a b c ≡ some (word_of (int_of a -ℤ int_of c)))
        × (alu op_mul a b c ≡ some (word_of (int_of a *ℤ int_of b))))
      × ((alu op_sge a b c ≡ some (flag (leb_ℤ (int_of b) (int_of a))))
          × (alu op_sgt a b c ≡ some (flag (ltb_ℤ (int_of b) (int_of a))))
          × (alu op_seq a b c
              ≡ some (flag (leb_ℤ (int_of a) (int_of b) && leb_ℤ (int_of b) (int_of a))))
          × (alu op_seqi a b c
              ≡ some (flag (leb_ℤ (int_of a) (int_of c) && leb_ℤ (int_of c) (int_of a)))))
unfolding alu
alu-int_of a b c la lb lc = (
  (
    ap some (sum_word a b la lb),
    ap some (sum_word a c la lc),
    ap some (difference_word a b la lb),
    ap some (difference_word a c la lc),
    ap some (product_word a b la lb),
  ),
  (
    ap (λ t. some (flag t)) (at_least_signed a b la lb),
    ap (λ t. some (flag t)) (above_signed a b la lb),
    ap (λ t. some (flag t)) (equal_signed a b la lb),
    ap (λ t. some (flag t)) (equal_signed a c la lc),
  ),
)
