-- ===== src/Cpu/BcdLaws.antt =====
-- Decimal arithmetic on packed digits.
use edi_emulator.Prelude.{
  ℕ, ◌+◌, ◌-◌, ◌*◌, ◌/◌, ◌%◌, ◌^◌, ◌<◌, ◌≡◌, refl, ◌∙◌, arith, Bool, true, false, ◌==◌, ltb, leb,
  ◌&&◌, ◌||◌, bit_of, has_bit, ◌<=>◌, if_both,
}
use edi_emulator.Prelude.Bits.{holds_below, holds_below_sound}
use edi_emulator.Cpu.Sr
use edi_emulator.Cpu.Flags.{four_lem}
use edi_emulator.Cpu.AluLaws.{put_z}
use edi_emulator.Cpu.State.{Cpu, flag, set_flag, put_bit}
use edi_emulator.Cpu.Bcd.{
  clear_z, plain_sum, corrected_sum, bcd_add, plain_difference, corrected_difference, bcd_sub,
}

-- Two decimal digits in a byte.
abbrev pub bcd : ℕ → ℕ → ℕ
bcd hi lo = hi * 16 + lo

abbrev pub digits_of : ℕ → ℕ
digits_of n = bcd (n / 10) (n % 10)

-- The corrected sum and difference are right at `n`, `m` and `x`, as tests.
sum_test : ℕ → ℕ → ℕ → Bool
sum_test n m x =
    let r = corrected_sum (digits_of n) (digits_of m) x in
    r % 2 ^ 8 == digits_of ((n + m + x) % 100)
    && ((has_bit r 8 || has_bit r 9) <=> leb 100 (n + m + x))

difference_test : ℕ → ℕ → ℕ → Bool
difference_test n m x =
    let r = corrected_difference (digits_of n) (digits_of m) x in
    r % 2 ^ 8 == digits_of ((n + 100 - m - x) % 100)
    && ((has_bit r 8 || has_bit r 9) <=> ltb n (m + x))

-- Two-digit numbers are few: every pair is evaluated.
table : (ℕ → ℕ → ℕ → Bool) → Bool
table f = holds_below (λ n. holds_below (λ m. holds_below (f n m) 2) 100) 100

table_sound :
    (f : ℕ → ℕ → ℕ → Bool) (n m x : ℕ) → table f ≡ true → n < 100 → m < 100 → x < 2 → f n m x ≡ true
unfolding table
table_sound f n m x h hn hm hx =
    let row = holds_below_sound (λ n. holds_below (λ m. holds_below (f n m) 2) 100) 100 n hn h in
    holds_below_sound (f n m) 2 x hx (holds_below_sound (λ m. holds_below (f n m) 2) 100 m hm row)

sum_table : table sum_test ≡ true
unfolding table holds_below sum_test corrected_sum plain_sum
sum_table = refl

difference_table : table difference_test ≡ true
unfolding table holds_below difference_test corrected_difference plain_difference
difference_table = refl

tests_hold : (a b : ℕ) (p q : Bool) → (a == b && (p <=> q)) ≡ true → (a ≡ b) × (p ≡ q)
tests_hold a b p q h = ground arith

bit_of-lt : (b : Bool) → bit_of b < 2
bit_of-lt b = ground arith

put_cx :
    (w : ℕ) (b n v : Bool)
    → let w' = put_bit (put_bit (put_bit (put_bit w 0 b) 4 b) 1 v) 3 n in
      (has_bit w' 0 ≡ b) × (has_bit w' 4 ≡ b)
put_cx w b n v = let f = four_lem w b b v n in (f.0, f.4)

clear_z_cx :
    (p : Cpu) (r : ℕ)
    → (flag (clear_z p r) Sr.c ≡ flag p Sr.c) × (flag (clear_z p r) Sr.x ≡ flag p Sr.x)
unfolding clear_z set_flag
clear_z_cx p r =
    if_both (λ (q : Cpu). (flag q Sr.c ≡ flag p Sr.c) × (flag q Sr.x ≡ flag p Sr.x))
      (r % 2 ^ 8 == 0) p _ (refl, refl) (let z = put_z p.sr false in (z.0, z.4))

-- ABCD on packed decimal operands is decimal addition: the result is the packed sum modulo 100,
-- with the extend flag as carry in, and C and X say that the sum reached 100.
pub bcd_add_decimal :
    (p : Cpu) (n m : ℕ)
    → n < 100
    → m < 100
    → let x = bit_of (flag p Sr.x) in
      let (q, r) = bcd_add p (digits_of n) (digits_of m) in
      (r ≡ digits_of ((n + m + x) % 100))
      × (flag q Sr.c ≡ leb 100 (n + m + x))
      × (flag q Sr.x ≡ leb 100 (n + m + x))
unfolding bcd_add set_flag sum_test
bcd_add_decimal p n m hn hm =
    let x = bit_of (flag p Sr.x) in
    let r = corrected_sum (digits_of n) (digits_of m) x in
    let t =
      tests_hold _ _ (has_bit r 8 || has_bit r 9) (leb 100 (n + m + x))
        (table_sound sum_test n m x sum_table hn hm (bit_of-lt (flag p Sr.x))) in
    let f = put_cx p.sr (has_bit r 8 || has_bit r 9) _ _ in
    let z = clear_z_cx _ r in (t.0, z.0 ∙ f.0 ∙ t.1, z.1 ∙ f.1 ∙ t.1)

-- SBCD on packed decimal operands is decimal subtraction: the result is the packed difference
-- modulo 100, with the extend flag as borrow in, and C and X say that it borrowed.
pub bcd_sub_decimal :
    (p : Cpu) (n m : ℕ)
    → n < 100
    → m < 100
    → let x = bit_of (flag p Sr.x) in
      let (q, r) = bcd_sub p (digits_of n) (digits_of m) in
      (r ≡ digits_of ((n + 100 - m - x) % 100))
      × (flag q Sr.c ≡ ltb n (m + x))
      × (flag q Sr.x ≡ ltb n (m + x))
unfolding bcd_sub set_flag difference_test
bcd_sub_decimal p n m hn hm =
    let x = bit_of (flag p Sr.x) in
    let r = corrected_difference (digits_of n) (digits_of m) x in
    let t =
      tests_hold _ _ (has_bit r 8 || has_bit r 9) (ltb n (m + x))
        (table_sound difference_test n m x difference_table hn hm (bit_of-lt (flag p Sr.x))) in
    let f = put_cx p.sr (has_bit r 8 || has_bit r 9) _ _ in
    let z = clear_z_cx _ r in (t.0, z.0 ∙ f.0 ∙ t.1, z.1 ∙ f.1 ∙ t.1)
