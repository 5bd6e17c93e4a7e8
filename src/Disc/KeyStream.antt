-- ===== src/Disc/KeyStream.antt =====
-- crates/cdi-disc/src/scramble.rs: the scramble sequence, from the shift register that generates it.
use edi_emulator.Prelude.{
  ℕ, zero, suc, ◌+◌, ◌*◌, ◌/◌, ◌%◌, ◌^◌, ◌<◌, ◌≡◌, refl, sym, ap, ◌∙◌, arith, bit_xor, bit_or,
  get_or, max, length,
}
use mathlib.Core.Path.{ap₂}
use native.Mathlib.Nat.{pow-suc, add-mul, mul_right_comm}
use edi_emulator.Prelude.Bits.{bit_or_halves, zero-bit_or, scaled}
use edi_emulator.Disc.Scramble.{lfsr_step, key_byte, table_from, scramble_table}

-- The sequence of bits with the polynomial x^15 + x + 1 that begins with a one and fourteen zeros.
unfoldable pub key_bit : ℕ → ℕ
key_bit zero = 1
key_bit (suc zero) = 0
key_bit (suc (suc zero)) = 0
key_bit (suc (suc (suc zero))) = 0
key_bit (suc (suc (suc (suc zero)))) = 0
key_bit (suc (suc (suc (suc (suc zero))))) = 0
key_bit (suc (suc (suc (suc (suc (suc zero)))))) = 0
key_bit (suc (suc (suc (suc (suc (suc (suc zero))))))) = 0
key_bit (suc (suc (suc (suc (suc (suc (suc (suc zero)))))))) = 0
key_bit (suc (suc (suc (suc (suc (suc (suc (suc (suc zero))))))))) = 0
key_bit (suc (suc (suc (suc (suc (suc (suc (suc (suc (suc zero)))))))))) = 0
key_bit (suc (suc (suc (suc (suc (suc (suc (suc (suc (suc (suc zero))))))))))) = 0
key_bit (suc (suc (suc (suc (suc (suc (suc (suc (suc (suc (suc (suc zero)))))))))))) = 0
key_bit (suc (suc (suc (suc (suc (suc (suc (suc (suc (suc (suc (suc (suc zero))))))))))))) = 0
key_bit (suc (suc (suc (suc (suc (suc (suc (suc (suc (suc (suc (suc (suc (suc zero)))))))))))))) = 0
key_bit
      (suc (suc (suc (suc (suc (suc (suc (suc (suc (suc (suc (suc (suc (suc (suc n))))))))))))))) =
    (key_bit n + key_bit (suc n)) % 2

-- The number of `k` bits of the sequence from the `n`-th on, the first one lowest.
abbrev pub bits_from : ℕ → ℕ → ℕ
bits_from zero n = 0
bits_from (suc k) n = key_bit n + bits_from k (suc n) * 2

key_bit-lt : (n : ℕ) → key_bit n < 2
unfolding key_bit
key_bit-lt zero = omega arith
key_bit-lt (suc zero) = omega arith
key_bit-lt (suc (suc zero)) = omega arith
key_bit-lt (suc (suc (suc zero))) = omega arith
key_bit-lt (suc (suc (suc (suc zero)))) = omega arith
key_bit-lt (suc (suc (suc (suc (suc zero))))) = omega arith
key_bit-lt (suc (suc (suc (suc (suc (suc zero)))))) = omega arith
key_bit-lt (suc (suc (suc (suc (suc (suc (suc zero))))))) = omega arith
key_bit-lt (suc (suc (suc (suc (suc (suc (suc (suc zero)))))))) = omega arith
key_bit-lt (suc (suc (suc (suc (suc (suc (suc (suc (suc zero))))))))) = omega arith
key_bit-lt (suc (suc (suc (suc (suc (suc (suc (suc (suc (suc zero)))))))))) = omega arith
key_bit-lt (suc (suc (suc (suc (suc (suc (suc (suc (suc (suc (suc zero))))))))))) = omega arith
key_bit-lt (suc (suc (suc (suc (suc (suc (suc (suc (suc (suc (suc (suc zero)))))))))))) =
    omega arith
key_bit-lt (suc (suc (suc (suc (suc (suc (suc (suc (suc (suc (suc (suc (suc zero))))))))))))) =
    omega arith
key_bit-lt
      (suc (suc (suc (suc (suc (suc (suc (suc (suc (suc (suc (suc (suc (suc zero)))))))))))))) =
    omega arith
key_bit-lt
      (suc (suc (suc (suc (suc (suc (suc (suc (suc (suc (suc (suc (suc (suc (suc n))))))))))))))) =
    omega arith

key_bit-next : (n : ℕ) → key_bit (n + 15) ≡ (key_bit n + key_bit (suc n)) % 2
unfolding key_bit
key_bit-next n =
    let e : n + 15
        ≡ suc (
            suc (suc (suc (suc (suc (suc (suc (suc (suc (suc (suc (suc (suc (suc (n))))))))))))))) =
      omega arith in
    ap key_bit e

bits_from-lt : (k n : ℕ) → bits_from k n < 2 ^ k
bits_from-lt zero n = omega arith
bits_from-lt (suc k) n = omega (arith, bits_from-lt k (suc n), key_bit-lt n, pow-suc 2 k)

-- The highest of the bits.
bits_from-last : (k n : ℕ) → bits_from (suc k) n ≡ bits_from k n + key_bit (n + k) * 2 ^ k
bits_from-last zero n = let e : n + 0 ≡ n = omega arith in rw e (omega arith)
bits_from-last (suc k) n =
    let e : suc n + k ≡ n + suc k = omega arith in
    let h : bits_from (suc k) (suc n) ≡ bits_from k (suc n) + key_bit (n + suc k) * 2 ^ k =
      bits_from-last k (suc n) ∙ ap (λ i. bits_from k (suc n) + key_bit i * 2 ^ k) e in
    let p = scaled (key_bit (n + suc k)) k in omega (arith, h, p)

-- Parts without a common bit are joined by `|` as by the sum.
bit_or-add : (k a b : ℕ) → a < 2 ^ k → bit_or a (b * 2 ^ k) ≡ a + b * 2 ^ k
bit_or-add zero a b h =
    let e : a ≡ 0 = omega arith in ap (λ x. bit_or x (b * 1)) e ∙ zero-bit_or (b * 1) ∙ omega arith
bit_or-add (suc k) a b h =
    let low : a / 2 < 2 ^ k = omega (arith, pow-suc 2 k) in
    let twice = scaled b k in
    let half : b * 2 ^ suc k / 2 ≡ b * 2 ^ k = omega arith in
    let even : b * 2 ^ suc k % 2 ≡ 0 = omega arith in
    bit_or_halves a (b * 2 ^ suc k)
    ∙ ap₂ (λ x y. bit_or (a / 2) x * 2 + max (a % 2) y) half even
    ∙ ap (λ x. x * 2 + max (a % 2) 0) (bit_or-add k (a / 2) b low)
    ∙ omega arith

bit_xor-bits : (a b : ℕ) → a < 2 → b < 2 → bit_xor a b ≡ (a + b) % 2
bit_xor-bits zero zero p q = refl
bit_xor-bits zero (suc zero) p q = refl
bit_xor-bits zero (suc (suc y)) p q = absurd (omega arith)
bit_xor-bits (suc zero) zero p q = refl
bit_xor-bits (suc zero) (suc zero) p q = refl
bit_xor-bits (suc zero) (suc (suc y)) p q = absurd (omega arith)
bit_xor-bits (suc (suc x)) y p q = absurd (omega arith)

-- The register holds fifteen bits of the sequence, and a step shifts in the next one.
lfsr_step-bits : (n : ℕ) → lfsr_step (bits_from 15 n) ≡ bits_from 15 (suc n)
unfolding lfsr_step
lfsr_step-bits n =
    let state = bits_from 15 n in
    let rest = bits_from 14 (suc n) in
    let lt0 = key_bit-lt n in
    let lt1 = key_bit-lt (suc n) in
    let now : state % 2 ≡ key_bit n = omega arith in
    let half : state / 2 ≡ rest = omega arith in
    let then_bit : state / 2 % 2 ≡ key_bit (suc n) = omega arith in
    let fed : bit_xor (state % 2) (state / 2 % 2) ≡ key_bit (suc n + 14) =
      ap₂ bit_xor now then_bit
      ∙ bit_xor-bits (key_bit n) (key_bit (suc n)) lt0 lt1
      ∙ sym (key_bit-next n)
      ∙ (let e : n + 15 ≡ suc n + 14 = omega arith in ap key_bit e) in
    ap₂ (λ x f. bit_or x (f * 2 ^ 14) % 2 ^ 15) half fed
    ∙ ap (λ x. x % 2 ^ 15)
        (bit_or-add 14 rest (key_bit (suc n + 14)) (bits_from-lt 14 (suc n))
          ∙ sym (bits_from-last 14 (suc n)))
    ∙ omega (arith, bits_from-lt 15 (suc n))

-- The rest of a byte.
key_byte-bits :
    (m bit n val : ℕ)
    → val < 2 ^ bit
    → key_byte m bit (bits_from 15 n) val ≡ (bits_from 15 (n + m), val + bits_from m n * 2 ^ bit)
unfolding key_byte
key_byte-bits zero bit n val h =
    let e : n ≡ n + 0 = omega arith in
    let v : val ≡ val + 0 * 2 ^ bit = omega arith in ap₂ (λ x y. (bits_from 15 x, y)) e v
key_byte-bits (suc m) bit n val h =
    let state = bits_from 15 n in
    let lt = key_bit-lt n in
    let now : state % 2 ≡ key_bit n = omega arith in
    let set_now : bit_or val (state % 2 * 2 ^ bit) ≡ val + key_bit n * 2 ^ bit =
      ap (λ x. bit_or val (x * 2 ^ bit)) now ∙ bit_or-add bit val (key_bit n) h in
    let fits : val + key_bit n * 2 ^ bit < 2 ^ suc bit = grind (arith, pow-suc 2 bit) in
    let e : suc n + m ≡ n + suc m = omega arith in
    let v : val + key_bit n * 2 ^ bit + bits_from m (suc n) * 2 ^ suc bit
        ≡ val + bits_from (suc m) n * 2 ^ bit =
      omega (
        arith,
        scaled (bits_from m (suc n)) bit,
        add-mul (key_bit n) (bits_from m (suc n) * 2) (2 ^ bit),
        mul_right_comm (bits_from m (suc n)) 2 (2 ^ bit),
      ) in
    ap₂ (λ s x. key_byte m (suc bit) s x) (lfsr_step-bits n) set_now
    ∙ key_byte-bits m (suc bit) (suc n) (val + key_bit n * 2 ^ bit) fits
    ∙ ap₂ (λ x y. (bits_from 15 x, y)) e v

table_from-bits :
    (m n i : ℕ) → i < m → get_or (table_from m (bits_from 15 n)) i 0 ≡ bits_from 8 (n + 8 * i)
unfolding table_from
table_from-bits zero n i h = absurd (omega arith)
table_from-bits (suc m) n zero h =
    ap (λ (r : ℕ × ℕ). r.1) (key_byte-bits 8 0 n 0 (omega arith))
    ∙ (let e : n ≡ n + 8 * 0 = omega arith in
        (let v : 0 + bits_from 8 n * 2 ^ 0 ≡ bits_from 8 n = omega arith in v ∙ ap (bits_from 8) e))
table_from-bits (suc m) n (suc i) h =
    let next = ap (λ (r : ℕ × ℕ). r.0) (key_byte-bits 8 0 n 0 (omega arith)) in
    ap (λ s. get_or (table_from m s) i 0) next
    ∙ table_from-bits m (n + 8) i (omega arith)
    ∙ (let e : n + 8 + 8 * i ≡ n + 8 * suc i = omega arith in ap (bits_from 8) e)

first_state : 1 ≡ bits_from 15 0
unfolding key_bit
first_state = refl

-- A byte of the scramble sequence has eight bits of the sequence, the first one lowest.
pub scramble_table-bits : (i : ℕ) → i < 2_340 → get_or scramble_table i 0 ≡ bits_from 8 (8 * i)
unfolding scramble_table
scramble_table-bits i h =
    ap (λ s. get_or (table_from 2_340 s) i 0) first_state
    ∙ table_from-bits 2_340 0 i h
    ∙ (let e : 0 + 8 * i ≡ 8 * i = omega arith in ap (bits_from 8) e)

length-table_from : (m s : ℕ) → length (table_from m s) ≡ m
unfolding table_from
length-table_from zero s = refl
length-table_from (suc m) s = ap suc (length-table_from m (key_byte 8 0 s 0).0)

pub length-scramble_table : length scramble_table ≡ 2_340
unfolding scramble_table
length-scramble_table = length-table_from 2_340 1
