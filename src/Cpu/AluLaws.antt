-- ===== src/Cpu/AluLaws.antt =====
-- The flags of addition, subtraction and comparison against arithmetic: carry and borrow are the
-- unsigned overflows, V the signed one, and the condition codes after a comparison are the orders.
use edi_emulator.Prelude.{
  ℕ, ◌+◌, ◌-◌, ◌/◌, ◌%◌, ◌^◌, ◌≤◌, ◌<◌, min, max, ◌≡◌, arith, Bool, not, ltb, leb, ◌&&◌, bit_and,
  bit_or, has_bit, u32,
}
use edi_emulator.Prelude.Bits.{bit-and, bit-or}
use edi_emulator.Cpu.State.{put_bit}
use edi_emulator.Cpu.Ea.{Size, byte, word, long, modulus}
use edi_emulator.Cpu.Alu.{not32, is_negative}

-- Each of the five flags keeps its value when another is written, and has the written one.
module _ (w : ℕ) (on : Bool) where
  pub put_c :
      (has_bit (put_bit w 0 on) 0 ≡ on)
      × (has_bit (put_bit w 0 on) 1 ≡ has_bit w 1)
      × (has_bit (put_bit w 0 on) 2 ≡ has_bit w 2)
      × (has_bit (put_bit w 0 on) 3 ≡ has_bit w 3)
      × (has_bit (put_bit w 0 on) 4 ≡ has_bit w 4)
  put_c = (ground arith, ground arith, ground arith, ground arith, ground arith)

  pub put_v :
      (has_bit (put_bit w 1 on) 0 ≡ has_bit w 0)
      × (has_bit (put_bit w 1 on) 1 ≡ on)
      × (has_bit (put_bit w 1 on) 2 ≡ has_bit w 2)
      × (has_bit (put_bit w 1 on) 3 ≡ has_bit w 3)
      × (has_bit (put_bit w 1 on) 4 ≡ has_bit w 4)
  put_v = (ground arith, ground arith, ground arith, ground arith, ground arith)

  pub put_z :
      (has_bit (put_bit w 2 on) 0 ≡ has_bit w 0)
      × (has_bit (put_bit w 2 on) 1 ≡ has_bit w 1)
      × (has_bit (put_bit w 2 on) 2 ≡ on)
      × (has_bit (put_bit w 2 on) 3 ≡ has_bit w 3)
      × (has_bit (put_bit w 2 on) 4 ≡ has_bit w 4)
  put_z = (ground arith, ground arith, ground arith, ground arith, ground arith)

  pub put_n :
      (has_bit (put_bit w 3 on) 0 ≡ has_bit w 0)
      × (has_bit (put_bit w 3 on) 1 ≡ has_bit w 1)
      × (has_bit (put_bit w 3 on) 2 ≡ has_bit w 2)
      × (has_bit (put_bit w 3 on) 3 ≡ on)
      × (has_bit (put_bit w 3 on) 4 ≡ has_bit w 4)
  put_n = (ground arith, ground arith, ground arith, ground arith, ground arith)

  pub put_x :
      (has_bit (put_bit w 4 on) 0 ≡ has_bit w 0)
      × (has_bit (put_bit w 4 on) 1 ≡ has_bit w 1)
      × (has_bit (put_bit w 4 on) 2 ≡ has_bit w 2)
      × (has_bit (put_bit w 4 on) 3 ≡ has_bit w 3)
      × (has_bit (put_bit w 4 on) 4 ≡ on)
  put_x = (ground arith, ground arith, ground arith, ground arith, ground arith)

-- The digits of the carry and overflow words of `do_add` and `do_sub`.
carry_digit :
    (k d s r : ℕ)
    → bit_or (bit_and d s) (bit_and r (bit_or d s)) / 2 ^ k % 2
      ≡ max
          (min (d / 2 ^ k % 2) (s / 2 ^ k % 2))
          (min (r / 2 ^ k % 2) (max (d / 2 ^ k % 2) (s / 2 ^ k % 2)))
carry_digit k d s r = rw (
  bit-or k (bit_and d s) (bit_and r (bit_or d s)),
  bit-and k d s,
  bit-and k r (bit_or d s),
  bit-or k d s,
)

borrow_digit :
    (k s d r : ℕ)
    → bit_or (bit_and s d) (bit_and r (bit_or d s)) / 2 ^ k % 2
      ≡ max
          (min (s / 2 ^ k % 2) (d / 2 ^ k % 2))
          (min (r / 2 ^ k % 2) (max (d / 2 ^ k % 2) (s / 2 ^ k % 2)))
borrow_digit k s d r = rw (
  bit-or k (bit_and s d) (bit_and r (bit_or d s)),
  bit-and k s d,
  bit-and k r (bit_or d s),
  bit-or k d s,
)

overflow_digit :
    (k d s r d' s' r' : ℕ)
    → bit_or (bit_and (bit_and d s) r') (bit_and (bit_and d' s') r) / 2 ^ k % 2
      ≡ max
          (min (min (d / 2 ^ k % 2) (s / 2 ^ k % 2)) (r' / 2 ^ k % 2))
          (min (min (d' / 2 ^ k % 2) (s' / 2 ^ k % 2)) (r / 2 ^ k % 2))
overflow_digit k d s r d' s' r' = rw (
  bit-or k (bit_and (bit_and d s) r') (bit_and (bit_and d' s') r),
  bit-and k (bit_and d s) r',
  bit-and k d s,
  bit-and k (bit_and d' s') r,
  bit-and k d' s',
)

-- The signed value of a `size` operand plus half the range: its order is the signed order.
abbrev pub biased : Size → ℕ → ℕ
biased size v = (v + modulus size / 2) % modulus size

module _ (d s c : ℕ) (bound : c ≤ 1) where
  abbrev pub sum_word : Size → ℕ
  sum_word size = (d + s + c) % modulus size

  pub add_carry :
      (size : Size)
      → d < modulus size
      → s < modulus size
      → is_negative size (bit_or (bit_and d s) (bit_and (not32 (sum_word size)) (bit_or d s)))
        ≡ leb (modulus size) (d + s + c)
  add_carry byte h k = ground (arith, carry_digit 7 d s (not32 (sum_word byte)))
  add_carry word h k = ground (arith, carry_digit 15 d s (not32 (sum_word word)))
  add_carry long h k = ground (arith, carry_digit 31 d s (not32 (sum_word long)))

  -- Overflow of the signed sum: the biased sum leaves the range `[m / 2, m / 2 + m)`.
  pub add_overflow :
      (size : Size)
      → d < modulus size
      → s < modulus size
      → is_negative size (
          bit_or
            (bit_and (bit_and d s) (not32 (sum_word size)))
            (bit_and (bit_and (not32 d) (not32 s)) (sum_word size)))
        ≡ not (
            leb (modulus size / 2) (biased size d + biased size s + c)
            && ltb (biased size d + biased size s + c) (modulus size / 2 + modulus size))
  add_overflow byte h k =
      ground
        (arith, overflow_digit 7 d s (sum_word byte) (not32 d) (not32 s) (not32 (sum_word byte)))
  add_overflow word h k =
      ground
        (arith, overflow_digit 15 d s (sum_word word) (not32 d) (not32 s) (not32 (sum_word word)))
  add_overflow long h k =
      ground
        (arith, overflow_digit 31 d s (sum_word long) (not32 d) (not32 s) (not32 (sum_word long)))

  abbrev pub difference_word : Size → ℕ
  difference_word size = u32 (d + 2 ^ 33 - s - c) % modulus size

  pub sub_borrow :
      (size : Size)
      → d < modulus size
      → s < modulus size
      → is_negative size
          (bit_or (bit_and s (not32 d)) (bit_and (difference_word size) (bit_or (not32 d) s)))
        ≡ ltb d (s + c)
  sub_borrow byte h k = ground (arith, borrow_digit 7 s (not32 d) (difference_word byte))
  sub_borrow word h k = ground (arith, borrow_digit 15 s (not32 d) (difference_word word))
  sub_borrow long h k = ground (arith, borrow_digit 31 s (not32 d) (difference_word long))

  -- Overflow of the signed difference.
  pub sub_overflow :
      (size : Size)
      → d < modulus size
      → s < modulus size
      → is_negative size (
          bit_or
            (bit_and (bit_and (not32 d) s) (difference_word size))
            (bit_and (bit_and d (not32 s)) (not32 (difference_word size))))
        ≡ not (
            leb (biased size s + c) (biased size d + modulus size / 2)
            && ltb (biased size d) (biased size s + c + modulus size / 2))
  sub_overflow byte h k = ground (
    arith,
    overflow_digit 7 (not32 d) s (not32 (difference_word byte)) d (not32 s) (difference_word byte),
  )
  sub_overflow word h k = ground (
    arith,
    overflow_digit 15 (not32 d) s (not32 (difference_word word)) d (not32 s) (difference_word word),
  )
  sub_overflow long h k = ground (
    arith,
    overflow_digit 31 (not32 d) s (not32 (difference_word long)) d (not32 s) (difference_word long),
  )
