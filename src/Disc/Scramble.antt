-- ===== src/Disc/Scramble.antt =====
-- crates/cdi-disc/src/scramble.rs: the ECMA-130 scramble sequence and its application. The table
-- is built once and shared in the source; here it is the value.
use edi_emulator.Prelude.{
  ℕ, zero, suc, ◌-◌, ◌*◌, ◌/◌, ◌%◌, ◌^◌, bit_xor, bit_or, List, [], ◌∷◌, ◌++◌, take, drop,
}

abbrev pub scrambled_len : ℕ
scrambled_len = 2352 - 12

-- One step of the register: `((state >> 1) | (feedback << 14)) & 0x7fff`.
unfoldable pub lfsr_step : ℕ → ℕ
lfsr_step state =
    let feedback = bit_xor (state % 2) (state / 2 % 2) in
    bit_or (state / 2) (feedback * 2 ^ 14) % 2 ^ 15

-- The inner loop from bit `8 - n` on: the register after it and the byte.
unfoldable pub key_byte : ℕ → ℕ → ℕ → ℕ → ℕ × ℕ
unfolding lfsr_step
key_byte zero bit state val = (state, val)
key_byte (suc n) bit state val =
    key_byte n (suc bit) (lfsr_step state) (bit_or val (state % 2 * 2 ^ bit))

unfoldable pub table_from : ℕ → ℕ → List ℕ
unfolding key_byte
table_from zero state = []
table_from (suc n) state = let r = key_byte 8 0 state 0 in r.1 ∷ table_from n r.0

unfoldable pub scramble_table : List ℕ
unfolding table_from
scramble_table = table_from scrambled_len 1

-- `iter_mut().zip(table)`: the shorter of the two ends the loop.
unfoldable pub xor_zip : List ℕ → List ℕ → List ℕ
xor_zip [] keys = []
xor_zip (b ∷ bs) [] = b ∷ bs
xor_zip (b ∷ bs) (k ∷ ks) = bit_xor b k ∷ xor_zip bs ks

-- `descramble_in_place`; slicing a sector of less than 12 bytes panics in the source, so a
-- sector has at least 12.
unfoldable pub descramble_in_place : List ℕ → List ℕ
unfolding xor_zip scramble_table
descramble_in_place sector = take 12 sector ++ xor_zip (drop 12 sector) scramble_table
