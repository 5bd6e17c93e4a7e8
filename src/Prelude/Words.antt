-- ===== src/Prelude/Words.antt =====
-- Machine words as native numbers: wrap by `%`, shift by `/` and `*`, single bits by arithmetic
-- that the linear tactics read.
use Prim.Native.Nat.{ℕ, ◌+◌, ◌-◌, ◌*◌, ◌/◌, ◌%◌, ◌^◌}
use mathlib.Core.Bool.{Bool}
use edi_emulator.Prelude.Tests.{◌==◌, if◌then◌else◌}

abbrev pub u8 : ℕ → ℕ
u8 n = n % 2 ^ 8

abbrev pub u16 : ℕ → ℕ
u16 n = n % 2 ^ 16

abbrev pub u32 : ℕ → ℕ
u32 n = n % 2 ^ 32

abbrev pub u64 : ℕ → ℕ
u64 n = n % 2 ^ 64

-- `x & (1 << k) != 0`
abbrev pub has_bit : ℕ → ℕ → Bool
has_bit x k = x / 2 ^ k % 2 == 1

-- `x & !(1 << k)`
abbrev pub clear_bit : ℕ → ℕ → ℕ
clear_bit x k = x - x / 2 ^ k % 2 * 2 ^ k

-- `x | (1 << k)`
abbrev pub set_bit : ℕ → ℕ → ℕ
set_bit x k = clear_bit x k + 2 ^ k

-- `(x >> k) & ((1 << w) - 1)`
abbrev pub field : ℕ → ℕ → ℕ → ℕ
field x k w = x / 2 ^ k % 2 ^ w

-- `v as i8 as u32` and `v as i16 as u32`
abbrev pub sext8 : ℕ → ℕ
sext8 v = if has_bit v 7 then v % 2 ^ 8 + (2 ^ 32 - 2 ^ 8) else v % 2 ^ 8

abbrev pub sext16 : ℕ → ℕ
sext16 v = if has_bit v 15 then v % 2 ^ 16 + (2 ^ 32 - 2 ^ 16) else v % 2 ^ 16
