-- ===== src/Cpu/Sr.antt =====
-- The status register's bits (`sr_bits`), by their numbers.
use Prim.Native.Nat.{ℕ}

abbrev pub c : ℕ
c = 0

abbrev pub v : ℕ
v = 1

abbrev pub z : ℕ
z = 2

abbrev pub n : ℕ
n = 3

abbrev pub x : ℕ
x = 4

abbrev pub s : ℕ
s = 13

abbrev pub t : ℕ
t = 15
