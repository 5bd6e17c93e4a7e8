-- ===== src/Prelude/Bytes.antt =====
-- Lists of bytes, and what keeps them.
use Prim.Native.Nat.{ℕ, zero, suc, ◌<◌}
use mathlib.Core.List.{List, [], ◌∷◌, ◌++◌}
use native.Mathlib.Omega.{arith}
use edi_emulator.Prelude.Lists.{get_or, set, replicate, tail}

abbrev pub AllBytes : List ℕ → Type 0
AllBytes [] = Unit {0}
AllBytes (x ∷ xs) = (x < 256) × AllBytes xs

pub get_or-byte : (l : List ℕ) (i : ℕ) → AllBytes l → get_or l i 0 < 256
get_or-byte [] i h = omega arith
get_or-byte (x ∷ l) zero h = h.0
get_or-byte (x ∷ l) (suc i) h = get_or-byte l i h.1

pub set-AllBytes : (l : List ℕ) (i v : ℕ) → v < 256 → AllBytes l → AllBytes (set l i v)
set-AllBytes [] i v lt h = tt
set-AllBytes (x ∷ l) zero v lt h = (lt, h.1)
set-AllBytes (x ∷ l) (suc i) v lt h = (h.0, set-AllBytes l i v lt h.1)

pub append-AllBytes : (l : List ℕ) (v : ℕ) → AllBytes l → v < 256 → AllBytes (l ++ v ∷ [])
append-AllBytes [] v h lt = (lt, tt)
append-AllBytes (x ∷ l) v h lt = (h.0, append-AllBytes l v h.1 lt)

pub tail-AllBytes : (l : List ℕ) → AllBytes l → AllBytes (tail l)
tail-AllBytes [] h = tt
tail-AllBytes (x ∷ l) h = h.1

pub zeros-AllBytes : (n : ℕ) → AllBytes (replicate n 0)
zeros-AllBytes zero = tt
zeros-AllBytes (suc n) = (omega arith, zeros-AllBytes n)
