-- ===== src/Cpu/ShiftLaws.antt =====
-- crates/cdi-scc68070/src/exec.rs, `shift_val`: the loop of the logical shifts is a power of two.
use edi_emulator.Prelude.{
  ℕ, zero, suc, ◌*◌, ◌/◌, ◌%◌, ◌^◌, ◌<◌, ◌≡◌, refl, sym, ap, ◌∙◌, arith, Bool, true, false, ◌==◌,
  if_false,
}
use native.Mathlib.Nat.{pow-suc, mul_assoc}
use edi_emulator.Prelude.Bits.{half-pow}
use edi_emulator.Cpu.Sr
use edi_emulator.Cpu.State.{Cpu, flag}
use edi_emulator.Cpu.Ea.{Size, byte, word, long, modulus}
use edi_emulator.Cpu.Shift.{Kind, logical, Loop, left_round, right_round, round, rounds, shift_val}

-- The last round, instead of the first.
rounds-suc :
    (n : ℕ) (kind : Kind) (left : Bool) (size : Size) (l : Loop)
    → rounds (suc n) kind left size l ≡ round kind left size (rounds n kind left size l)
unfolding rounds
rounds-suc zero kind left size l = refl
rounds-suc (suc n) kind left size l = rounds-suc n kind left size (round kind left size l)

double-mod : (size : Size) (y : ℕ) → y % modulus size * 2 % modulus size ≡ y * 2 % modulus size
double-mod byte y = omega arith
double-mod word y = omega arith
double-mod long y = omega arith

rounds-left :
    (n : ℕ) (size : Size) (l : Loop)
    → l.v < modulus size
    → (rounds n logical true size l).v ≡ l.v * 2 ^ n % modulus size
unfolding rounds round left_round
rounds-left zero byte l h = omega arith
rounds-left zero word l h = omega arith
rounds-left zero long l h = omega arith
rounds-left (suc n) size l h =
    let e : l.v * 2 ^ n * 2 ≡ l.v * 2 ^ suc n =
      mul_assoc l.v (2 ^ n) 2 ∙ sym (ap (λ y. l.v * y) (pow-suc 2 n)) in
    ap (λ (q : Loop). q.v) (rounds-suc n logical true size l)
    ∙ ap (λ y. y * 2 % modulus size) (rounds-left n size l h)
    ∙ double-mod size (l.v * 2 ^ n)
    ∙ ap (λ y. y % modulus size) e

rounds-right : (n : ℕ) (size : Size) (l : Loop) → (rounds n logical false size l).v ≡ l.v / 2 ^ n
unfolding rounds round right_round
rounds-right zero size l = omega arith
rounds-right (suc n) size l =
    rounds-right n size (right_round logical size l) ∙ sym (half-pow n l.v)

mod-lt : (size : Size) (y : ℕ) → y % modulus size < modulus size
mod-lt byte y = omega arith
mod-lt word y = omega arith
mod-lt long y = omega arith

-- LSL and LSR at every operand size and every count, zero and counts beyond the size included:
-- the result is the operand times, or divided by, two to the count, in the operand's width.
pub shift_val_logical :
    (cpu : Cpu) (val count : ℕ) (size : Size)
    → ((shift_val cpu logical true val count size).1
        ≡ val % modulus size * 2 ^ count % modulus size)
      × ((shift_val cpu logical false val count size).1 ≡ val % modulus size / 2 ^ count)
unfolding shift_val
shift_val_logical cpu val zero byte = (omega arith, omega arith)
shift_val_logical cpu val zero word = (omega arith, omega arith)
shift_val_logical cpu val zero long = (omega arith, omega arith)
shift_val_logical cpu val (suc n) size =
    let l : Loop = record {
      v = val % modulus size;
      carry = false;
      overflow = false;
      x = flag cpu Sr.x;
    } in
    let v = val % modulus size in
    (
      if_false (λ (r : Cpu × ℕ). r.1 ≡ v * 2 ^ suc n % modulus size) (suc n == 0) _ _ (ground arith)
          (rounds-left (suc n) size l (mod-lt size val)),
      if_false (λ (r : Cpu × ℕ). r.1 ≡ v / 2 ^ suc n) (suc n == 0) _ _ (ground arith)
          (rounds-right (suc n) size l),
    )
