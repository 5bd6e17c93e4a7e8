-- ===== src/Cpu/Shift.antt =====
-- crates/cdi-scc68070/src/exec.rs, `shift_val`: the four kinds of shift, one position a round.
use edi_emulator.Prelude.{
  ℕ, zero, suc, ◌+◌, ◌*◌, ◌/◌, ◌%◌, Bool, true, false, not, ◌==◌, ◌<=>◌, ◌&&◌, ◌||◌, if◌then◌else◌,
  bit_of,
}
use edi_emulator.Cpu.Sr
use edi_emulator.Cpu.State.{Cpu, flag, set_flag}
use edi_emulator.Cpu.Ea.{Size, modulus}
use edi_emulator.Cpu.Alu.{is_negative, set_nz}

-- AS, LS, ROX, RO: the two bits of `kind`.
pub data Kind : Type 0 where
  arithmetic logical rotate_extend rotate : Kind

-- The loop's variables, and the X flag that ROX reads and writes in each round.
pub record Loop : Type 0 where
  pub v : ℕ
  pub carry : Bool
  pub overflow : Bool
  pub x : Bool

-- The most significant bit, in its place.
abbrev top : Size → Bool → ℕ
top size b = if b then modulus size / 2 else 0

-- `v & 1 != 0`
abbrev odd : ℕ → Bool
odd v = v % 2 == 1

-- One round to the left.
unfoldable pub left_round : Kind → Size → Loop → Loop
left_round arithmetic size l =
    let new = l.v * 2 % modulus size in
    let changed = not (is_negative size new <=> is_negative size l.v) in
    record l { v = new; carry = is_negative size l.v; overflow = l.overflow || changed }
left_round logical size l = record l { v = l.v * 2 % modulus size; carry = is_negative size l.v }
left_round rotate_extend size l =
    let out = is_negative size l.v in
    record l { v = (l.v * 2 + bit_of l.x) % modulus size; carry = out; x = out }
left_round rotate size l =
    let out = is_negative size l.v in
    record l { v = (l.v * 2 + bit_of out) % modulus size; carry = out }

-- One round to the right. The shifted value has a clear top bit, so `|` adds.
unfoldable pub right_round : Kind → Size → Loop → Loop
right_round arithmetic size l = record l {
  v = l.v / 2 + top size (is_negative size l.v);
  carry = odd l.v;
}
right_round logical size l = record l { v = l.v / 2; carry = odd l.v }
right_round rotate_extend size l =
    let out = odd l.v in record l { v = l.v / 2 + top size l.x; carry = out; x = out }
right_round rotate size l =
    let out = odd l.v in record l { v = l.v / 2 + top size out; carry = out }

unfoldable pub round : Kind → Bool → Size → Loop → Loop
unfolding left_round right_round
round kind left size l = if left then left_round kind size l else right_round kind size l

unfoldable pub rounds : ℕ → Kind → Bool → Size → Loop → Loop
rounds zero kind left size l = l
rounds (suc n) kind left size l = rounds n kind left size (round kind left size l)

-- X after the loop: ROX has written it in each round, AS and LS copy the carry, RO keeps it.
write_x : Kind → Loop → Cpu → Cpu
write_x arithmetic l cpu = set_flag cpu Sr.x l.carry
write_x logical l cpu = set_flag cpu Sr.x l.carry
write_x rotate_extend l cpu = set_flag cpu Sr.x l.x
write_x rotate l cpu = cpu

is_arithmetic : Kind → Bool
is_arithmetic arithmetic = true
is_arithmetic _ = false

is_rotate_extend : Kind → Bool
is_rotate_extend rotate_extend = true
is_rotate_extend _ = false

unfoldable pub shift_val : Cpu → Kind → Bool → ℕ → ℕ → Size → Cpu × ℕ
unfolding write_x is_arithmetic is_rotate_extend
shift_val cpu kind left val count size =
    let v = val % modulus size in
    if count == 0
    then (let cpu1 = set_flag cpu Sr.v false in
        let cpu2 = set_flag cpu1 Sr.c (is_rotate_extend kind && flag cpu1 Sr.x) in
        (set_nz cpu2 v size, v))
    else (let l =
          rounds count kind left size
            (record { v = v; carry = false; overflow = false; x = flag cpu Sr.x }) in
        let cpu1 = write_x kind l cpu in
        let cpu2 = set_flag cpu1 Sr.c l.carry in
        let cpu3 = set_flag cpu2 Sr.v (is_arithmetic kind && l.overflow) in
        (set_nz cpu3 l.v size, l.v))
