-- ===== src/Cpu/Bcd.antt =====
-- crates/cdi-scc68070/src/exec.rs, `bcd_add`, `bcd_sub` and `nbcd`.
use edi_emulator.Prelude.{
  ℕ, ◌+◌, ◌-◌, ◌%◌, ◌^◌, false, not, ◌==◌, ltb, ◌&&◌, ◌||◌, if◌then◌else◌, bit_of, has_bit, u16,
}
use edi_emulator.Cpu.Sr
use edi_emulator.Cpu.State.{Cpu, flag, set_flag}

-- Z is only ever cleared, by a result that is not zero.
unfoldable pub clear_z : Cpu → ℕ → Cpu
clear_z cpu r = if r % 2 ^ 8 == 0 then cpu else set_flag cpu Sr.z false

-- The uncorrected sum, and the sum after the two corrections.
unfoldable pub plain_sum : ℕ → ℕ → ℕ → ℕ
plain_sum dst src x = dst % 2 ^ 8 + src % 2 ^ 8 + x

unfoldable pub corrected_sum : ℕ → ℕ → ℕ → ℕ
unfolding plain_sum
corrected_sum dst src x =
    let r1 = plain_sum dst src x in
    let r = r1 + (if ltb 9 (dst % 2 ^ 4 + src % 2 ^ 4 + x) then 6 else 0) in
    if ltb 0x9f r then r + 0x60 else r

unfoldable pub bcd_add : Cpu → ℕ → ℕ → Cpu × ℕ
unfolding corrected_sum
bcd_add cpu dst src =
    let x = bit_of (flag cpu Sr.x) in
    let r1 = plain_sum dst src x in
    let r = corrected_sum dst src x in
    let carry = has_bit r 8 || has_bit r 9 in
    let cpu1 = set_flag (set_flag cpu Sr.c carry) Sr.x carry in
    let cpu2 = set_flag cpu1 Sr.v (has_bit r 7 && not (has_bit r1 7)) in
    (clear_z (set_flag cpu2 Sr.n (has_bit r 7)) r, r % 2 ^ 8)

unfoldable pub plain_difference : ℕ → ℕ → ℕ → ℕ
plain_difference dst src x = u16 (dst % 2 ^ 8 + 2 ^ 16 - src % 2 ^ 8 - x)

-- `hr & 0x10` of the wrapped low-digit difference says that it borrowed.
unfoldable pub corrected_difference : ℕ → ℕ → ℕ → ℕ
unfolding plain_difference
corrected_difference dst src x =
    let hr = dst % 2 ^ 4 + 2 ^ 32 - src % 2 ^ 4 - x in
    let r1 = plain_difference dst src x in
    let r = u16 (r1 + 2 ^ 16 - (if has_bit hr 4 then 6 else 0)) in
    if has_bit r1 8 then u16 (r + 2 ^ 16 - 0x60) else r

unfoldable pub bcd_sub : Cpu → ℕ → ℕ → Cpu × ℕ
unfolding corrected_difference
bcd_sub cpu dst src =
    let x = bit_of (flag cpu Sr.x) in
    let r1 = plain_difference dst src x in
    let r = corrected_difference dst src x in
    let borrow = has_bit r 8 || has_bit r 9 in
    let cpu1 = set_flag (set_flag cpu Sr.c borrow) Sr.x borrow in
    let cpu2 = set_flag cpu1 Sr.v (not (has_bit r 7) && has_bit r1 7) in
    (clear_z (set_flag cpu2 Sr.n (has_bit r 7)) r, r % 2 ^ 8)

unfoldable pub nbcd : Cpu → ℕ → Cpu × ℕ
unfolding bcd_sub
nbcd cpu dst = bcd_sub cpu 0 dst
