-- ===== src/Cpu/Alu.antt =====
-- crates/cdi-scc68070/src/exec.rs: the flags of addition, subtraction and comparison, the
-- condition codes, and the register forms of division and multiplication.
use edi_emulator.Prelude.{
  ℕ, ◌+◌, ◌-◌, ◌%◌, ◌^◌, Bool, true, false, not, ◌==◌, ◌<=>◌, ◌&&◌, ◌||◌, if◌then◌else◌, bit_of,
  bit_and, bit_or, has_bit, u32,
}
use edi_emulator.Cpu.Sr
use edi_emulator.Cpu.State.{Cpu, flag, set_flag}
use edi_emulator.Cpu.Ea.{Size, modulus, msb_bit}

-- `!x` on a `u32`.
abbrev pub not32 : ℕ → ℕ
not32 x = 2 ^ 32 - 1 - x

-- `val & size.msb() != 0`
abbrev pub is_negative : Size → ℕ → Bool
is_negative size val = has_bit val (msb_bit size)

unfoldable pub set_nz : Cpu → ℕ → Size → Cpu
set_nz cpu val size =
    set_flag (set_flag cpu Sr.n (is_negative size val)) Sr.z (val % modulus size == 0)

unfoldable pub set_logic_flags : Cpu → ℕ → Size → Cpu
set_logic_flags cpu val size = set_flag (set_flag (set_nz cpu val size) Sr.v false) Sr.c false

-- Z with the extended forms is only ever cleared.
unfoldable pub set_z : Cpu → Bool → ℕ → Cpu
set_z cpu extend result =
    if extend
    then (if result == 0 then cpu else set_flag cpu Sr.z false)
    else set_flag cpu Sr.z (result == 0)

unfoldable pub do_add : Cpu → ℕ → ℕ → Size → Bool → Cpu × ℕ
do_add cpu dst src size extend =
    let carry_in = bit_of (extend && flag cpu Sr.x) in
    let d = dst % modulus size in
    let s = src % modulus size in
    let result = (d + s + carry_in) % modulus size in
    let carry = bit_or (bit_and d s) (bit_and (not32 result) (bit_or d s)) in
    let overflow =
      bit_or (bit_and (bit_and d s) (not32 result))
        (bit_and (bit_and (not32 d) (not32 s)) result) in
    let cpu1 = set_flag cpu Sr.c (is_negative size carry) in
    let cpu2 = set_flag cpu1 Sr.x (is_negative size carry) in
    let cpu3 = set_flag cpu2 Sr.v (is_negative size overflow) in
    let cpu4 = set_flag cpu3 Sr.n (is_negative size result) in (set_z cpu4 extend result, result)

unfoldable pub do_sub : Cpu → ℕ → ℕ → Size → Bool → Bool → Cpu × ℕ
do_sub cpu dst src size extend write_x =
    let borrow_in = bit_of (extend && flag cpu Sr.x) in
    let d = dst % modulus size in
    let s = src % modulus size in
    let result = u32 (d + 2 ^ 33 - s - borrow_in) % modulus size in
    let borrow = bit_or (bit_and s (not32 d)) (bit_and result (bit_or (not32 d) s)) in
    let overflow =
      bit_or (bit_and (bit_and (not32 d) s) result)
        (bit_and (bit_and d (not32 s)) (not32 result)) in
    let cpu1 = set_flag cpu Sr.c (is_negative size borrow) in
    let cpu2 = if write_x then set_flag cpu1 Sr.x (is_negative size borrow) else cpu1 in
    let cpu3 = set_flag cpu2 Sr.v (is_negative size overflow) in
    let cpu4 = set_flag cpu3 Sr.n (is_negative size result) in (set_z cpu4 extend result, result)

unfoldable pub do_cmp : Cpu → ℕ → ℕ → Size → Cpu
do_cmp cpu dst src size = (do_sub cpu dst src size false false).0

-- The 16 condition codes; the field has four bits, so no other code is decoded.
unfoldable pub condition : Cpu → ℕ → Bool
condition cpu cc =
    let c = flag cpu Sr.c in
    let v = flag cpu Sr.v in
    let z = flag cpu Sr.z in
    let n = flag cpu Sr.n in
    if cc == 0
    then true
    else if cc == 1
    then false
    else if cc == 2
    then not c && not z
    else if cc == 3
    then c || z
    else if cc == 4
    then not c
    else if cc == 5
    then c
    else if cc == 6
    then not z
    else if cc == 7
    then z
    else if cc == 8
    then not v
    else if cc == 9
    then v
    else if cc == 10
    then not n
    else if cc == 11
    then n
    else if cc == 12
    then n <=> v
    else if cc == 13
    then not (n <=> v)
    else if cc == 14
    then not z && (n <=> v)
    else z || not (n <=> v)
