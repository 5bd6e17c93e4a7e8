-- ===== src/Tests/CpuRuns.antt =====
-- The CPU at concrete states (crates/cdi-scc68070/src).
use edi_emulator.Prelude.{
  ◌*◌, ◌/◌, ◌^◌, ◌+◌, ◌-◌, ◌%◌, bit_of, ltb, leb, ◌≡◌, refl, arith, true, false,
}
use edi_emulator.Cpu.Sr
use edi_emulator.Cpu.Bcd.{bcd_add, bcd_sub}
use edi_emulator.Cpu.BcdLaws.{digits_of, bcd_add_decimal, bcd_sub_decimal}
use edi_emulator.Cpu.State.{flag, set_flag, new}
use edi_emulator.Cpu.Ea.{byte, word, long}
use edi_emulator.Cpu.Alu.{set_z, do_add, do_sub, do_cmp, condition}
use edi_emulator.Cpu.Shift.{logical, shift_val}
use edi_emulator.Cpu.ShiftLaws.{shift_val_logical}
use edi_emulator.Cpu.Flags.{IsSum, do_add-IsSum}
use edi_emulator.Cpu.Compare.{IsDifference, do_sub-IsDifference, IsOrder, do_cmp-IsOrder}

-- 0x80 is below 0x7f as a signed byte and above it as an unsigned one.
signed_and_unsigned :
    (condition (do_cmp new 0x80 0x7f byte) 13 ≡ true)
    × (condition (do_cmp new 0x80 0x7f byte) 2 ≡ true)
unfolding do_cmp do_sub set_z set_flag condition new
signed_and_unsigned = (refl, refl)

do_cmp-IsOrder_example : IsOrder byte 0x80 0x7f (do_cmp new 0x80 0x7f byte)
do_cmp-IsOrder_example = do_cmp-IsOrder new 0x80 0x7f byte

do_sub-IsDifference_example :
    IsDifference word false true 5 9 0 new
      (do_sub new 5 9 word false true).0
      (do_sub new 5 9 word false true).1
do_sub-IsDifference_example = do_sub-IsDifference new 5 9 word false true

do_add-IsSum_example :
    IsSum long false 0x7fffffff 1 0 new
      (do_add new 0x7fffffff 1 long false).0
      (do_add new 0x7fffffff 1 long false).1
do_add-IsSum_example = do_add-IsSum new 0x7fffffff 1 long false

bcd_add_decimal_example :
    let (q, r) = bcd_add new (digits_of 57) (digits_of 68) in
    (r ≡ digits_of ((57 + 68 + bit_of (flag new Sr.x)) % 100))
    × (flag q Sr.c ≡ leb 100 (57 + 68 + bit_of (flag new Sr.x)))
    × (flag q Sr.x ≡ leb 100 (57 + 68 + bit_of (flag new Sr.x)))
bcd_add_decimal_example = bcd_add_decimal new 57 68 (omega arith) (omega arith)

bcd_sub_decimal_example :
    let (q, r) = bcd_sub new (digits_of 31) (digits_of 32) in
    (r ≡ digits_of ((31 + 100 - 32 - bit_of (flag new Sr.x)) % 100))
    × (flag q Sr.c ≡ ltb 31 (32 + bit_of (flag new Sr.x)))
    × (flag q Sr.x ≡ ltb 31 (32 + bit_of (flag new Sr.x)))
bcd_sub_decimal_example = bcd_sub_decimal new 31 32 (omega arith) (omega arith)

shift_val_logical_example :
    ((shift_val new logical true 0x81 3 byte).1 ≡ 0x81 % 256 * 2 ^ 3 % 256)
    × ((shift_val new logical false 0x81 3 byte).1 ≡ 0x81 % 256 / 2 ^ 3)
shift_val_logical_example = shift_val_logical new 0x81 3 byte
