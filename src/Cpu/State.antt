-- ===== src/Cpu/State.antt =====
-- The CPU's registers and its status register.
use edi_emulator.Prelude.{
  ℕ, ◌-◌, Bool, false, ◌<=>◌, if◌then◌else◌, List, get_or, set, replicate, has_bit, set_bit,
  clear_bit, bit_and, bit_or,
}
use edi_emulator.Cpu.Sr

-- SR_MASK: T, S, the interrupt mask and the five condition codes; CCR_MASK: the condition codes.
abbrev pub sr_mask : ℕ
sr_mask = 0xa71f

abbrev pub ccr_mask : ℕ
ccr_mask = 0x1f

pub data Vector : Type 0 where
  bus_error address_error illegal_instruction zero_divide chk trap_v privilege trace line_a line_f :
      Vector

abbrev pub vector_number : Vector → ℕ
vector_number bus_error = 2
vector_number address_error = 3
vector_number illegal_instruction = 4
vector_number zero_divide = 5
vector_number chk = 6
vector_number trap_v = 7
vector_number privilege = 8
vector_number trace = 9
vector_number line_a = 10
vector_number line_f = 11

pub record Cpu : Type 0 where
  pub d : List ℕ
  pub a : List ℕ
  pub sp_other : ℕ
  pub pc : ℕ
  pub sr : ℕ
  pub stopped : Bool
  pub pending_ipl : ℕ
  pub cycles : ℕ
  pub exceptions_taken : ℕ

unfoldable pub new : Cpu
new = record {
  d = replicate 8 0;
  a = replicate 8 0;
  sp_other = 0;
  pc = 0;
  sr = 0x2700;
  stopped = false;
  pending_ipl = 0;
  cycles = 0;
  exceptions_taken = 0;
}

abbrev pub flag : Cpu → ℕ → Bool
flag cpu bit = has_bit cpu.sr bit

-- The status word after `set_flag`.
abbrev pub put_bit : ℕ → ℕ → Bool → ℕ
put_bit w bit on = if on then set_bit w bit else clear_bit w bit

unfoldable pub set_flag : Cpu → ℕ → Bool → Cpu
set_flag cpu bit on = record cpu { sr = put_bit cpu.sr bit on }

abbrev pub supervisor : Cpu → Bool
supervisor cpu = flag cpu Sr.s

pub data FnCode : Type 0 where
  user_data user_program supervisor_data supervisor_program cpu_space : FnCode

unfoldable pub data_fc : Cpu → FnCode
data_fc cpu = if supervisor cpu then supervisor_data else user_data

unfoldable pub prog_fc : Cpu → FnCode
prog_fc cpu = if supervisor cpu then supervisor_program else user_program

-- The stack pointers change places when the S bit changes.
unfoldable pub set_sr : Cpu → ℕ → Cpu
set_sr cpu value =
    let new = bit_and value sr_mask in
    if has_bit cpu.sr Sr.s <=> has_bit new Sr.s
    then record cpu { sr = new }
    else record cpu { sr = new; a = set cpu.a 7 cpu.sp_other; sp_other = get_or cpu.a 7 0 }

unfoldable pub set_ccr : Cpu → ℕ → Cpu
set_ccr cpu value = record cpu {
  sr = bit_or (cpu.sr - bit_and cpu.sr ccr_mask) (bit_and value ccr_mask);
}
