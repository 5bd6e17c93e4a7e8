-- ===== src/Cpu/Except.antt =====
-- Exceptions, bus errors and interrupts, and `step`, over an `execute` that the instruction
-- decoder supplies.
use edi_emulator.Prelude.{
  ℕ, ◌+◌, ◌-◌, ◌*◌, ◌%◌, ◌^◌, Bool, true, false, not, ◌==◌, ◌&&◌, ◌||◌, leb, ltb, if◌then◌else◌,
  none, some, bit_and, bit_or, set_bit, clear_bit, has_bit, field, u64,
}
use edi_emulator.Cpu.Sr
use edi_emulator.Cpu.State.{
  Cpu, vector_number, address_error, trace, flag, set_sr, FnCode, user_data, user_program,
  supervisor_data, supervisor_program, cpu_space,
}
use edi_emulator.Cpu.Access.{
  Bus68k, BusError, BusAccessSize, byte, word, spend, fetch16, push16, push32, pop16, pop32, read32,
}

-- The internal clocks of `exception`, by vector.
exception_clocks : ℕ → ℕ
exception_clocks vector =
    if vector == 5
    then 33
    else if vector == 6
    then 39
    else if vector == 7
    then 24
    else if leb 32 vector && leb vector 47
    then 21
    else 24

-- Enter supervisor state and clear trace.
unfoldable pub enter_supervisor : Cpu → Cpu
enter_supervisor cpu =
    set_sr (record cpu { exceptions_taken = u64 (cpu.exceptions_taken + 1) })
      (clear_bit (set_bit cpu.sr Sr.s) Sr.t)

function_code : FnCode → ℕ
function_code user_data = 1
function_code user_program = 2
function_code supervisor_data = 5
function_code supervisor_program = 6
function_code cpu_space = 7

is_program : FnCode → Bool
is_program user_program = true
is_program supervisor_program = true
is_program _ = false

is_byte : BusAccessSize → Bool
is_byte byte = true
is_byte word = false

-- The special status word of a bus error; its parts are disjoint bits.
unfoldable pub ssw : BusError → ℕ
unfolding function_code is_program is_byte
ssw fault =
    let part = if is_program fault.function_code then 2 ^ 13 else 2 ^ 12 in
    let low = if fault.address % 2 == 0 then 2 ^ 10 else 0 in
    let width = if is_byte fault.size then 2 ^ 9 + low else 0 in
    function_code fault.function_code + part + width + (if fault.read then 2 ^ 8 else 0)

module _ {B : Type 0} (bus : Bus68k B) where
  unfoldable pub exception : ℕ → Cpu × B → Cpu × B
  unfolding exception_clocks
  exception vector (cpu, b) =
      let s1 = push16 bus (vector * 4) (enter_supervisor cpu, b) in
      let s2 = push32 bus (s1.0).pc s1 in
      let s3 = push16 bus cpu.sr s2 in
      let (target, cpu4, b4) = read32 bus (vector * 4) supervisor_program s3 in
      (spend (exception_clocks vector) (record cpu4 { pc = target }), b4)

  -- A jump to an odd address raises an address error.
  unfoldable pub set_pc_checked : ℕ → Cpu × B → Cpu × B
  set_pc_checked target (cpu, b) =
      if target % 2 == 1
      then exception (vector_number address_error) (cpu, b)
      else (record cpu { pc = target }, b)

  unfoldable pub bus_error_exception : BusError → ℕ → ℕ → ℕ → Cpu × B → Cpu × B
  unfolding ssw
  bus_error_exception fault instruction_pc resume_pc instruction (cpu, b) =
      let s = push16 bus 0 (push16 bus 0 (enter_supervisor cpu, b)) in
      let s = push32 bus fault.address (push32 bus 0 (push16 bus instruction s)) in
      let s = push16 bus 0 (push32 bus resume_pc (push32 bus fault.write_data s)) in
      let s = push16 bus (0xf000 + 8) (push16 bus (ssw fault) s) in
      let s = push16 bus cpu.sr (push32 bus instruction_pc s) in
      let (target, cpu', b') = read32 bus 8 supervisor_program s in
      (spend 82 (record cpu' { pc = target }), b')

  unfoldable pub interrupt : ℕ → ℕ → Cpu × B → Cpu × B
  interrupt level vector (cpu, b) =
      let cpu1 = enter_supervisor (record cpu { stopped = false }) in
      let masked = bit_or (cpu1.sr - bit_and cpu1.sr 0x0700) (level * 2 ^ 8) in
      let s1 = push16 bus (vector * 4) (record cpu1 { sr = masked }, b) in
      let s2 = push32 bus (s1.0).pc s1 in
      let s3 = push16 bus cpu.sr s2 in
      let (target, cpu4, b4) = read32 bus (vector * 4) supervisor_program s3 in
      (spend 41 (record cpu4 { pc = target }), b4)

  unfoldable pub check_interrupts : Cpu × B → Bool × Cpu × B
  check_interrupts (cpu, b) =
      let level = cpu.pending_ipl in
      let mask = field cpu.sr 8 3 in
      if not (level == 0) && (level == 7 || ltb mask level)
      then (let (vector, b') = bus.iack level b in
          let (cpu', b'') = interrupt level vector (cpu, b') in (true, cpu', b''))
      else (false, cpu, b)

  -- One instruction, over the decoder's `execute`.
  module _ (execute : ℕ → Cpu × B → Cpu × B) where
    -- What follows the instruction's execution: a bus error undoes it, a trace follows it.
    unfoldable pub finish_step : Cpu → ℕ → Cpu × B → Cpu × B
    finish_step before op (cpu, b) =
        let (fault, b') = bus.take_bus_error b in
        elim fault [
          | some e ↦ bus_error_exception e before.pc cpu.pc op (before, b')
          | none ↦
              if flag before Sr.t
                && (cpu.exceptions_taken == before.exceptions_taken && not cpu.stopped)
              then exception (vector_number trace) (cpu, b')
              else (cpu, b')
        ]

    unfoldable pub step : Cpu × B → Cpu × B
    step (cpu, b) =
        let (taken, cpu1, b1) = check_interrupts (cpu, (bus.take_bus_error b).1) in
        if taken
        then (cpu1, b1)
        else if cpu1.stopped
        then (spend 2 cpu1, b1)
        else (let (op, cpu2, b2) = fetch16 bus (cpu1, b1) in
            finish_step cpu1 op (execute op (cpu2, b2)))

  -- The instruction RTE in supervisor state: the short frame, and the 17-word bus-error frame,
  -- whose SSW tells by RR (bit 15) whether the faulted instruction is rerun.
  unfoldable pub rte_frame : Cpu × B → (ℕ × ℕ) × Cpu × B
  rte_frame s =
      let (sr, cpu1, b1) = pop16 bus s in
      let (pc, cpu2, b2) = pop32 bus (cpu1, b1) in
      let (format, cpu3, b3) = pop16 bus (cpu2, b2) in
      if field format 12 4 == 15
      then (let (w, cpu4, b4) = pop16 bus (cpu3, b3) in
          let (mm, cpu5, b5) = pop16 bus (cpu4, b4) in
          let (resume_pc, cpu6, b6) = pop32 bus (cpu5, b5) in
          let (tpd, cpu7, b7) = pop32 bus (cpu6, b6) in
          let (tpf, cpu8, b8) = pop32 bus (cpu7, b7) in
          let (dbin, cpu9, b9) = pop32 bus (cpu8, b8) in
          let (ir, cpu10, b10) = pop16 bus (cpu9, b9) in
          let (irc, cpu11, b11) = pop16 bus (cpu10, b10) in
          let (internal, cpu12, b12) = pop16 bus (cpu11, b11) in
          let total = if has_bit w 15 then 140 else 146 in
          let return_pc = if has_bit w 15 then resume_pc else pc in
          ((sr, return_pc), record cpu12 { cycles = u64 ((s.0).cycles + total - 7) }, b12))
      else ((sr, pc), record cpu3 { cycles = u64 ((s.0).cycles + 39 - 7) }, b3)

  unfoldable pub rte : Cpu × B → Cpu × B
  rte s = let ((sr, return_pc), cpu, b) = rte_frame s in set_pc_checked return_pc (set_sr cpu sr, b)
