-- ===== src/Cpu/Access.antt =====
-- Bus accesses, instruction fetch and the stack. A 32-bit access is two 16-bit cycles, the high
-- word first; each cycle costs four clocks and its wait states.
use edi_emulator.Prelude.{ℕ, ◌+◌, ◌-◌, ◌*◌, ◌/◌, ◌^◌, Bool, Option, get_or, set, u16, u32, u64}
use edi_emulator.Cpu.State.{Cpu, FnCode, supervisor_program, data_fc, prog_fc}

pub data BusAccessSize : Type 0 where
  byte word : BusAccessSize

pub record BusError : Type 0 where
  pub address : ℕ
  pub function_code : FnCode
  pub size : BusAccessSize
  pub read : Bool
  pub write_data : ℕ

-- The trait `Bus68k` over the bus states `B`.
pub record Bus68k (B : Type 0) : Type 0 where
  pub read8 : ℕ → FnCode → B → (ℕ × ℕ) × B
  pub read16 : ℕ → FnCode → B → (ℕ × ℕ) × B
  pub write8 : ℕ → ℕ → FnCode → B → ℕ × B
  pub write16 : ℕ → ℕ → FnCode → B → ℕ × B
  pub take_bus_error : B → Option BusError × B
  pub iack : ℕ → B → ℕ × B

abbrev pub bus_access_clocks : ℕ
bus_access_clocks = 4

-- `cpu.cycles += n`
abbrev pub spend : ℕ → Cpu → Cpu
spend n cpu = record cpu { cycles = u64 (cpu.cycles + n) }

module _ {B : Type 0} (bus : Bus68k B) where
  unfoldable pub read8 : ℕ → FnCode → Cpu × B → ℕ × Cpu × B
  read8 addr fc (cpu, b) =
      let ((v, wait), b') = bus.read8 addr fc b in (v, spend (bus_access_clocks + wait) cpu, b')

  unfoldable pub read16 : ℕ → FnCode → Cpu × B → ℕ × Cpu × B
  read16 addr fc (cpu, b) =
      let ((v, wait), b') = bus.read16 addr fc b in (v, spend (bus_access_clocks + wait) cpu, b')

  unfoldable pub read32 : ℕ → FnCode → Cpu × B → ℕ × Cpu × B
  read32 addr fc s =
      let (hi, cpu1, b1) = read16 addr fc s in
      let (lo, cpu2, b2) = read16 (u32 (addr + 2)) fc (cpu1, b1) in (hi * 2 ^ 16 + lo, cpu2, b2)

  unfoldable pub write8 : ℕ → ℕ → FnCode → Cpu × B → Cpu × B
  write8 addr v fc (cpu, b) =
      let (wait, b') = bus.write8 addr v fc b in (spend (bus_access_clocks + wait) cpu, b')

  unfoldable pub write16 : ℕ → ℕ → FnCode → Cpu × B → Cpu × B
  write16 addr v fc (cpu, b) =
      let (wait, b') = bus.write16 addr v fc b in (spend (bus_access_clocks + wait) cpu, b')

  unfoldable pub write32 : ℕ → ℕ → FnCode → Cpu × B → Cpu × B
  write32 addr v fc s = write16 (u32 (addr + 2)) (u16 v) fc (write16 addr (u16 (v / 2 ^ 16)) fc s)

  unfoldable pub fetch16 : Cpu × B → ℕ × Cpu × B
  fetch16 (cpu, b) =
      let (v, cpu', b') = read16 cpu.pc (prog_fc cpu) (cpu, b) in
      (v, record cpu' { pc = u32 (cpu'.pc + 2) }, b')

  unfoldable pub fetch32 : Cpu × B → ℕ × Cpu × B
  fetch32 s =
      let (hi, cpu1, b1) = fetch16 s in
      let (lo, cpu2, b2) = fetch16 (cpu1, b1) in (hi * 2 ^ 16 + lo, cpu2, b2)

  -- `a[7]` moved by a wrapping addition.
  move_sp : ℕ → Cpu → Cpu
  move_sp n cpu = record cpu { a = set cpu.a 7 (u32 (get_or cpu.a 7 0 + n)) }

  unfoldable pub push16 : ℕ → Cpu × B → Cpu × B
  unfolding move_sp
  push16 v (cpu, b) =
      let cpu' = move_sp (2 ^ 32 - 2) cpu in write16 (get_or cpu'.a 7 0) v (data_fc cpu') (cpu', b)

  unfoldable pub push32 : ℕ → Cpu × B → Cpu × B
  unfolding move_sp
  push32 v (cpu, b) =
      let cpu' = move_sp (2 ^ 32 - 4) cpu in write32 (get_or cpu'.a 7 0) v (data_fc cpu') (cpu', b)

  unfoldable pub pop16 : Cpu × B → ℕ × Cpu × B
  unfolding move_sp
  pop16 (cpu, b) =
      let (v, cpu', b') = read16 (get_or cpu.a 7 0) (data_fc cpu) (cpu, b) in
      (v, move_sp 2 cpu', b')

  unfoldable pub pop32 : Cpu × B → ℕ × Cpu × B
  unfolding move_sp
  pop32 (cpu, b) =
      let (v, cpu', b') = read32 (get_or cpu.a 7 0) (data_fc cpu) (cpu, b) in
      (v, move_sp 4 cpu', b')

  unfoldable pub reset : Cpu × B → Cpu × B
  reset (cpu, b) =
      let cpu0 = record cpu { sr = 0x2700; stopped = Bool.false } in
      let (sp, cpu1, b1) = read32 0 supervisor_program (cpu0, b) in
      let cpu2 = record cpu1 { a = set cpu1.a 7 sp } in
      let (pc, cpu3, b3) = read32 4 supervisor_program (cpu2, b1) in (record cpu3 { pc = pc }, b3)
