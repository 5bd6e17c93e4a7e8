-- ===== src/Cpu/Ea.antt =====
-- crates/cdi-scc68070/src/ea.rs: operand sizes, effective addresses and operand access. A mode
-- that the source only logs gives what it returns there; mode 8 and above cannot be decoded.
use edi_emulator.Prelude.{
  ℕ, ◌+◌, ◌-◌, ◌%◌, ◌^◌, ◌==◌, if◌then◌else◌, Option, none, some, get_or, set, u8, u16, u32, sext8,
  sext16, has_bit, field,
}
use edi_emulator.Cpu.State.{Cpu, data_fc}
use edi_emulator.Cpu.Access.{
  Bus68k, spend, read8, read16, read32, write8, write16, write32, fetch16, fetch32,
}

pub data Size : Type 0 where
  byte word long : Size

abbrev pub bytes : Size → ℕ
bytes byte = 1
bytes word = 2
bytes long = 4

unfoldable pub from_bits : ℕ → Option Size
from_bits n =
    if n == 0 then some byte else if n == 1 then some word else if n == 2 then some long else none

-- `mask() + 1`: `v & mask` is `v % modulus`.
abbrev pub modulus : Size → ℕ
modulus byte = 2 ^ 8
modulus word = 2 ^ 16
modulus long = 2 ^ 32

-- The number of the bit `msb()`.
abbrev pub msb_bit : Size → ℕ
msb_bit byte = 7
msb_bit word = 15
msb_bit long = 31

abbrev pub sext : Size → ℕ → ℕ
sext byte v = sext8 v
sext word v = sext16 v
sext long v = v

pub data Ea : Type 0 where
  dn an : ℕ → Ea
  mem : ℕ → Ea
  imm : ℕ → Ea

-- Byte accesses through A7 move by 2.
unfoldable pub step_size : Size → ℕ → ℕ
step_size byte reg = if reg == 7 then 2 else 1
step_size size reg = bytes size

-- `(cpu.d[r] & !mask) | (v & mask)`
abbrev pub merge : Size → ℕ → ℕ → ℕ
merge size old v = old - old % modulus size + v % modulus size

abbrev pub with_d : ℕ → ℕ → Cpu → Cpu
with_d r v cpu = record cpu { d = set cpu.d r v }

abbrev pub with_a : ℕ → ℕ → Cpu → Cpu
with_a r v cpu = record cpu { a = set cpu.a r v }

module _ {B : Type 0} (bus : Bus68k B) where
  unfoldable pub indexed_addr : ℕ → Cpu × B → ℕ × Cpu × B
  indexed_addr base s =
      let (ext, cpu0, b) = fetch16 bus s in
      let cpu = spend 6 cpu0 in
      let reg = field ext 12 3 in
      let idx_raw = if has_bit ext 15 then get_or cpu.a reg 0 else get_or cpu.d reg 0 in
      let idx = if has_bit ext 11 then idx_raw else sext16 idx_raw in
      (u32 (u32 (base + sext8 ext) + idx), cpu, b)

  -- `d16(base)`: a displacement from the instruction stream, three internal clocks.
  unfoldable pub displaced : ℕ → Cpu × B → ℕ × Cpu × B
  displaced base s =
      let (disp, cpu, b) = fetch16 bus s in (u32 (base + sext16 disp), spend 3 cpu, b)

  -- An address that is displaced from the register as it stands after the fetch.
  unfoldable pub displaced_a : ℕ → Cpu × B → ℕ × Cpu × B
  displaced_a r s =
      let (disp, cpu, b) = fetch16 bus s in (u32 (get_or cpu.a r 0 + sext16 disp), spend 3 cpu, b)

  abbrev pub as_mem : ℕ × Cpu × B → Ea × Cpu × B
  as_mem (addr, cpu, b) = (mem addr, cpu, b)

  unfoldable pub immediate : Size → Cpu × B → Ea × Cpu × B
  immediate byte s = let (v, cpu, b) = fetch16 bus s in (imm (u8 v), cpu, b)
  immediate word s = let (v, cpu, b) = fetch16 bus s in (imm v, cpu, b)
  immediate long s = let (v, cpu, b) = fetch32 bus s in (imm v, cpu, b)

  unfoldable pub absolute_short : Cpu × B → ℕ × Cpu × B
  absolute_short s = let (v, cpu, b) = fetch16 bus s in (sext16 v, cpu, b)

  -- Mode 7, by its register field.
  unfoldable pub ea_seven : ℕ → Size → Cpu × B → Ea × Cpu × B
  ea_seven reg size (cpu, b) =
      if reg == 0
      then as_mem (absolute_short (cpu, b))
      else if reg == 1
      then as_mem (fetch32 bus (cpu, b))
      else if reg == 2
      then as_mem (displaced cpu.pc (cpu, b))
      else if reg == 3
      then as_mem (indexed_addr cpu.pc (cpu, b))
      else if reg == 4
      then immediate size (cpu, b)
      else (imm 0, cpu, b)

  unfoldable pub ea : ℕ → ℕ → Size → Cpu × B → Ea × Cpu × B
  unfolding ea_seven
  ea mode r size (cpu, b) =
      let addr = get_or cpu.a r 0 in
      if mode == 0
      then (dn r, cpu, b)
      else if mode == 1
      then (an r, cpu, b)
      else if mode == 2
      then (mem addr, cpu, b)
      else if mode == 3
      then (mem addr, with_a r (u32 (addr + step_size size r)) cpu, b)
      else if mode == 4
      then (let down = u32 (addr + 2 ^ 32 - step_size size r) in
          (mem down, with_a r down (spend 3 cpu), b))
      else if mode == 5
      then as_mem (displaced_a r (cpu, b))
      else if mode == 6
      then as_mem (indexed_addr addr (cpu, b))
      else ea_seven r size (cpu, b)

  unfoldable pub read_mem : ℕ → Size → Cpu × B → ℕ × Cpu × B
  read_mem addr byte s = read8 bus addr (data_fc (s.0)) s
  read_mem addr word s = read16 bus addr (data_fc (s.0)) s
  read_mem addr long s = read32 bus addr (data_fc (s.0)) s

  unfoldable pub read_ea : Ea → Size → Cpu × B → ℕ × Cpu × B
  read_ea (dn r) size (cpu, b) = (get_or cpu.d r 0 % modulus size, cpu, b)
  read_ea (an r) size (cpu, b) = (get_or cpu.a r 0 % modulus size, cpu, b)
  read_ea (imm v) size (cpu, b) = (v % modulus size, cpu, b)
  read_ea (mem addr) size s = read_mem addr size s

  unfoldable pub write_mem : ℕ → Size → ℕ → Cpu × B → Cpu × B
  write_mem addr byte v s = write8 bus addr (u8 v) (data_fc (s.0)) s
  write_mem addr word v s = write16 bus addr (u16 v) (data_fc (s.0)) s
  write_mem addr long v s = write32 bus addr v (data_fc (s.0)) s

  unfoldable pub write_ea : Ea → Size → ℕ → Cpu × B → Cpu × B
  write_ea (dn r) size v (cpu, b) = (with_d r (merge size (get_or cpu.d r 0) v) cpu, b)
  write_ea (an r) size v (cpu, b) = (with_a r (sext size v) cpu, b)
  write_ea (imm w) size v s = s
  write_ea (mem addr) size v s = write_mem addr size v s

  -- Control modes yield the address itself and have no increment.
  unfoldable pub control_addr : ℕ → ℕ → Cpu × B → ℕ × Cpu × B
  control_addr mode r (cpu, b) =
      let addr = get_or cpu.a r 0 in
      if mode == 2
      then (addr, cpu, b)
      else if mode == 5
      then displaced_a r (cpu, b)
      else if mode == 6
      then indexed_addr addr (cpu, b)
      else if mode == 7
      then (if r == 0
          then absolute_short (cpu, b)
          else if r == 1
          then fetch32 bus (cpu, b)
          else if r == 2
          then displaced cpu.pc (cpu, b)
          else if r == 3
          then indexed_addr cpu.pc (cpu, b)
          else (0, cpu, b))
      else (0, cpu, b)
