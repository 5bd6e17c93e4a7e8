-- ===== src/Cpu.antt =====
-- crates/cdi-scc68070/src/{bus,cpu}.rs: the SCC68070's registers, its bus accesses, stack and
-- exceptions. The bus is the trait `Bus68k`: a type of bus states and its accesses, each of which
-- may change the bus and reports its wait states. A method on `&mut Cpu` and `&mut Bus` takes and
-- returns a pair of both.
pub mod Sr
pub mod State
pub mod Access
pub mod Except
pub mod Ea
pub mod Alu
pub mod Bcd
pub mod BcdLaws
pub mod Shift
pub mod ShiftLaws
pub mod AluLaws
pub mod Flags
pub mod Compare
