-- ===== src/Lib.antt =====
-- E-Di, an emulator of CD-i players: a model of its processor, of its event scheduler, of its
-- SLAVE microcontroller, CDIC and keyboard, and of its disc images.
--
-- The parts, and where they are modelled:
--
--   Periph    crates/cdi-scc68070/src/periph.rs, the peripherals on the SCC68070: interrupt
--             controller (Irq), timer and UART clock (Clock), UART commands (Uart), DMA registers
--             (Dma) and the byte registers (Regs). `Peripherals` has the fields of the struct of
--             that name; each method is the function of its name. The two `while` loops of `tick`
--             are `paced` loops (Prelude.Paced) on fuel `accum / period + 1`, which is enough since
--             each round takes one period from the count.
--   Cpu       crates/cdi-scc68070/src/{bus,cpu,ea,exec}.rs: the registers (State, Sr), the bus and
--             the stack (Access), exceptions, interrupts and `step` (Except), effective addresses
--             (Ea), and of the instructions the flag computations (Alu), BCD arithmetic (Bcd), the
--             shift loop (Shift) and RTE (Except). The trait `Bus68k` is the record of that name
--             over an abstract bus state; the decoder that `step` calls is its argument `execute`.
--   Sched     crates/cdi-core/src/sched.rs: the event queue, the standard library's binary heap kept
--             as the list of its entries in the order in which they are popped.
--   Keyboard  crates/cdi-core/src/keyboard.rs: the K-mode keyboard, its serial line (Line), packets
--             (Packet) and recognition (Identify). The loop of `tick` recurs on the pending
--             characters, of which each round takes one, so it needs no fuel.
--   Slave     crates/cdi-core/src/slave.rs: the SLAVE microcontroller: its four output channels, reply
--             queues and interrupt line (Channel), pointer, keys and `tick` (Input) and its command
--             ports (Port). The loops run over lists, so they need no fuel.
--   Cdic      crates/cdi-core/src/cdic.rs: the CDIC: shared RAM and mailbox (Cdic), ADPCM decoder (Adpcm)
--             and playback (Audio), commands (Transport), registers (Registers), subcode (Subcode),
--             sectors (Sector) and the 75 Hz pumps (Pump). The RAM is a function of its addresses.
--             The loops of `tick` are `paced` loops on fuel one above their count, which is enough
--             since the clock rate is at least 1; the loop of the resampler is one on fuel
--             `pos + 1`, since each round takes at least one from `pos`. The floating-point mixing
--             of a pair of samples is the argument `mix`, and the reading of a disc `read_at`.
--   Disc      crates/cdi-disc/src/{lib,sector,scramble,image}.rs: addresses (Text), raw sectors (Sector),
--             scrambling (Scramble, and KeyStream for its sequence) and disc images (Image), on the
--             data of a parsed CUE sheet
--             (cuesheet.rs). Opening and reading a file are arguments.
--   Os9       crates/cdi-os9/src/module.rs: OS-9 module headers and the scans for them (Os9), and the
--             records of configuration-status descriptors (Csd); a valid header and the checksum are
--             described on their own (Header, Checksum). A scan is on fuel of the image's
--             length, which is enough since each round moves on by two bytes or more. The reading
--             of a number is an argument.
--   Prelude   tests, lists, words and bits that the parts share.
--   Tests     runs at concrete inputs.
--
-- How they interact: the CPU reaches memory and the peripherals through its bus; the interrupt level
-- that `pending_ipl` computes is what `check_interrupts` samples, and `iack` is the bus's answer to
-- the acknowledge. The machine's run loop asks `cycles_until_next_event` how far it may run and then
-- ticks by what was executed; the keyboard's characters enter the UART's receive queue. The
-- CDIC reads the sectors of a disc image by absolute frame and descrambles them where needed.
--
-- Machine integers are natural numbers with the wrap-around written out; `|`, `&` and `^` are the
-- bitwise operations, and single bits are read and written by division. Vectors are lists. A read
-- out of a list's bounds gives 0 where the source would panic.
--
-- Not modelled: the instruction decoder and the instructions' cycle tables; the MCD212, the digital
-- video cartridge and the machine that joins the parts; the parser of CUE sheets; the OS-9 rules and
-- the inspection of a running system; Photo CD. The frontend, the command line tools and the
-- diagnostics are input and output. Save states and log messages are left out everywhere.
pub mod Prelude
pub mod Periph
pub mod Cpu
pub mod Sched
pub mod Keyboard
pub mod Slave
pub mod Cdic
pub mod Disc
pub mod Os9
mod Tests
