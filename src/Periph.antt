-- ===== src/Periph.antt =====
-- crates/cdi-scc68070/src/periph.rs: the SCC68070's on-chip peripherals. This file holds the
-- state, reset and the interrupt pins; the children hold the interrupt controller, the DMA
-- channels, the clocked part and the register block, each followed by its laws.
-- Registers are numbers below their width; a vector is a list, and `get_or` at 0 stands for an
-- index that the source reads in range.
pub mod Irq
pub mod Dma
pub mod Uart
pub mod Clock
pub mod Regs
pub mod Valid
pub mod Bytes
pub mod Written
pub mod Reachable
pub mod IrqLevels
pub mod IrqLaws
pub mod DmaLaws
pub mod Transfer
pub mod ClockLaws
pub mod Portions
pub mod Deadline
pub mod Serial
use edi_emulator.Prelude.{
  ℕ, ◌+◌, ◌*◌, Bool, true, false, not, ◌&&◌, ◌||◌, List, [], ◌∷◌, ◌++◌, if◌then◌else◌, set_bit,
  replicate,
}

-- Bit numbers of USR_RXRDY, USR_TXRDY, USR_TXEMT and TSR_OV0.
abbrev pub usr_rxrdy : ℕ
usr_rxrdy = 0

abbrev pub usr_txrdy : ℕ
usr_txrdy = 2

abbrev pub usr_txemt : ℕ
usr_txemt = 3

abbrev pub tsr_ov0 : ℕ
tsr_ov0 = 7

abbrev pub timer_divider : ℕ
timer_divider = 96

abbrev pub uart_tx_cycles : ℕ
uart_tx_cycles = 1200

pub record Peripherals : Type 0 where
  pub lir : ℕ
  pub picr1 : ℕ
  pub picr2 : ℕ
  pub timer_int : Bool
  pub uart_rx_int : Bool
  pub uart_tx_int : Bool
  pub in2_line : Bool
  pub in4_line : Bool
  pub in5_line : Bool
  pub nmi_line : Bool
  pub int1_line : Bool
  pub int2_line : Bool
  pub tsr : ℕ
  pub tcr : ℕ
  pub reload : ℕ
  pub timer0 : ℕ
  pub timer1 : ℕ
  pub timer2 : ℕ
  pub timer_accum : ℕ
  pub timer0_overflows : ℕ
  pub umr : ℕ
  pub usr : ℕ
  pub ucsr : ℕ
  pub ucr : ℕ
  pub uart_rx_enabled : Bool
  pub uart_tx_enabled : Bool
  pub rx_holding : ℕ
  pub rx_queue : List ℕ
  pub tx_fifo : List ℕ
  pub tx_accum : ℕ
  pub tx_out : List ℕ
  pub i2c_regs : List ℕ
  pub dma_regs : List ℕ
  pub mmu_regs : List ℕ

unfoldable pub reset : Peripherals → Peripherals
reset p = record p {
  lir = 0;
  picr1 = 0;
  picr2 = 0;
  timer_int = false;
  timer0_overflows = 0;
  uart_rx_int = false;
  uart_tx_int = false;
  tsr = 0;
  tcr = 0;
  usr = 12;
  ucr = 0;
  uart_rx_enabled = false;
  uart_tx_enabled = false;
  tx_fifo = [];
  rx_queue = [];
  dma_regs = replicate 112 0;
}

-- `..Self::default()`
abbrev pub default : Peripherals
default = record {
  lir = 0;
  picr1 = 0;
  picr2 = 0;
  timer_int = false;
  uart_rx_int = false;
  uart_tx_int = false;
  in2_line = false;
  in4_line = false;
  in5_line = false;
  nmi_line = false;
  int1_line = false;
  int2_line = false;
  tsr = 0;
  tcr = 0;
  reload = 0;
  timer0 = 0;
  timer1 = 0;
  timer2 = 0;
  timer_accum = 0;
  timer0_overflows = 0;
  umr = 0;
  usr = 0;
  ucsr = 0;
  ucr = 0;
  uart_rx_enabled = false;
  uart_tx_enabled = false;
  rx_holding = 0;
  rx_queue = [];
  tx_fifo = [];
  tx_accum = 0;
  tx_out = [];
  i2c_regs = replicate 5 0;
  dma_regs = [];
  mmu_regs = [];
}

unfoldable pub new : Peripherals
unfolding reset
new = let p = default in reset (record p { dma_regs = replicate 112 0; mmu_regs = replicate 128 0 })

-- A rising edge latches the request.
unfoldable pub set_int1 : Peripherals → Bool → Peripherals
set_int1 p state =
    let lir = if state && not p.int1_line then set_bit p.lir 7 else p.lir in
    record p { lir = lir; int1_line = state }

unfoldable pub set_int2 : Peripherals → Bool → Peripherals
set_int2 p state =
    let lir = if state && not p.int2_line then set_bit p.lir 3 else p.lir in
    record p { lir = lir; int2_line = state }

unfoldable pub uart_rx : Peripherals → ℕ → Peripherals
uart_rx p byte = record p { rx_queue = p.rx_queue ++ byte ∷ [] }
