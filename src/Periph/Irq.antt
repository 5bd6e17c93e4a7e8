-- ===== src/Periph/Irq.antt =====
-- The interrupt controller: the level that the CPU sees, and the acknowledge cycle.
use edi_emulator.Prelude.{
  ℕ, ◌+◌, max, Bool, false, not, ◌&&◌, ◌||◌, ◌==◌, if◌then◌else◌, has_bit, clear_bit, field,
}
use edi_emulator.Periph.{Peripherals}
use edi_emulator.Periph.Dma.{dma_interrupt_level}

-- The level that each source requests, 0 for none.
unfoldable pub external_level : Peripherals → ℕ
external_level p =
    if p.nmi_line
    then 7
    else if p.in5_line
    then 5
    else if p.in4_line
    then 4
    else if p.in2_line
    then 2
    else 0

unfoldable pub int1_level : Peripherals → ℕ
int1_level p = if has_bit p.lir 7 then field p.lir 4 3 else 0

unfoldable pub int2_level : Peripherals → ℕ
int2_level p = if has_bit p.lir 3 then field p.lir 0 3 else 0

unfoldable pub timer_level : Peripherals → ℕ
timer_level p = if p.timer_int then field p.picr1 0 3 else 0

unfoldable pub uart_rx_level : Peripherals → ℕ
uart_rx_level p = if p.uart_rx_int then field p.picr2 4 3 else 0

unfoldable pub uart_tx_level : Peripherals → ℕ
uart_tx_level p = if p.uart_tx_int then field p.picr2 0 3 else 0

unfoldable pub pending_ipl : Peripherals → ℕ
pending_ipl p =
    max
      (max
        (max
          (max (max (max (max (external_level p) (int1_level p)) (int2_level p)) (timer_level p))
            (uart_rx_level p))
          (uart_tx_level p))
        (dma_interrupt_level p 0x00))
      (dma_interrupt_level p 0x40)

-- The external pin that requests exactly `level`.
unfoldable pub external_pin : Peripherals → ℕ → Bool
external_pin p level =
    (level == 7 && p.nmi_line)
    || ((level == 5 && p.in5_line) || ((level == 4 && p.in4_line) || (level == 2 && p.in2_line)))

unfoldable pub dma_requests : Peripherals → ℕ → Bool
dma_requests p level =
    not (level == 0) && (level == dma_interrupt_level p 0x00 || level == dma_interrupt_level p 0x40)

-- The chain of latched sources: the first one that requests `level` is cleared.
unfoldable pub clear_latched : Peripherals → ℕ → Peripherals
clear_latched p level =
    if has_bit p.lir 7 && level == field p.lir 4 3
    then record p { lir = clear_bit p.lir 7 }
    else if has_bit p.lir 3 && level == field p.lir 0 3
    then record p { lir = clear_bit p.lir 3 }
    else if p.timer_int && level == field p.picr1 0 3
    then record p { timer_int = false }
    else if p.uart_rx_int && level == field p.picr2 4 3
    then record p { uart_rx_int = false }
    else if p.uart_tx_int && level == field p.picr2 0 3
    then record p { uart_tx_int = false }
    else p

unfoldable pub iack : Peripherals → ℕ → Peripherals × ℕ
iack p level =
    if external_pin p level
    then (p, 24 + level)
    else if dma_requests p level
    then (p, 24 + level)
    else (clear_latched p level, 0x38 + level)
