-- ===== src/Tests/PeriphRuns.antt =====
-- The peripherals at concrete states (crates/cdi-scc68070/src/periph.rs).
use edi_emulator.Prelude.{◌+◌, ◌%◌, ◌≡◌, refl, arith, true, List, [], ◌∷◌, replicate, set}
use edi_emulator.Prelude.Paced.{iterate, paced}
use edi_emulator.Periph.{Peripherals, default, new}
use edi_emulator.Periph.Dma.{advance_dma1_word, dma1_transfer_count, be16, dma_interrupt_level}
use edi_emulator.Periph.Irq.{
  pending_ipl, iack, external_level, int1_level, int2_level, timer_level, uart_rx_level,
  uart_tx_level,
}
use edi_emulator.Periph.Clock.{tick, cycles_until_next_event, timer_step, uart_active}
use edi_emulator.Periph.Valid.{IsValid}
use edi_emulator.Periph.Bytes.{HoldsBytes}
use edi_emulator.Periph.Reachable.{Operation, perform_all, reachable-IsValid}
use edi_emulator.Periph.IrqLaws.{Acknowledged, Autovectored, latched, iack-pending_ipl}
use edi_emulator.Periph.Transfer.{IsTransferred, transfer-IsTransferred}
use edi_emulator.Periph.Portions.{tick-tick}
use edi_emulator.Periph.Deadline.{waited, tick-waited, tick-cycles_until_next_event}
use edi_emulator.Periph.Serial.{tick-tx_out}

-- Timer 0 two ticks before its overflow, at level 5, with nothing on the UART.
abbrev near_overflow : Peripherals
near_overflow = record default {
  picr1 = 5;
  timer0 = 0xfffe;
  reload = 0xff00;
  timer_accum = 10;
  dma_regs = replicate 112 0;
  mmu_regs = replicate 128 0;
}

-- Three bytes to send.
abbrev sending : Peripherals
sending = record near_overflow {
  uart_tx_enabled = true;
  tx_fifo = 72 ∷ 105 ∷ 33 ∷ [];
  tx_out = 1 ∷ [];
  tx_accum = 500;
}

-- Channel 1 set up for two words, as the driver does.
abbrev two_words : Peripherals
two_words = record near_overflow {
  dma_regs = set (set (set (replicate 112 0) 0x4b 2) 0x4e 0x30) 0x47 0x80;
}

-- The timer's request is pending at level 5.
abbrev timer_asks : Peripherals
timer_asks = record near_overflow { timer_int = true }

near_overflow-IsValid : IsValid near_overflow
near_overflow-IsValid = ground arith

overflow_runs :
    ((tick near_overflow 192).timer0 ≡ 0xff00) × (pending_ipl (tick near_overflow 192) ≡ 5)
unfolding tick paced timer_step pending_ipl external_level int1_level int2_level timer_level
    uart_rx_level uart_tx_level dma_interrupt_level
overflow_runs = (refl, refl)

tick-tick_example : tick (tick sending 700) 2400 ≡ tick sending 3100
tick-tick_example = tick-tick sending 700 2400 (omega arith) (omega arith)

tick-waited_example : tick near_overflow 181 ≡ waited near_overflow 181
unfolding cycles_until_next_event uart_active
tick-waited_example = tick-waited near_overflow near_overflow-IsValid 181 (omega arith)

tick-cycles_until_next_event_example :
    tick near_overflow (cycles_until_next_event near_overflow) ≡ record near_overflow {
      timer0 = 0xff00;
      timer0_overflows = 1;
      tsr = 0x80;
      timer_int = true;
      timer_accum = 0;
      tx_accum = cycles_until_next_event near_overflow % 1200;
    }
unfolding uart_active cycles_until_next_event
tick-cycles_until_next_event_example =
    tick-cycles_until_next_event near_overflow near_overflow-IsValid refl

timer_pending : pending_ipl timer_asks ≡ 5
unfolding pending_ipl external_level int1_level int2_level timer_level uart_rx_level uart_tx_level
    dma_interrupt_level
timer_pending = refl

iack-pending_ipl_example :
    (Autovectored timer_asks (pending_ipl timer_asks)
      → iack timer_asks (pending_ipl timer_asks) ≡ (timer_asks, 24 + pending_ipl timer_asks))
    × (¬ Autovectored timer_asks (pending_ipl timer_asks)
        → ((iack timer_asks (pending_ipl timer_asks)).1 ≡ 0x38 + pending_ipl timer_asks)
          × Acknowledged timer_asks
              (pending_ipl timer_asks)
              (iack timer_asks (pending_ipl timer_asks)).0
          × (latched (iack timer_asks (pending_ipl timer_asks)).0 + 1 ≡ latched timer_asks))
iack-pending_ipl_example = iack-pending_ipl timer_asks (rw timer_pending (omega arith))

transfer-IsTransferred_example : IsTransferred two_words 2 (iterate 2 advance_dma1_word two_words)
unfolding dma1_transfer_count be16
transfer-IsTransferred_example = transfer-IsTransferred 1 two_words refl (omega arith) (omega arith)

abbrev some_calls : List Operation
some_calls =
    Operation.write_byte 0x2045 5 (omega arith)
    ∷ Operation.write_byte 0x4047 0x88 (omega arith)
    ∷ Operation.tick_cycles 70000 (omega arith)
    ∷ Operation.serial_byte 0x41 (omega arith)
    ∷ Operation.acknowledge 5
    ∷ []

reachable-IsValid_example :
    IsValid (perform_all some_calls new) × HoldsBytes (perform_all some_calls new)
reachable-IsValid_example = reachable-IsValid some_calls

tick-tx_out_example :
    ((tick sending 1900).tx_out ≡ 1 ∷ 72 ∷ 105 ∷ []) × ((tick sending 1900).tx_fifo ≡ 33 ∷ [])
tick-tx_out_example = tick-tx_out sending 1900 refl (omega arith) (omega arith)
