-- ===== src/Periph/Clock.antt =====
-- `tick`, timer 0 and the UART's pacing, and `cycles_until_next_event`. A loop of the source has
-- one unit of fuel more than the rounds that its counter allows.
use edi_emulator.Prelude.{
  ℕ, suc, ◌+◌, ◌-◌, ◌*◌, ◌/◌, ◌^◌, min, max, Bool, true, false, not, ◌&&◌, ◌||◌, ◌==◌,
  if◌then◌else◌, List, [], ◌∷◌, ◌++◌, u16, u64, set_bit,
}
use edi_emulator.Prelude.Paced.{paced}
use edi_emulator.Periph.{
  Peripherals, usr_rxrdy, usr_txrdy, usr_txemt, tsr_ov0, timer_divider, uart_tx_cycles,
}

abbrev pub u64_max : ℕ
u64_max = 2 ^ 64 - 1

-- The body of the timer's loop, after `timer_accum -= TIMER_DIVIDER`.
unfoldable pub timer_step : Peripherals → Peripherals
timer_step p =
    let next = u16 (p.timer0 + 1) in
    if next == 0
    then record p {
      timer0 = p.reload;
      timer0_overflows = min (p.timer0_overflows + 1) u64_max;
      tsr = set_bit p.tsr tsr_ov0;
      timer_int = true;
    }
    else record p { timer0 = next }

abbrev pub with_timer_accum : ℕ → Peripherals → Peripherals
with_timer_accum n p = record p { timer_accum = n }

abbrev pub timer_count : Peripherals → ℕ
timer_count p = p.timer_accum

unfoldable pub tick_timer : Peripherals → ℕ → Peripherals
tick_timer p cycles =
    let accum = u64 (p.timer_accum + cycles) in
    paced timer_count with_timer_accum timer_step timer_divider (suc (accum / timer_divider))
      (with_timer_accum accum p)

abbrev pub is_empty : List ℕ → Bool
is_empty [] = true
is_empty (b ∷ bs) = false

-- The first queued byte, if any, goes out.
unfoldable pub send_first : List ℕ → Peripherals → Peripherals
send_first [] p = p
send_first (b ∷ bs) p = record p { tx_fifo = bs; tx_out = p.tx_out ++ b ∷ [] }

unfoldable pub transmit : Peripherals → Peripherals
unfolding send_first
transmit p =
    if p.uart_tx_enabled
    then (let q =
          send_first p.tx_fifo (record p { usr = set_bit p.usr usr_txrdy; uart_tx_int = true }) in
        if is_empty q.tx_fifo then record q { usr = set_bit q.usr usr_txemt } else q)
    else p

unfoldable pub present_first : List ℕ → Peripherals → Peripherals
present_first [] p = p
present_first (b ∷ bs) p = record p {
  rx_holding = b;
  usr = set_bit p.usr usr_rxrdy;
  uart_rx_int = true;
}

unfoldable pub receive : Peripherals → Peripherals
unfolding present_first
receive p = if p.uart_rx_enabled then present_first p.rx_queue p else p

-- The body of the UART's loop, after `tx_accum -= UART_TX_CYCLES`.
unfoldable pub uart_step : Peripherals → Peripherals
unfolding transmit receive
uart_step p = receive (transmit p)

abbrev pub with_tx_accum : ℕ → Peripherals → Peripherals
with_tx_accum n p = record p { tx_accum = n }

abbrev pub uart_count : Peripherals → ℕ
uart_count p = p.tx_accum

unfoldable pub tick_uart : Peripherals → ℕ → Peripherals
tick_uart p cycles =
    let accum = u64 (p.tx_accum + cycles) in
    paced uart_count with_tx_accum uart_step uart_tx_cycles (suc (accum / uart_tx_cycles))
      (with_tx_accum accum p)

unfoldable pub tick : Peripherals → ℕ → Peripherals
unfolding tick_timer tick_uart
tick p cycles = tick_uart (tick_timer p cycles) cycles

unfoldable pub uart_active : Peripherals → Bool
uart_active p = p.uart_tx_enabled || (p.uart_rx_enabled && not (is_empty p.rx_queue))

-- `saturating_mul` cannot be reached by a 16-bit timer, so it is a plain product.
unfoldable pub cycles_until_next_event : Peripherals → ℕ
cycles_until_next_event p =
    let increments = 65535 - p.timer0 + 1 in
    let timer = timer_divider - p.timer_accum + (increments - 1) * timer_divider in
    let uart = if uart_active p then uart_tx_cycles - p.tx_accum else u64_max in
    max (min timer uart) 1
