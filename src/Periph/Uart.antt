-- ===== src/Periph/Uart.antt =====
-- The UART command register.
use edi_emulator.Prelude.{
  ℕ, true, false, ◌==◌, if◌then◌else◌, [], clear_bit, set_bit, field, bit_and,
}
use edi_emulator.Periph.{Peripherals, usr_rxrdy, usr_txrdy, usr_txemt}

unfoldable pub receiver_command : ℕ → Peripherals → Peripherals
receiver_command c p =
    if c == 1
    then record p { uart_rx_enabled = true }
    else if c == 2
    then record p { uart_rx_enabled = false; usr = clear_bit p.usr usr_rxrdy; uart_rx_int = false }
    else p

unfoldable pub transmitter_command : ℕ → Peripherals → Peripherals
transmitter_command c p =
    if c == 1
    then record p { uart_tx_enabled = true }
    else if c == 2
    then record p { uart_tx_enabled = false; uart_tx_int = false }
    else p

unfoldable pub miscellaneous_command : ℕ → Peripherals → Peripherals
miscellaneous_command c p =
    if c == 2
    then record p {
      uart_rx_enabled = false;
      usr = clear_bit p.usr usr_rxrdy;
      uart_rx_int = false;
      rx_queue = [];
    }
    else if c == 3
    then record p {
      uart_tx_enabled = false;
      tx_fifo = [];
      usr = set_bit (set_bit p.usr usr_txrdy) usr_txemt;
      uart_tx_int = false;
    }
    else if c == 4
    then record p { usr = bit_and p.usr 0x0f }
    else p

unfoldable pub write_uart_command : Peripherals → ℕ → Peripherals
unfolding receiver_command transmitter_command miscellaneous_command
write_uart_command p val =
    let p0 = record p { ucr = val } in
    miscellaneous_command (field val 4 3)
      (transmitter_command (field val 2 2) (receiver_command (field val 0 2) p0))
