-- ===== src/Periph/Regs.antt =====
-- The register block at $80000000, byte by byte: `read8` and `write8`. An offset is decoded
-- once, into the arm of the source's `match` that takes it.
use edi_emulator.Prelude.{
  ℕ, ◌+◌, ◌-◌, ◌*◌, ◌/◌, ◌%◌, ◌^◌, ◌&&◌, ◌||◌, ◌==◌, leb, if◌then◌else◌, List, [], ◌∷◌, ◌++◌,
  get_or, set, tail, bit_and, bit_or, u8, has_bit, clear_bit, set_bit,
}
use edi_emulator.Periph.{Peripherals, usr_rxrdy, usr_txemt}
use edi_emulator.Periph.Dma.{dma1_transfer_count, complete_dma1}
use edi_emulator.Periph.Uart.{write_uart_command}

pub data Register : Type 0 where
  lir umr usr ucsr ucr transmit_holding receive_holding tsr tcr picr1 picr2 unmapped : Register
  reload_high reload_low : Register
  timer0_high timer0_low timer1_high timer1_low timer2_high timer2_low : Register
  i2c dma mmu : ℕ → Register

decode_i2c : ℕ → Register
decode_i2c o =
    if o == 0x2001
    then i2c 0
    else if o == 0x2003
    then i2c 1
    else if o == 0x2005
    then i2c 2
    else if o == 0x2007
    then i2c 3
    else if o == 0x2009
    then i2c 4
    else unmapped

decode_uart : ℕ → Register
decode_uart o =
    if o == 0x2011
    then umr
    else if o == 0x2013
    then usr
    else if o == 0x2015
    then ucsr
    else if o == 0x2017
    then ucr
    else if o == 0x2019
    then transmit_holding
    else if o == 0x201b
    then receive_holding
    else unmapped

decode_timer : ℕ → Register
decode_timer o =
    if o == 0x2020
    then tsr
    else if o == 0x2021
    then tcr
    else if o == 0x2022
    then reload_high
    else if o == 0x2023
    then reload_low
    else if o == 0x2024
    then timer0_high
    else if o == 0x2025
    then timer0_low
    else if o == 0x2026
    then timer1_high
    else if o == 0x2027
    then timer1_low
    else if o == 0x2028
    then timer2_high
    else if o == 0x2029
    then timer2_low
    else unmapped

-- The arms of the `match offset`; those of the ranges are indexed from the range's start.
unfoldable pub decode : ℕ → Register
unfolding decode_i2c decode_uart decode_timer
decode o =
    if o == 0x1001
    then lir
    else if o == 0x2045
    then picr1
    else if o == 0x2047
    then picr2
    else if leb 0x2001 o && leb o 0x2009
    then decode_i2c o
    else if leb 0x2011 o && leb o 0x201b
    then decode_uart o
    else if leb 0x2020 o && leb o 0x2029
    then decode_timer o
    else if leb 0x4000 o && leb o 0x406f
    then dma (o - 0x4000)
    else if leb 0x8000 o && leb o 0x807f
    then mmu (o - 0x8000)
    else unmapped

last_or_zero : List ℕ → ℕ
last_or_zero [] = 0
last_or_zero (b ∷ []) = b
last_or_zero (b ∷ c ∷ bs) = last_or_zero (c ∷ bs)

-- The values that a read gives without a side effect.
peek : Register → Peripherals → ℕ
unfolding last_or_zero
peek lir p = bit_and p.lir 0x77
peek (i2c n) p = if n == 2 then 0x80 else get_or p.i2c_regs n 0
peek umr p = p.umr
peek usr p = p.usr
peek ucsr p = p.ucsr
peek ucr p = p.ucr
peek transmit_holding p = last_or_zero p.tx_fifo
peek receive_holding p = p.rx_holding
peek tsr p = p.tsr
peek tcr p = p.tcr
peek reload_high p = u8 (p.reload / 2 ^ 8)
peek reload_low p = u8 p.reload
peek timer0_high p = u8 (p.timer0 / 2 ^ 8)
peek timer0_low p = u8 p.timer0
peek timer1_high p = u8 (p.timer1 / 2 ^ 8)
peek timer1_low p = u8 p.timer1
peek timer2_high p = u8 (p.timer2 / 2 ^ 8)
peek timer2_low p = u8 p.timer2
peek picr1 p = p.picr1
peek picr2 p = p.picr2
peek (dma i) p = get_or p.dma_regs i 0
peek (mmu i) p = get_or p.mmu_regs i 0
peek unmapped p = 0

-- Reading the receive holding register takes the byte that was presented.
take_received : Peripherals → Peripherals
take_received p =
    if has_bit p.usr usr_rxrdy
    then record p { usr = clear_bit p.usr usr_rxrdy; rx_queue = tail p.rx_queue }
    else p

unfoldable pub read_register : Register → Peripherals → Peripherals × ℕ
unfolding peek take_received
read_register receive_holding p = (take_received p, p.rx_holding)
read_register r p = (p, peek r p)

unfoldable pub read8 : Peripherals → ℕ → Peripherals × ℕ
unfolding decode read_register
read8 p offset = read_register (decode offset) p

-- `(w & 0x00FF) | (val << 8)` and `(w & 0xFF00) | val`.
abbrev pub with_high : ℕ → ℕ → ℕ
with_high w val = w % 2 ^ 8 + val * 2 ^ 8

abbrev pub with_low : ℕ → ℕ → ℕ
with_low w val = w / 2 ^ 8 % 2 ^ 8 * 2 ^ 8 + val

-- Writing a set pending bit clears it; otherwise the levels are programmed.
unfoldable pub write_lir : ℕ → Peripherals → Peripherals
write_lir val p =
    let pending = bit_and val 0x88 in
    if pending == 0x08
    then record p { lir = clear_bit p.lir 3 }
    else if pending == 0x80
    then record p { lir = clear_bit p.lir 7 }
    else record p { lir = bit_or (bit_and p.lir 0x88) (bit_and val 0x77) }

-- The channel status is write-one-to-clear.
unfoldable pub write_dma_status : ℕ → ℕ → Peripherals → Peripherals
write_dma_status i val p =
    let old = get_or p.dma_regs i 0 in
    record p { dma_regs = set p.dma_regs i (old - bit_and old (bit_and val 0xb0)) }

-- Channel 0 completes at once: SO raises COC in the status.
unfoldable pub write_dma0_control : ℕ → Peripherals → Peripherals
write_dma0_control val p =
    let q = record p { dma_regs = set p.dma_regs 0x07 (clear_bit val 7) } in
    if has_bit val 7
    then record q { dma_regs = set q.dma_regs 0x00 (set_bit (get_or q.dma_regs 0x00 0) 7) }
    else q

-- Channel 1 keeps SO until its words are transferred.
unfoldable pub write_dma1_control : ℕ → Peripherals → Peripherals
write_dma1_control val p =
    let q = record p { dma_regs = set p.dma_regs 0x47 val } in
    if has_bit val 7 && dma1_transfer_count q == 0 then complete_dma1 q else q

unfoldable pub write_dma : ℕ → ℕ → Peripherals → Peripherals
unfolding write_dma_status write_dma0_control write_dma1_control
write_dma i val p =
    if i == 0x00 || i == 0x40
    then write_dma_status i val p
    else if i == 0x07
    then write_dma0_control val p
    else if i == 0x47
    then write_dma1_control val p
    else record p { dma_regs = set p.dma_regs i val }

unfoldable pub write_register : Register → ℕ → Peripherals → Peripherals
unfolding write_lir write_dma write_uart_command
write_register lir val p = write_lir val p
write_register (i2c n) val p = record p { i2c_regs = set p.i2c_regs n val }
write_register umr val p = record p { umr = val }
write_register ucsr val p = record p { ucsr = val }
write_register ucr val p = write_uart_command p val
write_register transmit_holding val p = record p {
  tx_fifo = p.tx_fifo ++ val ∷ [];
  usr = clear_bit p.usr usr_txemt;
}
write_register tsr val p = record p { tsr = p.tsr - bit_and p.tsr val }
write_register tcr val p = record p { tcr = val }
write_register reload_high val p = record p { reload = with_high p.reload val }
write_register reload_low val p = record p { reload = with_low p.reload val }
write_register timer0_high val p = record p { timer0 = with_high p.timer0 val }
write_register timer0_low val p = record p { timer0 = with_low p.timer0 val }
write_register timer1_high val p = record p { timer1 = with_high p.timer1 val }
write_register timer1_low val p = record p { timer1 = with_low p.timer1 val }
write_register timer2_high val p = record p { timer2 = with_high p.timer2 val }
write_register timer2_low val p = record p { timer2 = with_low p.timer2 val }
write_register picr1 val p = record p { picr1 = bit_and val 0x77 }
write_register picr2 val p = record p { picr2 = bit_and val 0x77 }
write_register (dma i) val p = write_dma i val p
write_register (mmu i) val p = record p { mmu_regs = set p.mmu_regs i val }
write_register _ val p = p

unfoldable pub write8 : Peripherals → ℕ → ℕ → Peripherals
unfolding decode write_register
write8 p offset val = write_register (decode offset) val p
