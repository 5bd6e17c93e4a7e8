-- ===== src/Periph/Written.antt =====
-- What reads, writes and transfers leave in the blocks and queues is bytes.
use edi_emulator.Prelude.{
  ℕ, ◌+◌, ◌<◌, arith, true, false, List, [], set, get_or, tail, bit_and, bit_or, clear_bit, set_bit,
  has_bit, field, ◌==◌, ◌||◌, if◌then◌else◌, if_both,
}
use edi_emulator.Prelude.Bytes.{AllBytes, get_or-byte, set-AllBytes, append-AllBytes, tail-AllBytes}
use edi_emulator.Periph.{Peripherals}
use edi_emulator.Periph.Dma.{
  complete_dma1, set_dma0_memory_address, advance_dma1_word, put_be32, put_be16,
}
use edi_emulator.Periph.Uart.{
  write_uart_command, receiver_command, transmitter_command, miscellaneous_command,
}
use edi_emulator.Periph.Bytes.{HoldsBytes}
use edi_emulator.Periph.Regs.{
  Register, receive_holding, read8, write8, read_register, write_register, write_lir, write_dma,
  decode, write_dma_status, write_dma0_control, write_dma1_control,
}

-- A block with another content.
dma-HoldsBytes :
    (p : Peripherals) (l : List ℕ)
    → AllBytes l
    → HoldsBytes p
    → HoldsBytes (record p { dma_regs = l })
dma-HoldsBytes p l h v = (h, v.1, v.2, v.3, v.4, v.5, v.6)

set_bit-byte : (x : ℕ) → x < 256 → set_bit x 7 < 256
set_bit-byte x h = ground arith

pub complete_dma1-HoldsBytes : (p : Peripherals) → HoldsBytes p → HoldsBytes (complete_dma1 p)
unfolding complete_dma1
complete_dma1-HoldsBytes p v =
    let was = get_or-byte p.dma_regs 0x47 v.0 in
    let control = set p.dma_regs 0x47 (clear_bit (get_or p.dma_regs 0x47 0) 7) in
    let held =
      set-AllBytes p.dma_regs 0x47 (clear_bit (get_or p.dma_regs 0x47 0) 7) (omega arith) v.0 in
    dma-HoldsBytes p _
      (set-AllBytes control 0x40 (set_bit (get_or control 0x40 0) 7)
        (set_bit-byte (get_or control 0x40 0) (get_or-byte control 0x40 held)) held)
      v

put_be32-AllBytes : (l : List ℕ) (i v : ℕ) → AllBytes l → AllBytes (put_be32 l i v)
unfolding put_be32
put_be32-AllBytes l i v h = set-AllBytes _ (i + 3) (field v 0 8) (omega arith) (
    set-AllBytes _ (i + 2) (field v 8 8) (omega arith) (
      set-AllBytes _ (i + 1) (field v 16 8) (omega arith)
        (set-AllBytes l i (field v 24 8) (omega arith) h)))

put_be16-AllBytes : (l : List ℕ) (i v : ℕ) → AllBytes l → AllBytes (put_be16 l i v)
unfolding put_be16
put_be16-AllBytes l i v h =
    set-AllBytes _ (i + 1) (field v 0 8) (omega arith)
      (set-AllBytes l i (field v 8 8) (omega arith) h)

pub advance_dma1_word-HoldsBytes :
    (p : Peripherals) → HoldsBytes p → HoldsBytes (advance_dma1_word p)
unfolding advance_dma1_word
advance_dma1_word-HoldsBytes p v =
    let moved =
      dma-HoldsBytes p _ (put_be16-AllBytes _ 0x4a _ (put_be32-AllBytes _ 0x4c _ v.0)) v in
    if_both HoldsBytes _ _ _ (complete_dma1-HoldsBytes _ moved) moved

pub set_dma0_memory_address-HoldsBytes :
    (p : Peripherals) (addr : ℕ) → HoldsBytes p → HoldsBytes (set_dma0_memory_address p addr)
unfolding set_dma0_memory_address
set_dma0_memory_address-HoldsBytes p addr v =
    dma-HoldsBytes p _ (put_be32-AllBytes p.dma_regs 0x0c addr v.0) v

receiver-HoldsBytes : (c : ℕ) (p : Peripherals) → HoldsBytes p → HoldsBytes (receiver_command c p)
unfolding receiver_command
receiver-HoldsBytes c p v =
    let off = record p { uart_rx_enabled = false; usr = clear_bit p.usr 0; uart_rx_int = false } in
    if_both HoldsBytes (c == 1) (record p { uart_rx_enabled = true }) (if c == 2 then off else p) v
      (if_both HoldsBytes (c == 2) off p v v)

transmitter-HoldsBytes :
    (c : ℕ) (p : Peripherals) → HoldsBytes p → HoldsBytes (transmitter_command c p)
unfolding transmitter_command
transmitter-HoldsBytes c p v =
    let off = record p { uart_tx_enabled = false; uart_tx_int = false } in
    if_both HoldsBytes (c == 1) (record p { uart_tx_enabled = true }) (if c == 2 then off else p) v
      (if_both HoldsBytes (c == 2) off p v v)

miscellaneous-HoldsBytes :
    (c : ℕ) (p : Peripherals) → HoldsBytes p → HoldsBytes (miscellaneous_command c p)
unfolding miscellaneous_command
miscellaneous-HoldsBytes c p v =
    let received = record p {
      uart_rx_enabled = false;
      usr = clear_bit p.usr 0;
      uart_rx_int = false;
      rx_queue = [];
    } in
    let sent = record p {
      uart_tx_enabled = false;
      tx_fifo = [];
      usr = set_bit (set_bit p.usr 2) 3;
      uart_tx_int = false;
    } in
    let cleared = record p { usr = bit_and p.usr 0x0f } in
    if_both HoldsBytes (c == 2) received (if c == 3 then sent else if c == 4 then cleared else p)
      (v.0, v.1, v.2, tt, v.4, v.5, v.6)
      (if_both HoldsBytes (c == 3) sent (if c == 4 then cleared else p)
        (v.0, v.1, v.2, v.3, tt, v.5, v.6) (if_both HoldsBytes (c == 4) cleared p v v))

write_uart_command-HoldsBytes :
    (p : Peripherals) (val : ℕ) → val < 256 → HoldsBytes p → HoldsBytes (write_uart_command p val)
unfolding write_uart_command
write_uart_command-HoldsBytes p val lt v =
    let r = v.6 in
    let commanded : HoldsBytes (record p { ucr = val }) = (
      v.0,
      v.1,
      v.2,
      v.3,
      v.4,
      v.5,
      record {
        tcr_lt = r.tcr_lt;
        umr_lt = r.umr_lt;
        ucsr_lt = r.ucsr_lt;
        ucr_lt = lt;
        rx_holding_lt = r.rx_holding_lt;
      },
    ) in
    miscellaneous-HoldsBytes (field val 4 3) _
      (transmitter-HoldsBytes (field val 2 2) _ (receiver-HoldsBytes (field val 0 2) _ commanded))

read_register-HoldsBytes :
    (r : Register) (p : Peripherals) → HoldsBytes p → HoldsBytes (read_register r p).0
unfolding read_register
read_register-HoldsBytes receive_holding p v =
    if_both HoldsBytes (has_bit p.usr 0)
      (record p { usr = clear_bit p.usr 0; rx_queue = tail p.rx_queue }) p
      (v.0, v.1, v.2, tail-AllBytes p.rx_queue v.3, v.4, v.5, v.6) v
read_register-HoldsBytes _ p v = v

pub read8-HoldsBytes : (p : Peripherals) (offset : ℕ) → HoldsBytes p → HoldsBytes (read8 p offset).0
unfolding read8
read8-HoldsBytes p offset v = read_register-HoldsBytes (decode offset) p v

write_lir-HoldsBytes : (val : ℕ) (p : Peripherals) → HoldsBytes p → HoldsBytes (write_lir val p)
unfolding write_lir
write_lir-HoldsBytes val p v =
    let pending = bit_and val 0x88 in
    let int2 = record p { lir = clear_bit p.lir 3 } in
    let int1 = record p { lir = clear_bit p.lir 7 } in
    let levels = record p { lir = bit_or (bit_and p.lir 0x88) (bit_and val 0x77) } in
    if_both HoldsBytes (pending == 0x08) int2 (if pending == 0x80 then int1 else levels) v
      (if_both HoldsBytes (pending == 0x80) int1 levels v v)

write_dma_status-HoldsBytes :
    (i val : ℕ) (p : Peripherals) → HoldsBytes p → HoldsBytes (write_dma_status i val p)
unfolding write_dma_status
write_dma_status-HoldsBytes i val p v =
    let old = get_or-byte p.dma_regs i v.0 in
    dma-HoldsBytes p _ (set-AllBytes p.dma_regs i _ (omega arith) v.0) v

write_dma0_control-HoldsBytes :
    (val : ℕ) (p : Peripherals) → val < 256 → HoldsBytes p → HoldsBytes (write_dma0_control val p)
unfolding write_dma0_control
write_dma0_control-HoldsBytes val p lt v =
    let l = set p.dma_regs 0x07 (clear_bit val 7) in
    let held = set-AllBytes p.dma_regs 0x07 (clear_bit val 7) (omega arith) v.0 in
    let q = dma-HoldsBytes p l held v in
    if_both HoldsBytes _ _ _
      (dma-HoldsBytes p _
        (set-AllBytes l 0x00 (set_bit (get_or l 0x00 0) 7)
          (set_bit-byte (get_or l 0x00 0) (get_or-byte l 0x00 held)) held)
        v)
      q

write_dma1_control-HoldsBytes :
    (val : ℕ) (p : Peripherals) → val < 256 → HoldsBytes p → HoldsBytes (write_dma1_control val p)
unfolding write_dma1_control
write_dma1_control-HoldsBytes val p lt v =
    let q = dma-HoldsBytes p _ (set-AllBytes p.dma_regs 0x47 val lt v.0) v in
    if_both HoldsBytes _ _ _ (complete_dma1-HoldsBytes _ q) q

write_dma-HoldsBytes :
    (i val : ℕ) (p : Peripherals) → val < 256 → HoldsBytes p → HoldsBytes (write_dma i val p)
unfolding write_dma
write_dma-HoldsBytes i val p lt v =
    if_both HoldsBytes (i == 0x00 || i == 0x40) _ _ (write_dma_status-HoldsBytes i val p v) (
      if_both HoldsBytes (i == 0x07) _ _ (write_dma0_control-HoldsBytes val p lt v) (
        if_both HoldsBytes (i == 0x47) _ _ (write_dma1_control-HoldsBytes val p lt v)
          (dma-HoldsBytes p _ (set-AllBytes p.dma_regs i val lt v.0) v)))

-- A register of one byte, written.
registers-HoldsBytes :
    (p : Peripherals) (tcr umr ucsr : ℕ)
    → tcr < 256
    → umr < 256
    → ucsr < 256
    → HoldsBytes p
    → HoldsBytes (record p { tcr = tcr; umr = umr; ucsr = ucsr })
registers-HoldsBytes p tcr umr ucsr t m c v =
    let r = v.6 in
    (
      v.0,
      v.1,
      v.2,
      v.3,
      v.4,
      v.5,
      record {
        tcr_lt = t;
        umr_lt = m;
        ucsr_lt = c;
        ucr_lt = r.ucr_lt;
        rx_holding_lt = r.rx_holding_lt;
      },
    )

write_register-HoldsBytes :
    (r : Register) (val : ℕ) (p : Peripherals)
    → val < 256
    → HoldsBytes p
    → HoldsBytes (write_register r val p)
unfolding write_register
write_register-HoldsBytes Register.lir val p h v = write_lir-HoldsBytes val p v
write_register-HoldsBytes (Register.i2c n) val p h v =
    (v.0, set-AllBytes p.i2c_regs n val h v.1, v.2, v.3, v.4, v.5, v.6)
write_register-HoldsBytes (Register.dma i) val p h v = write_dma-HoldsBytes i val p h v
write_register-HoldsBytes (Register.mmu i) val p h v =
    (v.0, v.1, set-AllBytes p.mmu_regs i val h v.2, v.3, v.4, v.5, v.6)
write_register-HoldsBytes Register.ucr val p h v = write_uart_command-HoldsBytes p val h v
write_register-HoldsBytes Register.transmit_holding val p h v =
    (v.0, v.1, v.2, v.3, append-AllBytes p.tx_fifo val v.4 h, v.5, v.6)
write_register-HoldsBytes Register.umr val p h v =
    let r = v.6 in registers-HoldsBytes p p.tcr val p.ucsr r.tcr_lt h r.ucsr_lt v
write_register-HoldsBytes Register.ucsr val p h v =
    let r = v.6 in registers-HoldsBytes p p.tcr p.umr val r.tcr_lt r.umr_lt h v
write_register-HoldsBytes Register.tcr val p h v =
    let r = v.6 in registers-HoldsBytes p val p.umr p.ucsr h r.umr_lt r.ucsr_lt v
write_register-HoldsBytes _ val p h v = v

pub write8-HoldsBytes :
    (p : Peripherals) (offset val : ℕ) → val < 256 → HoldsBytes p → HoldsBytes (write8 p offset val)
unfolding write8
write8-HoldsBytes p offset val h v = write_register-HoldsBytes (decode offset) val p h v
