-- ===== src/Periph/Valid.antt =====
-- The ranges of the registers and the lengths of the register blocks, kept by every operation.
use edi_emulator.Prelude.{
  ℕ, ◌+◌, ◌^◌, ◌<◌, ◌≡◌, ◌∙◌, arith, Bool, false, List, length, set, length-set, bit_and, bit_or,
  clear_bit, ◌==◌, ◌&&◌, ◌||◌, has_bit, field, if_both,
}
use edi_emulator.Prelude.Bits.{bit_and-le, bit_or-lt}
use edi_emulator.Prelude.Paced.{iterate_inv}
use edi_emulator.Periph.{Peripherals, reset, new, set_int1, set_int2, uart_rx}
use edi_emulator.Periph.Dma.{
  complete_dma1, set_dma0_memory_address, advance_dma1_word, put_be32, put_be16,
}
use edi_emulator.Periph.Irq.{clear_latched, iack}
use edi_emulator.Periph.Uart.{
  write_uart_command, receiver_command, transmitter_command, miscellaneous_command,
}
use edi_emulator.Periph.Clock.{
  timer_step, uart_step, transmit, receive, with_timer_accum, with_tx_accum, tick, tick_timer,
  tick_uart,
}
use edi_emulator.Periph.ClockLaws.{tick_timer-iterate, tick_uart-iterate}
use edi_emulator.Periph.Regs.{
  Register, receive_holding, read8, write8, read_register, write_register, write_lir, write_dma,
  decode, write_dma_status, write_dma0_control, write_dma1_control,
}

pub record IsValid (p : Peripherals) : Type 0 where
  pub lir_lt : p.lir < 256
  pub picr1_lt : p.picr1 < 256
  pub picr2_lt : p.picr2 < 256
  pub tsr_lt : p.tsr < 256
  pub usr_lt : p.usr < 256
  pub reload_lt : p.reload < 65536
  pub timer0_lt : p.timer0 < 65536
  pub timer1_lt : p.timer1 < 65536
  pub timer2_lt : p.timer2 < 65536
  pub timer_accum_lt : p.timer_accum < 96
  pub tx_accum_lt : p.tx_accum < 1200
  pub overflows_lt : p.timer0_overflows < 2 ^ 64
  pub length_i2c : length p.i2c_regs ≡ 5
  pub length_dma : length p.dma_regs ≡ 112
  pub length_mmu : length p.mmu_regs ≡ 128

pub new-IsValid : IsValid new
unfolding new
new-IsValid = ground arith

pub reset-IsValid : (p : Peripherals) → IsValid p → IsValid (reset p)
unfolding reset
reset-IsValid p v = ground arith

pub set_int1-IsValid : (p : Peripherals) (state : Bool) → IsValid p → IsValid (set_int1 p state)
unfolding set_int1
set_int1-IsValid p state v = ground arith

pub set_int2-IsValid : (p : Peripherals) (state : Bool) → IsValid p → IsValid (set_int2 p state)
unfolding set_int2
set_int2-IsValid p state v = ground arith

pub uart_rx-IsValid : (p : Peripherals) (byte : ℕ) → IsValid p → IsValid (uart_rx p byte)
unfolding uart_rx
uart_rx-IsValid p byte v = ground arith

lir-IsValid : (p : Peripherals) (n : ℕ) → n < 256 → IsValid p → IsValid (record p { lir = n })
lir-IsValid p n h v = ground arith

clear_latched-IsValid : (p : Peripherals) (level : ℕ) → IsValid p → IsValid (clear_latched p level)
unfolding clear_latched
clear_latched-IsValid p level v =
    if_both IsValid (has_bit p.lir 7 && level == field p.lir 4 3) _ _
      (lir-IsValid p (clear_bit p.lir 7) (omega (arith, v.lir_lt)) v)
      (if_both IsValid (has_bit p.lir 3 && level == field p.lir 0 3) _ _
        (lir-IsValid p (clear_bit p.lir 3) (omega (arith, v.lir_lt)) v)
        (if_both IsValid (p.timer_int && level == field p.picr1 0 3)
          (record p { timer_int = false }) _ (ground arith)
          (if_both IsValid (p.uart_rx_int && level == field p.picr2 4 3)
            (record p { uart_rx_int = false }) _ (ground arith)
            (if_both IsValid (p.uart_tx_int && level == field p.picr2 0 3)
              (record p { uart_tx_int = false }) _ (ground arith) v))))

pub iack-IsValid : (p : Peripherals) (level : ℕ) → IsValid p → IsValid (iack p level).0
unfolding iack
iack-IsValid p level v = ground (arith, clear_latched-IsValid p level v)

transmit-IsValid : (p : Peripherals) → IsValid p → IsValid (transmit p)
unfolding transmit
transmit-IsValid p v = ground arith

receive-IsValid : (p : Peripherals) → IsValid p → IsValid (receive p)
unfolding receive
receive-IsValid p v = ground arith

uart_step-IsValid : (p : Peripherals) → IsValid p → IsValid (uart_step p)
unfolding uart_step
uart_step-IsValid p v = receive-IsValid _ (transmit-IsValid p v)

timer_step-IsValid : (p : Peripherals) → IsValid p → IsValid (timer_step p)
unfolding timer_step
timer_step-IsValid p v = ground arith

timer_accum-IsValid :
    (n : ℕ) (p : Peripherals) → n < 96 → IsValid p → IsValid (with_timer_accum n p)
timer_accum-IsValid n p h v = ground arith

tx_accum-IsValid : (n : ℕ) (p : Peripherals) → n < 1200 → IsValid p → IsValid (with_tx_accum n p)
tx_accum-IsValid n p h v = ground arith

pub tick_timer-IsValid :
    (p : Peripherals) (c : ℕ) → p.timer_accum + c < 2 ^ 64 → IsValid p → IsValid (tick_timer p c)
tick_timer-IsValid p c h v = rw (tick_timer-iterate p c h) (
    timer_accum-IsValid _ _ (omega arith) (iterate_inv IsValid _ timer_step timer_step-IsValid p v))

tick_uart-IsValid :
    (p : Peripherals) (c : ℕ) → p.tx_accum + c < 2 ^ 64 → IsValid p → IsValid (tick_uart p c)
tick_uart-IsValid p c h v =
    rw (tick_uart-iterate p c h)
      (tx_accum-IsValid _ _ (omega arith) (iterate_inv IsValid _ uart_step uart_step-IsValid p v))

pub tick-IsValid : (p : Peripherals) (c : ℕ) → c < 2 ^ 63 → IsValid p → IsValid (tick p c)
unfolding tick
tick-IsValid p c h v =
    let t = tick_timer-IsValid p c (omega (arith, v.timer_accum_lt)) v in
    tick_uart-IsValid (tick_timer p c) c (omega (arith, t.tx_accum_lt)) t

dma-IsValid :
    (p : Peripherals) (l : List ℕ)
    → length l ≡ 112
    → IsValid p
    → IsValid (record p { dma_regs = l })
dma-IsValid p l h v = ground arith

pub complete_dma1-IsValid : (p : Peripherals) → IsValid p → IsValid (complete_dma1 p)
unfolding complete_dma1
complete_dma1-IsValid p v =
    dma-IsValid p _ (length-set _ 0x40 _ ∙ length-set _ 0x47 _ ∙ v.length_dma) v

length-put_be32 : (l : List ℕ) (i v : ℕ) → length (put_be32 l i v) ≡ length l
unfolding put_be32
length-put_be32 l i v = simp length-set

length-put_be16 : (l : List ℕ) (i v : ℕ) → length (put_be16 l i v) ≡ length l
unfolding put_be16
length-put_be16 l i v = simp length-set

pub advance_dma1_word-IsValid : (p : Peripherals) → IsValid p → IsValid (advance_dma1_word p)
unfolding advance_dma1_word
advance_dma1_word-IsValid p v =
    let v2 =
      dma-IsValid p _ (length-put_be16 _ 0x4a _ ∙ length-put_be32 _ 0x4c _ ∙ v.length_dma) v in
    if_both IsValid _ _ _ (complete_dma1-IsValid _ v2) v2

pub set_dma0_memory_address-IsValid :
    (p : Peripherals) (addr : ℕ) → IsValid p → IsValid (set_dma0_memory_address p addr)
unfolding set_dma0_memory_address
set_dma0_memory_address-IsValid p addr v =
    dma-IsValid p _ (length-put_be32 _ 0x0c _ ∙ v.length_dma) v

receiver-IsValid : (c : ℕ) (p : Peripherals) → IsValid p → IsValid (receiver_command c p)
unfolding receiver_command
receiver-IsValid c p v = ground arith

transmitter-IsValid : (c : ℕ) (p : Peripherals) → IsValid p → IsValid (transmitter_command c p)
unfolding transmitter_command
transmitter-IsValid c p v = ground arith

miscellaneous-IsValid : (c : ℕ) (p : Peripherals) → IsValid p → IsValid (miscellaneous_command c p)
unfolding miscellaneous_command
miscellaneous-IsValid c p v = ground (arith, bit_and-le p.usr 0x0f)

ucr-IsValid : (p : Peripherals) (val : ℕ) → IsValid p → IsValid (record p { ucr = val })
ucr-IsValid p val v = ground arith

write_uart_command-IsValid :
    (p : Peripherals) (val : ℕ) → IsValid p → IsValid (write_uart_command p val)
unfolding write_uart_command
write_uart_command-IsValid p val v = miscellaneous-IsValid (field val 4 3) _ (
    transmitter-IsValid (field val 2 2) _
      (receiver-IsValid (field val 0 2) _ (ucr-IsValid p val v)))

read_register-IsValid : (r : Register) (p : Peripherals) → IsValid p → IsValid (read_register r p).0
unfolding read_register
read_register-IsValid receive_holding p v = ground arith
read_register-IsValid _ p v = v

pub read8-IsValid : (p : Peripherals) (offset : ℕ) → IsValid p → IsValid (read8 p offset).0
unfolding read8
read8-IsValid p offset v = read_register-IsValid (decode offset) p v

write_lir-IsValid : (val : ℕ) (p : Peripherals) → val < 256 → IsValid p → IsValid (write_lir val p)
unfolding write_lir
write_lir-IsValid val p h v =
    if_both IsValid _ _ _ (lir-IsValid p (clear_bit p.lir 3) (omega (arith, v.lir_lt)) v) (
      if_both IsValid _ _ _ (lir-IsValid p (clear_bit p.lir 7) (omega (arith, v.lir_lt)) v) (
        lir-IsValid p (bit_or (bit_and p.lir 0x88) (bit_and val 0x77))
          (bit_or-lt 8 _ _ (omega (arith, bit_and-le p.lir 0x88, v.lir_lt))
            (omega (arith, bit_and-le val 0x77)))
          v))

write_dma_status-IsValid :
    (i val : ℕ) (p : Peripherals) → IsValid p → IsValid (write_dma_status i val p)
unfolding write_dma_status
write_dma_status-IsValid i val p v = dma-IsValid p _ (length-set _ i _ ∙ v.length_dma) v

write_dma0_control-IsValid :
    (val : ℕ) (p : Peripherals) → IsValid p → IsValid (write_dma0_control val p)
unfolding write_dma0_control
write_dma0_control-IsValid val p v =
    let q =
      dma-IsValid p (set p.dma_regs 0x07 (clear_bit val 7)) (length-set _ 0x07 _ ∙ v.length_dma)
        v in
    if_both IsValid _ _ _ (dma-IsValid _ _ (length-set _ 0x00 _ ∙ q.length_dma) q) q

write_dma1_control-IsValid :
    (val : ℕ) (p : Peripherals) → IsValid p → IsValid (write_dma1_control val p)
unfolding write_dma1_control
write_dma1_control-IsValid val p v =
    let q = dma-IsValid p (set p.dma_regs 0x47 val) (length-set _ 0x47 _ ∙ v.length_dma) v in
    if_both IsValid _ _ _ (complete_dma1-IsValid _ q) q

other_dma-IsValid :
    (i val : ℕ) (p : Peripherals)
    → IsValid p
    → IsValid (record p { dma_regs = set p.dma_regs i val })
other_dma-IsValid i val p v = dma-IsValid p _ (length-set _ i _ ∙ v.length_dma) v

-- Every arm of `write_dma`, whichever test selects it.
write_dma-IsValid : (i val : ℕ) (p : Peripherals) → IsValid p → IsValid (write_dma i val p)
unfolding write_dma
write_dma-IsValid i val p v =
    if_both IsValid (i == 0x00 || i == 0x40) _ _ (write_dma_status-IsValid i val p v) (
      if_both IsValid (i == 0x07) _ _ (write_dma0_control-IsValid val p v) (
        if_both IsValid (i == 0x47) _ _ (write_dma1_control-IsValid val p v)
          (other_dma-IsValid i val p v)))

write_register-IsValid :
    (r : Register) (val : ℕ) (p : Peripherals)
    → val < 256
    → IsValid p
    → IsValid (write_register r val p)
unfolding write_register
write_register-IsValid Register.lir val p h v = write_lir-IsValid val p h v
write_register-IsValid (Register.i2c n) val p h v = ground (arith, length-set p.i2c_regs n val)
write_register-IsValid (Register.dma i) val p h v = write_dma-IsValid i val p v
write_register-IsValid (Register.mmu i) val p h v = ground (arith, length-set p.mmu_regs i val)
write_register-IsValid Register.ucr val p h v = write_uart_command-IsValid p val v
write_register-IsValid Register.picr1 val p h v = ground (arith, bit_and-le val 0x77)
write_register-IsValid Register.picr2 val p h v = ground (arith, bit_and-le val 0x77)
write_register-IsValid _ val p h v = ground arith

pub write8-IsValid :
    (p : Peripherals) (offset val : ℕ) → val < 256 → IsValid p → IsValid (write8 p offset val)
unfolding write8
write8-IsValid p offset val h v = write_register-IsValid (decode offset) val p h v
