-- ===== src/Periph/Bytes.antt =====
-- The byte-wide registers, the register blocks and the serial queues hold bytes, kept by every
-- operation.
use edi_emulator.Prelude.{
  ℕ, ◌^◌, ◌<◌, arith, Bool, true, List, [], ◌∷◌, set_bit, ◌==◌, ◌&&◌, has_bit, field, if_both,
}
use edi_emulator.Prelude.Paced.{iterate_inv}
use edi_emulator.Prelude.Bytes.{AllBytes, append-AllBytes, zeros-AllBytes}
use edi_emulator.Periph.{Peripherals, reset, new, set_int1, set_int2, uart_rx}
use edi_emulator.Periph.Irq.{clear_latched, iack, external_pin, dma_requests}
use edi_emulator.Periph.Clock.{
  timer_step, uart_step, transmit, receive, send_first, present_first, is_empty, tick, tick_timer,
}
use edi_emulator.Periph.ClockLaws.{tick_timer-iterate, tick_uart-iterate}
use edi_emulator.Periph.Valid.{IsValid, tick_timer-IsValid}

-- The registers of one byte.
pub record AreBytes (tcr umr ucsr ucr rx_holding : ℕ) : Type 0 where
  pub tcr_lt : tcr < 256
  pub umr_lt : umr < 256
  pub ucsr_lt : ucsr < 256
  pub ucr_lt : ucr < 256
  pub rx_holding_lt : rx_holding < 256

-- The register blocks, the serial queues and the registers of one byte.
abbrev pub HoldsBytes : Peripherals → Type 0
HoldsBytes p =
    AllBytes p.dma_regs
    × AllBytes p.i2c_regs
    × AllBytes p.mmu_regs
    × AllBytes p.rx_queue
    × AllBytes p.tx_fifo
    × AllBytes p.tx_out
    × AreBytes p.tcr p.umr p.ucsr p.ucr p.rx_holding

pub new-HoldsBytes : HoldsBytes new
unfolding new
new-HoldsBytes = (
  zeros-AllBytes 112,
  zeros-AllBytes 5,
  zeros-AllBytes 128,
  tt,
  tt,
  tt,
  record {
    tcr_lt = omega arith;
    umr_lt = omega arith;
    ucsr_lt = omega arith;
    ucr_lt = omega arith;
    rx_holding_lt = omega arith;
  },
)

pub reset-HoldsBytes : (p : Peripherals) → HoldsBytes p → HoldsBytes (reset p)
unfolding reset
reset-HoldsBytes p v =
    let b = v.6 in
    (
      zeros-AllBytes 112,
      v.1,
      v.2,
      tt,
      tt,
      v.5,
      record {
        tcr_lt = omega arith;
        umr_lt = b.umr_lt;
        ucsr_lt = b.ucsr_lt;
        ucr_lt = omega arith;
        rx_holding_lt = b.rx_holding_lt;
      },
    )

pub set_int1-HoldsBytes :
    (p : Peripherals) (state : Bool) → HoldsBytes p → HoldsBytes (set_int1 p state)
unfolding set_int1
set_int1-HoldsBytes p state v = v

pub set_int2-HoldsBytes :
    (p : Peripherals) (state : Bool) → HoldsBytes p → HoldsBytes (set_int2 p state)
unfolding set_int2
set_int2-HoldsBytes p state v = v

pub uart_rx-HoldsBytes :
    (p : Peripherals) (byte : ℕ) → byte < 256 → HoldsBytes p → HoldsBytes (uart_rx p byte)
unfolding uart_rx
uart_rx-HoldsBytes p byte lt v =
    (v.0, v.1, v.2, append-AllBytes p.rx_queue byte v.3 lt, v.4, v.5, v.6)

clear_latched-HoldsBytes :
    (p : Peripherals) (level : ℕ) → HoldsBytes p → HoldsBytes (clear_latched p level)
unfolding clear_latched
clear_latched-HoldsBytes p level v =
    if_both HoldsBytes (has_bit p.lir 7 && level == field p.lir 4 3) _ _ v (
      if_both HoldsBytes (has_bit p.lir 3 && level == field p.lir 0 3) _ _ v (
        if_both HoldsBytes (p.timer_int && level == field p.picr1 0 3) _ _ v (
          if_both HoldsBytes (p.uart_rx_int && level == field p.picr2 4 3) _ _ v
            (if_both HoldsBytes (p.uart_tx_int && level == field p.picr2 0 3) _ _ v v))))

pub iack-HoldsBytes : (p : Peripherals) (level : ℕ) → HoldsBytes p → HoldsBytes (iack p level).0
unfolding iack
iack-HoldsBytes p level v =
    let P : Peripherals × ℕ → Type 0 = λ (r : Peripherals × ℕ). HoldsBytes r.0 in
    if_both P (external_pin p level) _ _ v
      (if_both P (dma_requests p level) _ _ v (clear_latched-HoldsBytes p level v))

send_first-HoldsBytes :
    (l : List ℕ) (p : Peripherals) → AllBytes l → HoldsBytes p → HoldsBytes (send_first l p)
unfolding send_first
send_first-HoldsBytes [] p h v = v
send_first-HoldsBytes (b ∷ bs) p h v =
    (v.0, v.1, v.2, v.3, h.1, append-AllBytes p.tx_out b v.5 h.0, v.6)

transmit-HoldsBytes : (p : Peripherals) → HoldsBytes p → HoldsBytes (transmit p)
unfolding transmit
transmit-HoldsBytes p v =
    let q = send_first p.tx_fifo (record p { usr = set_bit p.usr 2; uart_tx_int = true }) in
    let sent =
      send_first-HoldsBytes p.tx_fifo (record p { usr = set_bit p.usr 2; uart_tx_int = true }) v.4
        v in
    if_both HoldsBytes p.uart_tx_enabled _ p (if_both HoldsBytes (is_empty q.tx_fifo) _ q sent sent)
      v

present_first-HoldsBytes :
    (l : List ℕ) (p : Peripherals) → AllBytes l → HoldsBytes p → HoldsBytes (present_first l p)
unfolding present_first
present_first-HoldsBytes [] p h v = v
present_first-HoldsBytes (b ∷ bs) p h v =
    let r = v.6 in
    (
      v.0,
      v.1,
      v.2,
      v.3,
      v.4,
      v.5,
      record {
        tcr_lt = r.tcr_lt;
        umr_lt = r.umr_lt;
        ucsr_lt = r.ucsr_lt;
        ucr_lt = r.ucr_lt;
        rx_holding_lt = h.0;
      },
    )

receive-HoldsBytes : (p : Peripherals) → HoldsBytes p → HoldsBytes (receive p)
unfolding receive
receive-HoldsBytes p v =
    if_both HoldsBytes p.uart_rx_enabled _ p (present_first-HoldsBytes p.rx_queue p v.3 v) v

uart_step-HoldsBytes : (p : Peripherals) → HoldsBytes p → HoldsBytes (uart_step p)
unfolding uart_step
uart_step-HoldsBytes p v = receive-HoldsBytes _ (transmit-HoldsBytes p v)

timer_step-HoldsBytes : (p : Peripherals) → HoldsBytes p → HoldsBytes (timer_step p)
unfolding timer_step
timer_step-HoldsBytes p v = if_both HoldsBytes _ _ _ v v

pub tick-HoldsBytes :
    (p : Peripherals) (c : ℕ) → c < 2 ^ 63 → IsValid p → HoldsBytes p → HoldsBytes (tick p c)
unfolding tick
tick-HoldsBytes p c h v b =
    let valid = tick_timer-IsValid p c (omega (arith, v.timer_accum_lt)) v in
    let timed : HoldsBytes (tick_timer p c) =
      rw (tick_timer-iterate p c (omega (arith, v.timer_accum_lt)))
        (iterate_inv HoldsBytes _ timer_step timer_step-HoldsBytes p b) in
    rw (tick_uart-iterate (tick_timer p c) c (omega (arith, valid.tx_accum_lt)))
      (iterate_inv HoldsBytes _ uart_step uart_step-HoldsBytes (tick_timer p c) timed)
