-- ===== src/Periph/Reachable.antt =====
-- crates/cdi-scc68070/src/periph.rs: the calls of the peripherals' clients, in any sequence.
use edi_emulator.Prelude.{ℕ, ◌^◌, ◌<◌, Bool, List, [], ◌∷◌}
use edi_emulator.Periph.{Peripherals, reset, new, set_int1, set_int2, uart_rx}
use edi_emulator.Periph.Dma.{complete_dma1, advance_dma1_word, set_dma0_memory_address}
use edi_emulator.Periph.Irq.{iack}
use edi_emulator.Periph.Clock.{tick}
use edi_emulator.Periph.Regs.{read8, write8}
use edi_emulator.Periph.Bytes.{
  HoldsBytes, new-HoldsBytes, reset-HoldsBytes, set_int1-HoldsBytes, set_int2-HoldsBytes,
  uart_rx-HoldsBytes, iack-HoldsBytes, tick-HoldsBytes,
}
use edi_emulator.Periph.Written.{
  read8-HoldsBytes, write8-HoldsBytes, advance_dma1_word-HoldsBytes, complete_dma1-HoldsBytes,
  set_dma0_memory_address-HoldsBytes,
}
use edi_emulator.Periph.Valid.{
  IsValid, reset-IsValid, new-IsValid, set_int1-IsValid, set_int2-IsValid, uart_rx-IsValid,
  tick-IsValid, iack-IsValid, read8-IsValid, write8-IsValid, advance_dma1_word-IsValid,
  complete_dma1-IsValid, set_dma0_memory_address-IsValid,
}

-- The calls that the machine and the CPU make; a byte is below 256 by its type, and a span of
-- cycles is far below the range of the 64-bit counters.
pub data Operation : Type 0 where
  reset_all : Operation
  pin_int1 pin_int2 : Bool → Operation
  serial_byte : (b : ℕ) → b < 256 → Operation
  acknowledge read_byte : ℕ → Operation
  tick_cycles : (c : ℕ) → c < 2 ^ 63 → Operation
  write_byte : (o b : ℕ) → b < 256 → Operation
  dma1_word dma1_done : Operation
  dma0_address : ℕ → Operation

unfoldable pub perform : Operation → Peripherals → Peripherals
perform reset_all p = reset p
perform (pin_int1 b) p = set_int1 p b
perform (pin_int2 b) p = set_int2 p b
perform (serial_byte b h) p = uart_rx p b
perform (tick_cycles c h) p = tick p c
perform (acknowledge level) p = (iack p level).0
perform (read_byte o) p = (read8 p o).0
perform (write_byte o b h) p = write8 p o b
perform dma1_word p = advance_dma1_word p
perform dma1_done p = complete_dma1 p
perform (dma0_address a) p = set_dma0_memory_address p a

abbrev pub perform_all : List Operation → Peripherals → Peripherals
perform_all [] p = p
perform_all (o ∷ os) p = perform_all os (perform o p)

pub perform-IsValid : (o : Operation) (p : Peripherals) → IsValid p → IsValid (perform o p)
unfolding perform
perform-IsValid reset_all p v = reset-IsValid p v
perform-IsValid (pin_int1 b) p v = set_int1-IsValid p b v
perform-IsValid (pin_int2 b) p v = set_int2-IsValid p b v
perform-IsValid (serial_byte b h) p v = uart_rx-IsValid p b v
perform-IsValid (tick_cycles c h) p v = tick-IsValid p c h v
perform-IsValid (acknowledge level) p v = iack-IsValid p level v
perform-IsValid (read_byte o) p v = read8-IsValid p o v
perform-IsValid (write_byte o b h) p v = write8-IsValid p o b h v
perform-IsValid dma1_word p v = advance_dma1_word-IsValid p v
perform-IsValid dma1_done p v = complete_dma1-IsValid p v
perform-IsValid (dma0_address a) p v = set_dma0_memory_address-IsValid p a v

perform_all-IsValid :
    (os : List Operation) (p : Peripherals) → IsValid p → IsValid (perform_all os p)
perform_all-IsValid [] p v = v
perform_all-IsValid (o ∷ os) p v = perform_all-IsValid os (perform o p) (perform-IsValid o p v)

perform-HoldsBytes :
    (o : Operation) (p : Peripherals) → IsValid p → HoldsBytes p → HoldsBytes (perform o p)
unfolding perform
perform-HoldsBytes reset_all p v b = reset-HoldsBytes p b
perform-HoldsBytes (pin_int1 s) p v b = set_int1-HoldsBytes p s b
perform-HoldsBytes (pin_int2 s) p v b = set_int2-HoldsBytes p s b
perform-HoldsBytes (serial_byte x h) p v b = uart_rx-HoldsBytes p x h b
perform-HoldsBytes (tick_cycles c h) p v b = tick-HoldsBytes p c h v b
perform-HoldsBytes (acknowledge level) p v b = iack-HoldsBytes p level b
perform-HoldsBytes (read_byte o) p v b = read8-HoldsBytes p o b
perform-HoldsBytes (write_byte o x h) p v b = write8-HoldsBytes p o x h b
perform-HoldsBytes dma1_word p v b = advance_dma1_word-HoldsBytes p b
perform-HoldsBytes dma1_done p v b = complete_dma1-HoldsBytes p b
perform-HoldsBytes (dma0_address a) p v b = set_dma0_memory_address-HoldsBytes p a b

perform_all-HoldsBytes :
    (os : List Operation) (p : Peripherals)
    → IsValid p
    → HoldsBytes p
    → HoldsBytes (perform_all os p)
perform_all-HoldsBytes [] p v b = b
perform_all-HoldsBytes (o ∷ os) p v b =
    perform_all-HoldsBytes os (perform o p) (perform-IsValid o p v) (perform-HoldsBytes o p v b)

-- After any sequence of calls on new peripherals, with bytes below 256 and ticks shorter than
-- `2 ^ 63` cycles: the 8-bit registers and all bytes of the register blocks and of the serial queues
-- are below 256, the four 16-bit timer registers below 65536, the two remainders of cycles below 96 and
-- 1200, the count of overflows below `2 ^ 64`, and the blocks have 5, 112 and 128 bytes.
pub reachable-IsValid :
    (os : List Operation) → IsValid (perform_all os new) × HoldsBytes (perform_all os new)
reachable-IsValid os = (
  perform_all-IsValid os new new-IsValid,
  perform_all-HoldsBytes os new new-IsValid new-HoldsBytes,
)
