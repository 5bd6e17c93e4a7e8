-- ===== src/Periph/Dma.antt =====
-- The DMA channels' registers, big-endian bytes of the block at $80004000; channel 1 is paced by
-- the cartridge, one 16-bit word at a time.
use edi_emulator.Prelude.{
  ℕ, ◌+◌, ◌-◌, ◌*◌, ◌^◌, Bool, not, ◌&&◌, ◌==◌, if◌then◌else◌, List, get_or, set, u32, has_bit,
  clear_bit, set_bit, field,
}
use edi_emulator.Periph.{Peripherals}

-- `u32::from_be_bytes` and `u16::from_be_bytes` of the bytes at `i`, and their inverses.
unfoldable pub be32 : List ℕ → ℕ → ℕ
be32 l i =
    get_or l i 0 * 2 ^ 24
    + get_or l (i + 1) 0 * 2 ^ 16
    + get_or l (i + 2) 0 * 2 ^ 8
    + get_or l (i + 3) 0

unfoldable pub be16 : List ℕ → ℕ → ℕ
be16 l i = get_or l i 0 * 2 ^ 8 + get_or l (i + 1) 0

unfoldable pub put_be32 : List ℕ → ℕ → ℕ → List ℕ
put_be32 l i v =
    set (set (set (set l i (field v 24 8)) (i + 1) (field v 16 8)) (i + 2) (field v 8 8)) (i + 3)
      (field v 0 8)

unfoldable pub put_be16 : List ℕ → ℕ → ℕ → List ℕ
put_be16 l i v = set (set l i (field v 8 8)) (i + 1) (field v 0 8)

unfoldable pub dma0_memory_address : Peripherals → ℕ
dma0_memory_address p = be32 p.dma_regs 0x0c

unfoldable pub set_dma0_memory_address : Peripherals → ℕ → Peripherals
set_dma0_memory_address p addr = record p { dma_regs = put_be32 p.dma_regs 0x0c addr }

unfoldable pub dma0_transfer_count : Peripherals → ℕ
dma0_transfer_count p = be16 p.dma_regs 0x0a

unfoldable pub dma0_active : Peripherals → Bool
dma0_active p = has_bit (get_or p.dma_regs 0 0) 3

unfoldable pub dma1_memory_address : Peripherals → ℕ
dma1_memory_address p = be32 p.dma_regs 0x4c

unfoldable pub dma1_transfer_count : Peripherals → ℕ
dma1_transfer_count p = be16 p.dma_regs 0x4a

unfoldable pub dma1_cycle_steal : Peripherals → Bool
dma1_cycle_steal p = has_bit (get_or p.dma_regs 0x44 0) 7

unfoldable pub dma1_active : Peripherals → Bool
unfolding dma1_transfer_count
dma1_active p = has_bit (get_or p.dma_regs 0x47 0) 7 && not (dma1_transfer_count p == 0)

-- Clears SO in the channel control and raises COC in the channel status.
unfoldable pub complete_dma1 : Peripherals → Peripherals
complete_dma1 p =
    let control = set p.dma_regs 0x47 (clear_bit (get_or p.dma_regs 0x47 0) 7) in
    record p { dma_regs = set control 0x40 (set_bit (get_or control 0x40 0) 7) }

unfoldable pub advance_dma1_word : Peripherals → Peripherals
advance_dma1_word p =
    let address = u32 (dma1_memory_address p + 2) in
    let p1 = record p { dma_regs = put_be32 p.dma_regs 0x4c address } in
    let remaining = dma1_transfer_count p1 - 1 in
    let p2 = record p1 { dma_regs = put_be16 p1.dma_regs 0x4a remaining } in
    if remaining == 0 then complete_dma1 p2 else p2

unfoldable pub dma_interrupt_level : Peripherals → ℕ → ℕ
dma_interrupt_level p base =
    let status = get_or p.dma_regs base 0 in
    let control = get_or p.dma_regs (base + 7) 0 in
    if has_bit status 7 && has_bit control 3 then field control 0 3 else 0
