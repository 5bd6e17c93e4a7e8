-- ===== src/Cdic/Delivery.antt =====
-- crates/cdi-core/src/cdic.rs: the delivery of a sector, as the CPU sees it.
use edi_emulator.Prelude.{
  ℕ, ◌+◌, ◌*◌, ◌%◌, ◌≡◌, Bool, true, false, ◌&&◌, if◌then◌else◌, List, drop, ◌-◌, has_bit, get_or,
}
use edi_emulator.Cdic.Stored.{IsOutside}
use edi_emulator.Cdic.DataBuffer.{other_bits}
use edi_emulator.Cdic.{Cdic, is_mode2}
use edi_emulator.Cdic.Sector.{fill_slot, route_sector}
use edi_emulator.Cdic.Delivered.{IsImage}

-- What the audio playback leaves alone.
record IsSame (c d : Cdic) : Type 0 where
  ram : d.ram ≡ c.ram
  line : d.int_line ≡ c.int_line
  stop : d.stop_after_next_sector ≡ c.stop_after_next_sector
  register : d.data_buffer ≡ c.data_buffer
  writer : d.realtime_audio_next_write ≡ c.realtime_audio_next_write

-- A sector of real-time audio in a read of Mode 2: the submode byte has the bits of form 2 and of
-- audio, and the mask of audio channels has the bit of its channel, taken modulo 16.
abbrev pub is_audio_sector : Cdic → List ℕ → Bool
is_audio_sector c buffer =
    is_mode2 c.disc_mode
    && (has_bit (get_or buffer 22 0) 5
        && has_bit (get_or buffer 22 0) 2
        && has_bit c.audio_channel (get_or buffer 21 0 % 16))

-- The slot: for audio the one that is due to be written, for data the one that the register does not
-- name.
abbrev pub slot_of : Cdic → List ℕ → ℕ
slot_of c buffer =
    if is_audio_sector c buffer then c.realtime_audio_next_write else 1 - c.data_buffer % 2

-- A delivery leaves the sector's image in its buffer and the rest of the RAM as it was, names the
-- buffer in the data buffer register, raises the interrupt, and ends a read that is to stop.
pub record IsDelivered (c : Cdic) (buffer q : List ℕ) (d : Cdic) : Type 0 where
  pub data_image :
      is_audio_sector c buffer ≡ false
      → IsImage (slot_of c buffer * 0x0a00) (drop 12 buffer) q d.ram
  pub audio_image :
      is_audio_sector c buffer ≡ true
      → IsImage (0x2800 + slot_of c buffer * 0x0a00) (drop 12 buffer) q d.ram
  pub others :
      (b : ℕ)
      → IsOutside (slot_of c buffer * 0x0a00) b
      → IsOutside (0x2800 + slot_of c buffer * 0x0a00) b
      → d.ram b ≡ c.ram b
  pub slot_named : d.data_buffer % 2 ≡ slot_of c buffer
  pub kind_named : has_bit d.data_buffer 2 ≡ is_audio_sector c buffer
  pub data_ready : has_bit d.data_buffer 14 ≡ true
  pub register_kept : other_bits d.data_buffer ≡ other_bits c.data_buffer
  pub next_write : d.realtime_audio_next_write ≡ (
      if is_audio_sector c buffer
      then 1 - c.realtime_audio_next_write
      else c.realtime_audio_next_write)
  pub raised : d.int_line ≡ true
  pub stopped : c.stop_after_next_sector ≡ true → d.disc_command ≡ 0

module _ (mix : List ℕ → ℕ → ℕ → ℕ × ℕ) (c : Cdic) (buffer q : List ℕ) where
  routed : Cdic
  routed = route_sector c (is_audio_sector c buffer) buffer q

  filled : Cdic
  filled =
      if is_audio_sector c buffer then fill_slot mix routed c.realtime_audio_next_write else routed
