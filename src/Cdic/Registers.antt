-- ===== src/Cdic/Registers.antt =====
-- crates/cdi-core/src/cdic.rs: the register and mailbox accesses of the CPU.
use edi_emulator.Prelude.{
  ℕ, ◌+◌, ◌-◌, ◌*◌, ◌/◌, ◌%◌, ◌^◌, bit_and, Bool, true, false, not, ◌&&◌, leb, ◌==◌, if◌then◌else◌,
  List, Option, none, some, replicate, u8, has_bit, clear_bit,
}
use edi_emulator.Cdic.{
  Cdic, is_cdda, ram_read8, ram_write8, ram_read16, ram_write16, set_mailbox, mailbox_register,
  load_mailbox_word_from_ram, load_mailbox_fields_from_ram, update_interrupt_state,
}
use edi_emulator.Cdic.Transport.{cancel_disc_read, handle_command}
use edi_emulator.Cdic.Audio.{stop_realtime_audio, start_realtime_audio}

abbrev pub dsp_mailbox_start : ℕ
dsp_mailbox_start = 0x3c00

abbrev pub dsp_mailbox_end : ℕ
dsp_mailbox_end = 0x3c0d

abbrev pub shared_ram_end : ℕ
shared_ram_end = 0x3c7f

abbrev pub is_shared : ℕ → Bool
is_shared offset = leb dsp_mailbox_start offset && leb offset shared_ram_end

abbrev pub is_mailbox : ℕ → Bool
is_mailbox offset = offset % 2 == 0 && leb dsp_mailbox_start offset && leb offset dsp_mailbox_end

unfoldable pub read16 : Cdic → ℕ → Cdic × ℕ
unfolding mailbox_register update_interrupt_state ram_read16
read16 c offset =
    if is_mailbox offset
    then (c, mailbox_register c offset)
    else if offset == 0x3ff4
    then (
      update_interrupt_state (record c { audio_buffer = clear_bit c.audio_buffer 15 }),
      c.audio_buffer,
    )
    else if offset == 0x3ff6
    then (update_interrupt_state (record c { x_buffer = clear_bit c.x_buffer 15 }), c.x_buffer)
    else if offset == 0x3ffa
    then (record c { z_buffer = clear_bit c.z_buffer 0 }, c.z_buffer)
    else if offset == 0x3ffe
    then (c, c.data_buffer)
    else if is_shared offset
    then (c, ram_read16 c offset)
    else (c, 0)

unfoldable pub read8 : Cdic → ℕ → Cdic × ℕ
unfolding ram_read8 read16
read8 c offset =
    let r = read16 c offset in
    if is_shared offset
    then (c, ram_read8 c offset)
    else if offset % 2 == 0
    then (record r.0 { read_latch = u8 r.1 }, r.1 / 2 ^ 8)
    else (c, c.read_latch)

-- A write to AUDCTL that clears bit 11.
unfoldable pub stop_audio : Cdic → Cdic
unfolding stop_realtime_audio
stop_audio c =
    let stopped = stop_realtime_audio c in
    if c.decoding_audio_map
    then record stopped { audio_map_stop_requested = true }
    else record stopped { decode_addr = 0xffff }

-- A write to AUDCTL that starts a sound map.
unfoldable pub start_map : Cdic → Cdic
unfolding cancel_disc_read
start_map c =
    let free = if is_cdda c.disc_mode then cancel_disc_read c else c in
    record free {
      decode_addr = bit_and free.z_buffer 0x3a00;
      audio_format_sectors = 0;
      audio_sector_counter = 1;
      decoding_audio_map = true;
      audio_map_stop_requested = false;
      xa_last = replicate 4 0;
    }

-- A write to DBUF: a command, or the gate of the sector delivery.
unfoldable pub write_dbuf : Cdic → ℕ → Cdic
unfolding load_mailbox_fields_from_ram handle_command
write_dbuf c data16 =
    let written = record c { data_buffer = data16 } in
    if has_bit data16 15
    then handle_command (load_mailbox_fields_from_ram written)
    else record written { disc_read_enabled = has_bit data16 14 && not (c.disc_command == 0) }

module _ (mix : List ℕ → ℕ → ℕ → ℕ × ℕ) where
  unfoldable pub write_audctl : Cdic → ℕ → Cdic
  unfolding stop_audio start_map start_realtime_audio update_interrupt_state
  write_audctl c data16 =
      let written = record c { z_buffer = clear_bit data16 0 + c.z_buffer % 2 } in
      update_interrupt_state (
        if not (has_bit data16 11)
        then stop_audio written
        else if c.decoding_audio_map
        then written
        else if has_bit data16 13
        then start_map written
        else start_realtime_audio mix written)

  unfoldable pub write16 : Cdic → ℕ → ℕ → Cdic
  unfolding ram_write16 set_mailbox write_audctl write_dbuf
  write16 c offset data16 =
      let stored = if is_shared offset then ram_write16 c offset data16 else c in
      if offset == 0x3ff4
      then record stored { audio_buffer = data16 }
      else if offset == 0x3ff6
      then record stored { x_buffer = data16 }
      else if offset == 0x3ffa
      then write_audctl stored data16
      else if offset == 0x3ffc
      then record stored { interrupt_vector = data16 }
      else if offset == 0x3ffe
      then write_dbuf stored data16
      else set_mailbox stored offset data16

  -- A word for the DMA control register is given back to the caller.
  unfoldable pub write8 : Cdic → ℕ → ℕ → Cdic × Option ℕ
  unfolding ram_write8 load_mailbox_word_from_ram write16
  write8 c offset val =
      let stored = ram_write8 c offset val in
      let even = offset - offset % 2 in
      let word = c.write_latch * 2 ^ 8 + val in
      if is_shared offset
      then (
        if leb even dsp_mailbox_end then load_mailbox_word_from_ram stored even else stored,
        none,
      )
      else if offset % 2 == 0
      then (record c { write_latch = val }, none)
      else if even == 0x3ff8
      then (c, some word)
      else (write16 c even word, none)
