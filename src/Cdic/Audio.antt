-- ===== src/Cdic/Audio.antt =====
-- crates/cdi-core/src/cdic.rs: the playback of disc audio and of sound maps.
use edi_emulator.Prelude.{
  ℕ, zero, suc, ◌+◌, ◌-◌, ◌*◌, ◌%◌, ◌^◌, bit_and, bit_xor, Bool, true, false, not, ◌&&◌, ◌||◌, ltb,
  ◌==◌, if◌then◌else◌, List, [], ◌∷◌, ◌++◌, Option, none, some, get_or, set, clear_bit, set_bit,
  replicate,
}
use edi_emulator.Disc.Image.{DiscImage}
use edi_emulator.Cdic.{Cdic, is_cdda, update_interrupt_state, set_disc_layout}
use edi_emulator.Cdic.Transport.{cancel_disc_read}
use edi_emulator.Cdic.Adpcm.{sector_audio_size, sector_count_for_coding, play_audio_data}

abbrev pub is_ready : Cdic → ℕ → Bool
is_ready c slot = get_or c.realtime_audio_ready slot false

-- `(z & !0x0800) | 0x0001`: the audio has stopped.
abbrev pub audio_stopped : ℕ → ℕ
audio_stopped z = set_bit (clear_bit z 11) 0

-- `n` bytes of the RAM from an address on, which wraps at 0x4000.
unfoldable pub ram_bytes : (ℕ → ℕ) → ℕ → ℕ → List ℕ
ram_bytes ram zero a = []
ram_bytes ram (suc n) a = ram (a % 0x4000) ∷ ram_bytes ram n (a + 1)

-- The 16-bit little-endian pairs of a sector, as `i16` words.
unfoldable pub pairs_of : List ℕ → List ℕ
pairs_of [] = []
pairs_of (a ∷ []) = []
pairs_of (a ∷ b ∷ []) = []
pairs_of (a ∷ b ∷ c ∷ []) = []
pairs_of (a ∷ b ∷ c ∷ d ∷ bytes) = (b * 2 ^ 8 + a) ∷ (d * 2 ^ 8 + c) ∷ pairs_of bytes

unfoldable pub play_cdda_sector : Cdic → List ℕ → Cdic
unfolding pairs_of
play_cdda_sector c bytes = record c { audio_out = c.audio_out ++ pairs_of bytes }

abbrev pub is_none : Option (List ℕ) → Bool
is_none none = true
is_none (some x) = false

unfoldable pub receive_cdda_sector : Cdic → List ℕ → Cdic
unfolding play_cdda_sector
receive_cdda_sector c bytes =
    if c.realtime_audio_playing && not c.decoding_audio_map
    then play_cdda_sector c bytes
    else if is_none c.cdda_pending
    then record c { cdda_pending = some bytes }
    else c

unfoldable pub stop_realtime_audio : Cdic → Cdic
stop_realtime_audio c = record c {
  realtime_audio_playing = false;
  realtime_audio_counter = 0;
  cdda_pending = none;
}

unfoldable pub media_changed : {F : Type 0} → Cdic → Option (DiscImage F) → Cdic
unfolding cancel_disc_read stop_realtime_audio set_disc_layout
media_changed c disc =
    set_disc_layout
      (record (stop_realtime_audio (cancel_disc_read c)) {
        audio_out = [];
        xa_last = replicate 4 0;
      })
      disc

unfoldable pub play_pending : Option (List ℕ) → Cdic → Cdic
unfolding play_cdda_sector
play_pending none c = c
play_pending (some sector) c = play_cdda_sector (record c { cdda_pending = none }) sector

module _ (mix : List ℕ → ℕ → ℕ → ℕ × ℕ) where
  -- The samples of a sector of 2304 bytes are appended.
  unfoldable pub play_sector : Cdic → ℕ → ℕ → Cdic
  unfolding play_audio_data ram_bytes
  play_sector c coding start =
      let played =
        play_audio_data mix c.atten c.xa_last coding (ram_bytes c.ram sector_audio_size start) in
      record c { xa_last = played.0; audio_out = c.audio_out ++ played.1 }

  -- The slot that is ready, taken and played, or found to end the audio.
  unfoldable pub play_slot : Cdic → ℕ → Cdic
  unfolding play_sector sector_count_for_coding
  play_slot c slot =
      let base = 0x2800 + slot * 0x0a00 in
      let taken = record c {
        realtime_audio_ready = set c.realtime_audio_ready slot false;
        realtime_audio_next_play = bit_xor c.realtime_audio_next_play 1;
      } in
      let coding = c.ram (base + 11) in
      if coding == 0xff
      then record taken { realtime_audio_playing = false; z_buffer = audio_stopped c.z_buffer }
      else play_sector (record taken { realtime_audio_counter = sector_count_for_coding coding })
          coding (base + 12)

  unfoldable pub try_play_realtime_audio : Cdic → Cdic
  unfolding play_slot
  try_play_realtime_audio c =
      if not c.realtime_audio_playing || c.decoding_audio_map || not (c.realtime_audio_counter == 0)
      then c
      else if is_ready c c.realtime_audio_next_play
      then play_slot c c.realtime_audio_next_play
      else c

  unfoldable pub start_realtime_audio : Cdic → Cdic
  unfolding play_pending try_play_realtime_audio
  start_realtime_audio c =
      let playing = record c { realtime_audio_playing = true } in
      if c.realtime_audio_playing
      then c
      else if is_cdda c.disc_mode
      then play_pending c.cdda_pending playing
      else try_play_realtime_audio (record playing { realtime_audio_next_play = 0 })

  -- The interrupt of a completed buffer of the map.
  abbrev pub buffer_done : Cdic → Cdic
  buffer_done c = update_interrupt_state (record c { audio_buffer = set_bit c.audio_buffer 15 })

  -- A buffer of the sound map, at `base`.
  unfoldable pub play_map_buffer : Cdic → ℕ → Cdic
  unfolding play_sector sector_count_for_coding
  play_map_buffer c base =
      let coding = c.ram ((base + 11) % 0x4000) in
      let sectors = sector_count_for_coding coding in
      if coding == 0xff
      then record c {
        decode_addr = 0xffff;
        audio_sector_counter = 0;
        audio_format_sectors = 0;
        decoding_audio_map = false;
        z_buffer = audio_stopped c.z_buffer;
      }
      else play_sector
          (record c {
            decoding_audio_map = true;
            audio_format_sectors = sectors;
            audio_sector_counter = sectors;
          })
          coding (base + 12)

  unfoldable pub process_audio_map : Cdic → Cdic
  unfolding play_map_buffer update_interrupt_state
  process_audio_map c =
      let ended = record c {
        audio_sector_counter = 0;
        audio_format_sectors = 0;
        decoding_audio_map = false;
      } in
      let played =
        play_map_buffer (record c { decode_addr = bit_xor c.decode_addr 0x1a00 })
          (bit_and c.decode_addr 0x3ffe) in
      if c.decode_addr == 0xffff
      then if c.decoding_audio_map then buffer_done ended else ended
      else if not (c.audio_format_sectors == 0)
      then buffer_done played
      else played

  unfoldable pub count_realtime : Cdic → Cdic
  unfolding try_play_realtime_audio
  count_realtime c =
      let counted = record c { realtime_audio_counter = c.realtime_audio_counter - 1 } in
      if c.realtime_audio_counter == 0
      then c
      else if counted.realtime_audio_counter == 0
      then try_play_realtime_audio counted
      else counted

  -- The sound map at the end of a sector's time.
  unfoldable pub advance_map : Cdic → Cdic
  unfolding update_interrupt_state process_audio_map
  advance_map c =
      if not c.decoding_audio_map
      then c
      else if c.audio_map_stop_requested
      then buffer_done (record c {
        audio_map_stop_requested = false;
        decode_addr = 0xffff;
        audio_format_sectors = 0;
        decoding_audio_map = false;
      })
      else process_audio_map c

  unfoldable pub audio_tick : Cdic → Cdic
  unfolding count_realtime advance_map
  audio_tick c =
      let counted = count_realtime c in
      let next = record counted { audio_sector_counter = counted.audio_sector_counter - 1 } in
      if ltb 1 counted.audio_sector_counter then next else advance_map next
