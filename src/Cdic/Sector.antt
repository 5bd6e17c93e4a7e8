-- ===== src/Cdic/Sector.antt =====
-- crates/cdi-core/src/cdic.rs: the sectors that the drive reads: validity, selection and delivery.
-- A sector is its 2352 bytes.
use edi_emulator.Prelude.{
  ℕ, ◌+◌, ◌*◌, ◌/◌, ◌%◌, ◌^◌, bit_xor, Bool, true, false, not, ◌&&◌, ◌||◌, ◌==◌, if◌then◌else◌,
  List, [], ◌∷◌, ◌++◌, Option, none, some, get_or, set, take, drop, u8, u32, has_bit, set_bit,
  clear_bit,
}
use edi_emulator.Disc.Image.{DiscImage, read_sector_raw}
use edi_emulator.Disc.Scramble.{descramble_in_place}
use edi_emulator.Cdic.{Cdic, is_cdda, is_mode2, is_toc, update_interrupt_state}
use edi_emulator.Cdic.Transport.{cancel_disc_read}
use edi_emulator.Cdic.Audio.{receive_cdda_sector, try_play_realtime_audio}
use edi_emulator.Cdic.Subcode.{expected_msf_bcd, q_position, build_toc_into_buffer, with_crc}

abbrev pub at : List ℕ → ℕ → ℕ
at buf i = get_or buf i 0

-- The time of the sector is the one of `msf`, and its subheader is there twice.
unfoldable pub is_sector_at : List ℕ → List ℕ → Bool
is_sector_at msf buf =
    at buf 12 == at msf 0
    && at buf 13 == at msf 1
    && at buf 14 == at msf 2
    && (at buf 15 == 1 || at buf 15 == 2)
    && at buf 16 == at buf 20
    && at buf 17 == at buf 21
    && at buf 18 == at buf 22
    && at buf 19 == at buf 23

unfoldable pub is_valid_sector : Cdic → List ℕ → Bool
unfolding is_sector_at expected_msf_bcd
is_valid_sector c buf = is_sector_at (expected_msf_bcd c) buf

-- A channel number from 32 on is taken modulo 32, as the shift does where its overflow is not checked.
unfoldable pub is_mode2_sector_selected : Cdic → List ℕ → Bool
is_mode2_sector_selected c buf =
    let submode = at buf 22 in
    at buf 20 * 2 ^ 8 == c.file
    && (has_bit submode 7
        || has_bit submode 4
        || has_bit submode 0
        || ((has_bit submode 3 || has_bit submode 2 || has_bit submode 1)
            && has_bit c.channel (at buf 21 % 32)))

-- And here modulo 16.
unfoldable pub is_mode2_audio_selected : Cdic → List ℕ → Bool
is_mode2_audio_selected c buf =
    has_bit (at buf 22) 5 && has_bit (at buf 22) 2 && has_bit c.audio_channel (at buf 21 % 16)

-- `put` for a list of words, from the word index `idx` on.
unfoldable pub put_words : ℕ → List ℕ → (ℕ → ℕ) → ℕ → ℕ
put_words idx [] ram = ram
put_words idx (w ∷ ws) ram = put_words (idx + 1) ws (λ b.
    if b == idx * 2 % 0x4000
    then u8 (w / 2 ^ 8)
    else if b == idx * 2 % 0x4000 + 1
    then u8 w
    else ram b)

-- The big-endian words of bytes.
unfoldable pub words_of : List ℕ → List ℕ
words_of [] = []
words_of (a ∷ []) = []
words_of (a ∷ b ∷ bytes) = (a * 2 ^ 8 + b) ∷ words_of bytes

-- The data buffer register after a delivery: the slot, and whether it holds audio.
unfoldable pub next_data_buffer : Cdic → Bool → ℕ
next_data_buffer c realtime_audio =
    if realtime_audio
    then set_bit (clear_bit c.data_buffer 0) 2 + c.realtime_audio_next_write
    else clear_bit (bit_xor c.data_buffer 1) 2

-- The RAM after a delivery to a slot: the header, the sector and Q.
unfoldable pub delivered_ram : Bool → ℕ → List ℕ → List ℕ → (ℕ → ℕ) → ℕ → ℕ
unfolding put_words words_of
delivered_ram realtime_audio slot buffer q ram =
    let with_header = put_words (slot * 0x0500) (words_of (take 8 (drop 12 buffer))) ram in
    if realtime_audio
    then put_words ((0x2800 + slot * 0x0a00) / 2) (words_of (drop 12 buffer) ++ q) with_header
    else put_words (slot * 0x0500 + 4) (words_of (drop 20 buffer) ++ q) with_header

-- The sector in its buffer, and the interrupt.
unfoldable pub route_sector : Cdic → Bool → List ℕ → List ℕ → Cdic
unfolding next_data_buffer delivered_ram update_interrupt_state
route_sector c realtime_audio buffer q =
    let data_buffer = next_data_buffer c realtime_audio in
    update_interrupt_state (record c {
      ram = delivered_ram realtime_audio (data_buffer % 2) buffer q c.ram;
      x_buffer = set_bit c.x_buffer 15;
      data_buffer = set_bit data_buffer 14;
      realtime_audio_next_write =
          if realtime_audio
          then bit_xor c.realtime_audio_next_write 1
          else c.realtime_audio_next_write;
    })

module _ (mix : List ℕ → ℕ → ℕ → ℕ × ℕ) where
  -- The audio slot that was filled may start to play.
  unfoldable pub fill_slot : Cdic → ℕ → Cdic
  unfolding try_play_realtime_audio
  fill_slot c slot =
      try_play_realtime_audio mix
        (record c { realtime_audio_ready = set c.realtime_audio_ready slot true })

  unfoldable pub deliver_sector : Cdic → List ℕ → List ℕ → Cdic
  unfolding is_mode2_audio_selected route_sector fill_slot cancel_disc_read
  deliver_sector c buffer q =
      let realtime_audio = is_mode2 c.disc_mode && is_mode2_audio_selected c buffer in
      let routed = route_sector c realtime_audio buffer q in
      let done = if realtime_audio then fill_slot routed c.realtime_audio_next_write else routed in
      if done.stop_after_next_sector then cancel_disc_read done else done

  module _ {F : Type 0} (read_at : F → ℕ → Option (List ℕ)) where
    -- The sector with its subcode.
    unfoldable pub deliver_with_subcode : Cdic → DiscImage F → ℕ → List ℕ → Cdic
    unfolding build_toc_into_buffer with_crc q_position deliver_sector
    deliver_with_subcode c disc abs buffer =
        let built = build_toc_into_buffer c disc buffer in
        if is_toc c.disc_mode
        then deliver_sector c built.0 (with_crc built.1)
        else deliver_sector c buffer (with_crc (q_position c disc abs))

    -- The sector that is over the drive's head.
    unfoldable pub handle_sector : Cdic → DiscImage F → ℕ → List ℕ → Cdic
    unfolding is_mode2_sector_selected receive_cdda_sector deliver_with_subcode
    handle_sector c disc abs buffer =
        let received =
          receive_cdda_sector (record c { audio_sector_counter = 2; decoding_audio_map = false })
            buffer in
        if at buffer 15 == 2 && is_mode2 c.disc_mode
        then if is_mode2_sector_selected c buffer then deliver_with_subcode c disc abs buffer else c
        else if is_cdda c.disc_mode
        then if (c.curr_lba + 150) % 75 == 0
          then deliver_with_subcode received disc abs buffer
          else received
        else deliver_with_subcode c disc abs buffer

    -- The sector as it is, or descrambled where that makes it valid.
    unfoldable pub choose : Cdic → List ℕ → List ℕ
    unfolding is_valid_sector descramble_in_place
    choose c buffer =
        let candidate = descramble_in_place buffer in
        if not (is_valid_sector c buffer) && is_valid_sector c candidate then candidate else buffer

    unfoldable pub process_read : Cdic → DiscImage F → ℕ → Option (List ℕ) → Cdic
    unfolding cancel_disc_read handle_sector choose
    process_read c disc abs none = cancel_disc_read c
    process_read c disc abs (some buffer) = handle_sector c disc abs (choose c buffer)

    unfoldable pub process_disc_sector : Cdic → DiscImage F → Cdic
    unfolding process_read read_sector_raw
    process_disc_sector c disc =
        let abs = u32 (c.curr_lba + c.lba_base) in
        process_read c disc abs (read_sector_raw read_at disc abs)
