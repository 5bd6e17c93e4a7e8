-- ===== src/Cdic/Transport.antt =====
-- crates/cdi-core/src/cdic.rs: the commands that start and stop the drive.
use edi_emulator.Prelude.{
  ℕ, ◌+◌, ◌-◌, ◌*◌, ◌/◌, ◌%◌, ◌^◌, true, false, ◌||◌, ◌==◌, if◌then◌else◌, [], ◌∷◌, none, u8,
  has_bit, clear_bit,
}
use edi_emulator.Cdic.{Cdic, DiscMode, idle, mode1, mode2, cdda, toc}

abbrev pub from_bcd : ℕ → ℕ
from_bcd v = v / 2 ^ 4 * 10 + v % 2 ^ 4

unfoldable pub lba_from_time : Cdic → ℕ
lba_from_time c =
    let mins = from_bcd (u8 (c.time / 2 ^ 24)) in
    let secs = from_bcd (u8 (c.time / 2 ^ 16)) in
    let frac_bcd = u8 (c.time / 2 ^ 8) in
    let lba = (mins * 60 + secs) * 75 in
    (if has_bit frac_bcd 7 then lba else lba + from_bcd frac_bcd) - 150

-- What a new read clears in its mode.
abbrev pub clear_for : DiscMode → Cdic → Cdic
clear_for mode2 c = record c {
  realtime_audio_next_write = 0;
  realtime_audio_ready = false ∷ false ∷ [];
  realtime_audio_next_play = 0;
  realtime_audio_counter = 0;
}
clear_for cdda c = record c { cdda_pending = none }
clear_for idle c = c
clear_for mode1 c = c
clear_for toc c = c

unfoldable pub init_disc_read : Cdic → DiscMode → Cdic
unfolding lba_from_time
init_disc_read c mode = clear_for mode (record c {
  disc_command = u8 c.command;
  disc_mode = mode;
  disc_read_enabled = has_bit c.data_buffer 14;
  stop_after_next_sector = false;
  curr_lba = lba_from_time c;
  disc_spinup_counter = 6;
})

unfoldable pub cancel_disc_read : Cdic → Cdic
cancel_disc_read c = record c {
  disc_command = 0;
  disc_mode = idle;
  disc_read_enabled = false;
  stop_after_next_sector = false;
  curr_lba = 0;
  disc_spinup_counter = 0;
}

-- The `match` of `handle_command`.
unfoldable pub run_command : Cdic → Cdic
unfolding cancel_disc_read init_disc_read
run_command c =
    if c.command == 0x23 || c.command == 0x24
    then if c.disc_command == 0
      then c
      else record c { disc_read_enabled = has_bit c.data_buffer 14; stop_after_next_sector = true }
    else if c.command == 0x2b
    then cancel_disc_read c
    else if c.command == 0x2e
    then record c { committed_audio_channel = c.audio_channel }
    else if c.command == 0x27
    then init_disc_read c toc
    else if c.command == 0x28
    then init_disc_read c cdda
    else if c.command == 0x29 || c.command == 0x2c
    then init_disc_read c mode1
    else if c.command == 0x2a
    then init_disc_read c mode2
    else c

unfoldable pub handle_command : Cdic → Cdic
unfolding run_command
handle_command c =
    let done = run_command c in record done { data_buffer = clear_bit done.data_buffer 15 }
