-- ===== src/Tests/CdicRuns.antt =====
-- The CDIC at concrete states (crates/cdi-core/src/cdic.rs).
use edi_emulator.Prelude.{
  ℕ, ◌+◌, ◌*◌, ◌≤◌, ◌≡◌, ◌≢◌, ◌⊎◌, refl, arith, List, [], ◌∷◌, Option, none, replicate, length,
  if◌then◌else◌, true,
}
use edi_emulator.Prelude.Paced.{iterate}
use edi_emulator.Disc.Image.{DiscImage}
use edi_emulator.Cdic.{Cdic, powered, default_ram, mode2}
use edi_emulator.Cdic.Transport.{init_disc_read}
use edi_emulator.Cdic.Subcode.{bcd8, expected_msf_bcd}
use edi_emulator.Cdic.SeekTime.{time_of, expected_msf_bcd-init_disc_read}
use edi_emulator.Cdic.Adpcm.{play_audio_data, is_supported, sector_count_for_coding}
use edi_emulator.Cdic.Duration.{play_audio_data-length}
use edi_emulator.Cdic.Pump.{pump_hz, sector_tick, tick, cycles_until_next_event}
use edi_emulator.Cdic.PumpLaws.{at_tick, counted, sector_tick-held, tick-cycles_until}
use edi_emulator.Cdic.Registers.{read16}
use edi_emulator.Cdic.Mailbox.{at_file, at_command, HoldsBytes, write_word, read16-write_word}

abbrev plain : List ℕ → ℕ → ℕ → ℕ × ℕ
plain atten l r = (l, r)

-- At 1:43:12, with a read of Mode 2 that is held.
abbrev seeking : Cdic
seeking = record powered {
  command = 0x2a;
  time = time_of 1 43 12 0;
  disc_command = 0x2a;
  disc_mode = mode2;
  disc_spinup_counter = 6;
}

expected_msf_bcd-init_disc_read_example :
    expected_msf_bcd (init_disc_read seeking mode2) ≡ bcd8 1 ∷ bcd8 43 ∷ bcd8 12 ∷ []
unfolding powered
expected_msf_bcd-init_disc_read_example =
    expected_msf_bcd-init_disc_read seeking mode2 1 43 12 0 (omega arith) (omega arith)
      (omega arith) (omega arith) (omega arith) refl

-- Eight bits, mono, 18.9 kHz.
play_audio_data-length_example :
    length (play_audio_data plain (replicate 4 0) (replicate 4 0) 0x14 (replicate 2_304 0x21)).1
    ≡ (if is_supported 0x14 then 2 * 588 * sector_count_for_coding 0x14 else 0)
play_audio_data-length_example =
    play_audio_data-length plain (replicate 4 0) (replicate 4 0) 0x14 (replicate 2_304 0x21)

abbrev stopping : Cdic
stopping = record seeking { stop_after_next_sector = true }

abbrev no_file : ℕ → ℕ → Option (List ℕ)
no_file f at = none

abbrev no_disc : Option (DiscImage ℕ)
no_disc = none

active : seeking.disc_command ≢ 0
active e = absurd (let h : 0x2a ≡ 0 = e in omega arith)

sector_tick-held_example :
    iterate (6 + 75) (sector_tick plain no_file no_disc) seeking
    ≡ at_tick seeking (0 + 6 + 75) 0 (0 + 75)
unfolding powered
sector_tick-held_example =
    sector_tick-held plain no_file no_disc seeking 75 active refl (omega arith) (omega arith)

tick-cycles_until_example :
    (tick plain no_file seeking 199_999 no_disc ≡ counted seeking 199_999)
    × ((seeking.clock_hz ≤ seeking.sector_accum + cycles_until_next_event seeking * pump_hz)
        ⊎ (seeking.clock_hz ≤ seeking.audio_accum + cycles_until_next_event seeking * pump_hz))
unfolding powered cycles_until_next_event
tick-cycles_until_example =
    tick-cycles_until plain no_file no_disc seeking 199_999 (omega arith) (omega arith)
      (omega arith) (omega arith)

abbrev file_offset : ℕ
file_offset = 0x3c06

abbrev command_offset : ℕ
command_offset = 0x3c00

seeking-HoldsBytes : HoldsBytes seeking
unfolding HoldsBytes powered default_ram
seeking-HoldsBytes a = ground arith

read16-write_word_example :
    ((read16 (write_word plain seeking file_offset 0x12 0x34) file_offset).1 ≡ 0x1234)
    × (file_offset ≢ command_offset
        → (read16 (write_word plain seeking file_offset 0x12 0x34) command_offset).1
          ≡ (read16 seeking command_offset).1)
read16-write_word_example =
    read16-write_word plain seeking file_offset command_offset 0x12 0x34 at_file at_command
      seeking-HoldsBytes (omega arith) (omega arith)
