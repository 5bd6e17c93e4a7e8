-- ===== src/Cdic/Pump.antt =====
-- crates/cdi-core/src/cdic.rs: the two pumps of 75 Hz, the drive's and the audio's.
use edi_emulator.Prelude.{
  ℕ, suc, ◌+◌, ◌-◌, ◌*◌, ◌/◌, ◌^◌, min, max, not, ◌==◌, if◌then◌else◌, List, Option, none, some,
  u32, u64,
}
use edi_emulator.Prelude.Paced.{paced}
use edi_emulator.Disc.Image.{DiscImage}
use edi_emulator.Cdic.{Cdic}
use edi_emulator.Cdic.Transport.{cancel_disc_read}
use edi_emulator.Cdic.Audio.{audio_tick}
use edi_emulator.Cdic.Sector.{process_disc_sector}

abbrev pub pump_hz : ℕ
pump_hz = 75

abbrev pub with_sector_accum : ℕ → Cdic → Cdic
with_sector_accum n c = record c { sector_accum = n }

abbrev pub with_audio_accum : ℕ → Cdic → Cdic
with_audio_accum n c = record c { audio_accum = n }

abbrev pub next_lba : Cdic → Cdic
next_lba c = record c { curr_lba = u32 (c.curr_lba + 1) }

module _ (mix : List ℕ → ℕ → ℕ → ℕ × ℕ) {F : Type 0} (read_at : F → ℕ → Option (List ℕ)) where
  -- The sector is read, and the position moves on unless the read has stopped.
  unfoldable pub read_next : Cdic → Option (DiscImage F) → Cdic
  unfolding process_disc_sector cancel_disc_read
  read_next c none = c
  read_next c (some disc) =
      let done = process_disc_sector mix read_at c disc in
      if done.disc_command == 0 then cancel_disc_read done else next_lba done

  unfoldable pub sector_tick : Option (DiscImage F) → Cdic → Cdic
  unfolding read_next
  sector_tick disc c =
      let counted = record c { sector_ticks = min (c.sector_ticks + 1) (2 ^ 64 - 1) } in
      if c.disc_command == 0
      then counted
      else if not (c.disc_spinup_counter == 0)
      then record counted { disc_spinup_counter = c.disc_spinup_counter - 1 }
      else if not c.disc_read_enabled
      then next_lba counted
      else read_next counted disc

  -- Each round of a loop takes `clock_hz` from its count, and `clock_hz` is at least 1.
  unfoldable pub tick : Cdic → ℕ → Option (DiscImage F) → Cdic
  unfolding paced sector_tick audio_tick
  tick c cycles disc =
      let accum = u64 (c.sector_accum + cycles * pump_hz) in
      let sectors =
        paced (λ (s : Cdic). s.sector_accum) with_sector_accum (sector_tick disc) c.clock_hz
          (suc accum) (with_sector_accum accum c) in
      let audio_accum = u64 (sectors.audio_accum + cycles * pump_hz) in
      paced (λ (s : Cdic). s.audio_accum) with_audio_accum (audio_tick mix) c.clock_hz
        (suc audio_accum) (with_audio_accum audio_accum sectors)

unfoldable pub cycles_until_next_event : Cdic → ℕ
cycles_until_next_event c =
    let until : ℕ → ℕ = λ accum. (c.clock_hz - accum + (pump_hz - 1)) / pump_hz in
    max (min (until c.sector_accum) (until c.audio_accum)) 1
