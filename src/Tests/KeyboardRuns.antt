-- ===== src/Tests/KeyboardRuns.antt =====
-- The keyboard at concrete states (crates/cdi-core/src/keyboard.rs).
use edi_emulator.Prelude.{
  ◌≡◌, refl, arith, true, false, [], ◌∷◌, none, some, last?, if◌then◌else◌, leb, ◌&&◌, ◌+◌, ◌*◌,
  ◌/◌,
}
use edi_emulator.Keyboard.{KeyboardKMode, no_modifiers, set_key, packet_head, packet_key}
use edi_emulator.Keyboard.Line.{tick, tick-tick_quiet}
use edi_emulator.Keyboard.Held.{IsHeldAfter}
use edi_emulator.Keyboard.Packet.{IsPacket, IsReport, packet_head-IsPacket, set_key-IsReport}
use edi_emulator.Keyboard.Identify.{IsIdle, recognise, recognise-sent}

-- Attached, addressed, and in the middle of a packet.
abbrev typing : KeyboardKMode
typing = record {
  attached = true;
  clock_hz = 15_000_000;
  rts_asserted = true;
  rts_low_cycles = 0;
  pending = 0xc8 ∷ 0x41 ∷ [];
  tx_countdown = some 125_000;
  power_on_countdown = none;
  power_on_id_pending = false;
  pressed_keys = 0x41 ∷ [];
  modifiers = record { shift = true; caps_lock = false; supershift = false; control = true };
}

tick-tick_quiet_example :
    tick (tick typing 125_000 []).0 130_000 (tick typing 125_000 []).1 ≡ tick typing 255_000 []
tick-tick_quiet_example = tick-tick_quiet typing 125_000 130_000 [] refl

set_key-IsReport_example :
    IsReport typing (set_key typing 0x42 true no_modifiers)
    × ((set_key typing 0x42 true no_modifiers).modifiers ≡ no_modifiers)
    × IsHeldAfter 0x42 typing.pressed_keys true (set_key typing 0x42 true no_modifiers).pressed_keys
    × (true ≡ true → last? (set_key typing 0x42 true no_modifiers).pressed_keys ≡ some 0x42)
set_key-IsReport_example =
    set_key-IsReport typing 0x42 true no_modifiers refl (omega arith, tt) (omega arith)

packet_head-IsPacket_example :
    IsPacket no_modifiers
      (some 0xc1)
      (packet_head no_modifiers (some 0xc1))
      (packet_key (some 0xc1))
packet_head-IsPacket_example = packet_head-IsPacket no_modifiers (some 0xc1) (λ key e. ground arith)

typing-IsIdle : IsIdle typing
typing-IsIdle = record { attached = refl; asserted = refl; quiet = refl; no_id = refl }

recognise-sent_example : (tick (recognise typing 150_000) 137_500 []).1 ≡ (
    if leb ((typing.clock_hz + 999) / 1_000 * 10) 150_000
      && leb ((typing.clock_hz + 1_199) / 1_200 * 11) 137_500
    then 0xcb ∷ []
    else [])
recognise-sent_example =
    recognise-sent typing typing-IsIdle 150_000 137_500 (omega arith) (omega arith)
