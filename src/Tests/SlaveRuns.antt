-- ===== src/Tests/SlaveRuns.antt =====
-- The SLAVE microcontroller at concrete states (crates/cdi-core/src/slave.rs).
use edi_emulator.Prelude.{◌≡◌, refl, arith, ◌∷◌, [], true, replicate, ℕ, List}
use edi_emulator.Keyboard.{no_modifiers}
use edi_emulator.Slave.{SlaveHle, initial, pause}
use edi_emulator.Slave.Channel.{channel_at, read}
use edi_emulator.Slave.Input.{set_keyboard_attached, set_keyboard_key}
use edi_emulator.Slave.Port.{write}
use edi_emulator.Slave.Aligned.{IsValid}
use edi_emulator.Slave.Reachable.{
  Operation, perform, perform_all, move, key, player_key, attach_keyboard, change_disc, pass,
  read_from, write_to, perform_all-initial,
}
use edi_emulator.Slave.Served.{IsLive}
use edi_emulator.Slave.Stream.{IsNext, IsQueued, read-IsNext}
use edi_emulator.Slave.Query.{device_class, write-IsQueued}
use edi_emulator.Slave.Stuck.{write_all, to_channel2, display, write_all-stuck}

-- The keyboard enabled, a key pressed, and two queries behind its packet.
abbrev typed : List Operation
typed =
    attach_keyboard true
    ∷ write_to 2 0x80
    ∷ key 0x41 true no_modifiers
    ∷ write_to 3 0xf3
    ∷ write_to 3 0xf6
    ∷ []

abbrev session : List Operation
session =
    write_to 3 0xf7
    ∷ write_to 0 0x83
    ∷ move 5 7 1
    ∷ pass 250_000
    ∷ read_from 0
    ∷ write_to 1 0x8d
    ∷ player_key pause true
    ∷ read_from 1
    ∷ write_to 3 0xfa
    ∷ change_disc true true
    ∷ pass 1_500
    ∷ read_from 3
    ∷ typed

abbrev busy : SlaveHle
busy = perform_all typed (initial (0x32, 0x31) true)

perform_all-initial_example : IsValid (perform_all session (initial (0x32, 0x31) true))
perform_all-initial_example = perform_all-initial (0x32, 0x31) true session

-- The packet of the key is on channel 2, with its three bytes.
busy-counts :
    (busy.in_index ≡ 0) × (busy.transport_parameter_bytes ≡ 0) × ((channel_at busy 2).count ≡ 3)
unfolding perform write set_keyboard_key set_keyboard_attached initial
busy-counts = (refl, refl, refl)

busy-IsLive : IsLive busy
unfolding IsLive
busy-IsLive e = absurd (let c = busy-counts.2 in omega arith)

read-IsNext_example : IsNext busy (read busy 2)
read-IsNext_example = read-IsNext busy (perform_all-initial (0x32, 0x31) true typed) busy-IsLive

write-IsQueued_example : IsQueued busy (0xf3 ∷ 5 ∷ []) (write busy 3 0xf3)
unfolding perform write set_keyboard_key set_keyboard_attached initial
write-IsQueued_example =
    write-IsQueued busy 0xf3 5 (perform_all-initial (0x32, 0x31) true typed) busy-counts.0
      device_class

-- Sixteen spaces on the display.
write_all-stuck_example :
    (rest : List ℕ) × (write_all
        (replicate 3 (3, 0xf3))
        (write_all (to_channel2 (0xf0 ∷ replicate 16 0x20)) busy)
      ≡ display busy rest 20)
write_all-stuck_example =
    write_all-stuck busy (replicate 16 0x20) (replicate 3 (3, 0xf3))
      (perform_all-initial (0x32, 0x31) true typed) busy-counts.0 busy-counts.1 refl
