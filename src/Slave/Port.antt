-- ===== src/Slave/Port.antt =====
-- crates/cdi-core/src/slave.rs: the write port of the four channels.
use edi_emulator.Prelude.{
  ℕ, ◌+◌, ◌-◌, ◌*◌, ◌/◌, ◌%◌, ◌^◌, min, Bool, true, false, not, ◌&&◌, ◌||◌, leb, ◌==◌,
  if◌then◌else◌, List, [], ◌∷◌, Option, none, some, replicate, get_or, set, take, drop, set_bit,
  clear_bit, field,
}
use edi_emulator.Slave.{SlaveHle, empty_channel, clear_input, readback_delay, drive_status_packet}
use edi_emulator.Slave.Channel.{
  channel_at, put_channel, assert_channel_irq, clear_channel_irq, prepare_readback,
  queue_channel2_readback, service_drive_status_notification,
}
use edi_emulator.Slave.Input.{withdraw_keyboard}

abbrev pub in_at : SlaveHle → ℕ → ℕ
in_at s i = get_or s.in_buf i 0

abbrev pub between : ℕ → ℕ → ℕ → Bool
between lo hi n = leb lo n && leb n hi

-- Channel 1, at the start of a command.
unfoldable pub write_player_control : SlaveHle → ℕ → SlaveHle
unfolding put_channel clear_channel_irq clear_input
write_player_control s byte =
    let closed = record s { player_control_enabled = false; pending_player_control = [] } in
    clear_input (
      if byte == 0x8d
      then record s { player_control_enabled = true; pending_player_control = [] }
      else if byte == 0x8e
      then if (channel_at s 1).cmd == 0x87
        then clear_channel_irq (put_channel 1 empty_channel closed) 1
        else closed
      else s)

-- Channel 1, within a command that another channel began.
unfoldable pub write_lcd : SlaveHle → SlaveHle
unfolding clear_input
write_lcd s =
    if leb 2 s.in_index && s.in_index == s.in_count
    then clear_input
        (if in_at s 0 == 0xf0 then record s { lcd_state = take 16 (drop 1 s.in_buf) } else s)
    else s

-- The immediate commands of channel 0.
unfoldable pub pointer_command : SlaveHle → ℕ → SlaveHle
unfolding assert_channel_irq
pointer_command s byte =
    let enabled = record s { pointer_interrupt_enable = true } in
    let c = channel_at s 0 in
    if byte == 0x83
    then if c.cmd == 0xf7 && not (c.count == 0) then assert_channel_irq enabled 0 else enabled
    else if byte == 0x84
    then record s { pointer_interrupt_enable = false }
    else if byte == 0x87
    then record s { boot_status = clear_bit s.boot_status 1 }
    else if byte == 0x88
    then record s { boot_status = set_bit s.boot_status 1 }
    else s

-- A position written by the host; the parts joined by `|` are disjoint bits.
unfoldable pub written_x : SlaveHle → ℕ
written_x s = min (field (in_at s 1) 4 3 * 2 ^ 7 + in_at s 2 % 2 ^ 7) 767

unfoldable pub written_y : SlaveHle → ℕ
written_y s = min (in_at s 1 % 2 ^ 4 * 2 ^ 6 + in_at s 0 % 2 ^ 6) 559

unfoldable pub write_mouse : SlaveHle → ℕ → SlaveHle
unfolding written_x written_y clear_input pointer_command
write_mouse s byte =
    if leb 0xc0 (in_at s 0)
    then if s.in_index == 1
      then record s { in_count = 3 }
      else if s.in_index == s.in_count
      then clear_input (record s { device_x = written_x s; device_y = written_y s })
      else s
    else (let done = pointer_command s byte in
        if done.in_index == 1 then record done { in_index = 0 } else done)

-- The two parameter bytes of an accepted command 0x90.
unfoldable pub transport_parameter : SlaveHle → ℕ → SlaveHle
unfolding clear_input
transport_parameter s byte =
    let left = s.transport_parameter_bytes - 1 in
    let counted = record s { transport_parameter_bytes = left } in
    clear_input (
      if left == 0 && not (byte == 0xff)
      then record counted { transport_repeat_delay = byte }
      else counted)

-- Channel 2, at the last byte of a command with parameters.
unfoldable pub finish_ch2 : SlaveHle → SlaveHle
unfolding clear_input
finish_ch2 s =
    let first = in_at s 0 in
    let payload = in_at s 1 * 2 ^ 24 + in_at s 2 * 2 ^ 16 + in_at s 3 * 2 ^ 8 + in_at s 4 in
    if between 0xc0 0xcf first
    then record s { attenuation = some payload; in_index = 0; in_count = 0 }
    else if first == 0xf0
    then record s { in_buf = in_at s 0 ∷ replicate 16 0; in_count = 17 }
    else clear_input s

-- Channel 2, at the first byte of a command. What the source only logs clears the input.
unfoldable pub start_ch2 : SlaveHle → ℕ → SlaveHle
unfolding withdraw_keyboard clear_input
start_ch2 s byte =
    if byte == 0x80
    then clear_input (record s { keyboard_events_enabled = true; pending_keyboard = [] })
    else if byte == 0x81
    then clear_input
        (withdraw_keyboard (record s { keyboard_events_enabled = false; pending_keyboard = [] }))
    else if byte == 0x88
    then clear_input (record s { transport_adjust_enabled = not s.transport_adjust_enabled })
    else if byte == 0x90
    then clear_input
        (if s.transport_adjust_enabled then record s { transport_parameter_bytes = 2 } else s)
    else if byte == 0x8a
    then record (clear_input s) { disc_boot_mode = true; host_reset_requested = true }
    else if between 0xc0 0xcf byte
    then record s { in_count = 5 }
    else if byte == 0xf0
    then record s { in_count = 17 }
    else clear_input s

unfoldable pub write_ch2 : SlaveHle → ℕ → SlaveHle
unfolding transport_parameter finish_ch2 start_ch2
write_ch2 s byte =
    if not (s.transport_parameter_bytes == 0)
    then transport_parameter s byte
    else if leb 2 s.in_index
    then if s.in_index == s.in_count then finish_ch2 s else s
    else start_ch2 s byte

-- Channel 3, at the last byte of a command with parameters.
unfoldable pub finish_ch3 : SlaveHle → SlaveHle
unfolding prepare_readback drive_status_packet readback_delay clear_input
finish_ch3 s =
    let first = in_at s 0 in
    clear_input (
      if first == 0xb0
      then prepare_readback s (some (s.clock_hz / 4)) 3 4 (drive_status_packet s) 0xb0
      else if first == 0xb1
      then prepare_readback s (some (readback_delay s)) 3 4 (0xb1 ∷ 0x00 ∷ 0x00 ∷ 0x00 ∷ []) 0xb1
      else s)

abbrev pub restart : SlaveHle → SlaveHle
restart s = record s { in_index = 0 }

-- A status query: its reply is queued for channel 2.
unfoldable pub reply : SlaveHle → Option ℕ → List ℕ → ℕ → SlaveHle
unfolding queue_channel2_readback
reply s delay bytes cmd = restart (queue_channel2_readback s delay 2 bytes cmd)

unfoldable pub start_ch3 : SlaveHle → ℕ → SlaveHle
unfolding reply readback_delay service_drive_status_notification clear_input
start_ch3 s byte =
    let after = some (readback_delay s) in
    if byte == 0xb0 || byte == 0xb1
    then record s { in_count = 4 }
    else if byte == 0xf0
    then reply s after (0xf0 ∷ s.version.0 ∷ s.version.1 ∷ 0 ∷ []) 0xf0
    else if byte == 0xf3
    then reply s after (0xf3 ∷ (if s.keyboard_attached then 5 else 1) ∷ 0xff ∷ 0 ∷ []) 0xf3
    else if byte == 0xf4
    then reply s after (0xf4 ∷ s.boot_status ∷ 0 ∷ 0 ∷ []) 0xf4
    else if byte == 0xf6
    then reply s none (0xf6 ∷ s.video_status ∷ 0 ∷ 0 ∷ []) 0xf6
    else if byte == 0xf7
    then restart (record s { polling_active = true })
    else if byte == 0xfa
    then service_drive_status_notification (restart (record s { xbus_interrupt_enable = true }))
    else if byte == 0xfb
    then restart (record s { xbus_interrupt_enable = false })
    else if byte == 0xf8 || byte == 0xfe || byte == 0xf9 || byte == 0xfc || byte == 0xfd
    then restart s
    else clear_input s

unfoldable pub write_ch3 : SlaveHle → ℕ → SlaveHle
unfolding finish_ch3 start_ch3
write_ch3 s byte =
    if leb 2 s.in_index
    then if s.in_index == s.in_count then finish_ch3 s else s
    else start_ch3 s byte

-- The byte is stored, and then handled by its channel.
unfoldable pub store : SlaveHle → ℕ → SlaveHle
store s byte = record s {
  in_buf = set s.in_buf (min s.in_index 16) byte;
  in_index = s.in_index + 1;
}

unfoldable pub write : SlaveHle → ℕ → ℕ → SlaveHle
unfolding write_player_control store write_mouse write_lcd write_ch2 write_ch3
write s channel byte =
    let stored = store s byte in
    if channel == 1 && s.in_index == 0
    then write_player_control s byte
    else if channel == 0
    then write_mouse stored byte
    else if channel == 1
    then write_lcd stored
    else if channel == 2
    then write_ch2 stored byte
    else if channel == 3
    then write_ch3 stored byte
    else stored
