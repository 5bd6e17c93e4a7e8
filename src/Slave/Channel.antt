-- ===== src/Slave/Channel.antt =====
-- crates/cdi-core/src/slave.rs: the output channels, the shared interrupt line, the queues that
-- feed the channels, and the read port.
use edi_emulator.Prelude.{
  ℕ, ◌+◌, ◌-◌, min, Bool, true, false, not, ◌&&◌, ◌||◌, leb, ◌==◌, if◌then◌else◌, List, [], ◌∷◌,
  ◌++◌, Option, none, some, get_or, set, set_bit, clear_bit,
}
use edi_emulator.Keyboard.{has_some}
use edi_emulator.Slave.{
  OutChannel, PendingReadback, SlaveHle, empty_channel, readback_delay, drive_status_packet,
}

abbrev pub channel_at : SlaveHle → ℕ → OutChannel
channel_at s i = get_or s.channels i empty_channel

abbrev pub countdown_at : SlaveHle → ℕ → Option ℕ
countdown_at s i = get_or s.irq_countdowns i none

unfoldable pub put_channel : ℕ → OutChannel → SlaveHle → SlaveHle
put_channel i c s = record s { channels = set s.channels i c }

unfoldable pub put_countdown : ℕ → Option ℕ → SlaveHle → SlaveHle
put_countdown i d s = record s { irq_countdowns = set s.irq_countdowns i d }

unfoldable pub assert_channel_irq : SlaveHle → ℕ → SlaveHle
assert_channel_irq s channel = record s {
  irq_pending_channels = set_bit s.irq_pending_channels channel;
  irq_asserted = true;
}

unfoldable pub clear_channel_irq : SlaveHle → ℕ → SlaveHle
clear_channel_irq s channel =
    let pending = clear_bit s.irq_pending_channels channel in
    record s { irq_pending_channels = pending; irq_asserted = not (pending == 0) }

unfoldable pub prepare_readback : SlaveHle → Option ℕ → ℕ → ℕ → List ℕ → ℕ → SlaveHle
unfolding put_channel put_countdown
prepare_readback s delay channel count bytes cmd =
    put_countdown channel delay
      (put_channel channel (record { buf = bytes; index = 0; count = count; cmd = cmd }) s)

-- The packets of the keyboard and the player-control keys, when their channel is free.
unfoldable pub expose_keyboard : List (List ℕ) → SlaveHle → SlaveHle
unfolding put_channel assert_channel_irq
expose_keyboard [] s = s
expose_keyboard (packet ∷ packets) s =
    let c : OutChannel = record {
      buf = get_or packet 0 0 ∷ get_or packet 1 0 ∷ get_or packet 2 0 ∷ 0 ∷ [];
      index = 0;
      count = 3;
      cmd = 0xa0;
    } in
    assert_channel_irq (put_channel 2 c (record s { pending_keyboard = packets })) 2

abbrev pub no_readbacks : List PendingReadback → Bool
no_readbacks [] = true
no_readbacks (r ∷ rs) = false

unfoldable pub service_keyboard : SlaveHle → SlaveHle
unfolding expose_keyboard
service_keyboard s =
    if not s.keyboard_events_enabled
      || not ((channel_at s 2).count == 0)
      || not (no_readbacks s.pending_channel2_readbacks)
    then s
    else expose_keyboard s.pending_keyboard s

unfoldable pub expose_player_control : List (ℕ × ℕ) → SlaveHle → SlaveHle
unfolding put_channel assert_channel_irq
expose_player_control [] s = s
expose_player_control (packet ∷ packets) s =
    let c : OutChannel = record {
      buf = packet.0 ∷ packet.1 ∷ 0 ∷ 0 ∷ [];
      index = 0;
      count = 2;
      cmd = 0x87;
    } in
    assert_channel_irq (put_channel 1 c (record s { pending_player_control = packets })) 1

unfoldable pub service_player_control : SlaveHle → SlaveHle
unfolding expose_player_control
service_player_control s =
    if not s.player_control_enabled || not ((channel_at s 1).count == 0)
    then s
    else expose_player_control s.pending_player_control s

unfoldable pub expose_readback : List PendingReadback → SlaveHle → SlaveHle
unfolding prepare_readback service_keyboard
expose_readback [] s = service_keyboard s
expose_readback (r ∷ rs) s =
    prepare_readback (record s { pending_channel2_readbacks = rs }) r.delay 2 r.count r.data_bytes
      r.cmd

unfoldable pub service_channel2 : SlaveHle → SlaveHle
unfolding expose_readback
service_channel2 s =
    if not ((channel_at s 2).count == 0) || has_some (countdown_at s 2)
    then s
    else expose_readback s.pending_channel2_readbacks s

unfoldable pub queue_channel2_readback : SlaveHle → Option ℕ → ℕ → List ℕ → ℕ → SlaveHle
unfolding service_channel2
queue_channel2_readback s delay count bytes cmd = service_channel2 (record s {
  pending_channel2_readbacks =
      s.pending_channel2_readbacks
      ++ record { delay = delay; count = count; data_bytes = bytes; cmd = cmd } ∷ [];
})

unfoldable pub expose_drive_status : List (List ℕ) → SlaveHle → SlaveHle
unfolding prepare_readback readback_delay
expose_drive_status [] s = s
expose_drive_status (packet ∷ packets) s =
    prepare_readback (record s { pending_drive_status = packets }) (some (readback_delay s)) 3 4
      packet 0xb0

unfoldable pub service_drive_status_notification : SlaveHle → SlaveHle
unfolding expose_drive_status
service_drive_status_notification s =
    if not s.xbus_interrupt_enable
      || not ((channel_at s 3).count == 0)
      || has_some (countdown_at s 3)
    then s
    else expose_drive_status s.pending_drive_status s

-- `notify_disc_change`; the replaced medium reports its removal first.
unfoldable pub notify_disc_change : SlaveHle → Bool → Bool → SlaveHle
unfolding service_drive_status_notification drive_status_packet
notify_disc_change s present replacing =
    let removal = if replacing then (0xb0 ∷ 0x00 ∷ 0x00 ∷ 0x15 ∷ []) ∷ [] else [] in
    let changed = record s {
      disc_boot_mode = false;
      disc_present = present;
      pending_drive_status = s.pending_drive_status ++ removal;
    } in
    service_drive_status_notification (record changed {
      pending_drive_status = changed.pending_drive_status ++ drive_status_packet changed ∷ [];
    })

-- The commands whose first response byte, when read, takes the channel off the interrupt line.
unfoldable pub acknowledges : ℕ → ℕ → Bool
acknowledges channel cmd =
    cmd == 0xa0
    || cmd == 0xa2
    || cmd == 0xb0
    || cmd == 0xb1
    || cmd == 0xf0
    || cmd == 0xf3
    || cmd == 0xf4
    || cmd == 0xf7
    || cmd == 0xf9
    || (leb 0xfb cmd && leb cmd 0xfe)
    || (channel == 1 && cmd == 0x87)

-- The channel after a byte of it is read.
unfoldable pub advance : OutChannel → OutChannel
advance c =
    if c.count - 1 == 0
    then empty_channel
    else record c { index = c.index + 1; count = c.count - 1 }

unfoldable pub service_after_read : ℕ → SlaveHle → SlaveHle
unfolding service_player_control service_channel2
service_after_read channel s =
    if channel == 1
    then service_player_control s
    else if channel == 2
    then service_channel2 s
    else s

unfoldable pub read : SlaveHle → ℕ → SlaveHle × ℕ
unfolding put_channel put_countdown acknowledges advance clear_channel_irq service_after_read
read s channel =
    let c = channel_at s channel in
    let polled_before_irq = has_some (countdown_at s channel) in
    let taken = put_channel channel (advance c) (put_countdown channel none s) in
    let cleared =
      if (c.index == 0 && acknowledges channel c.cmd) || polled_before_irq
      then clear_channel_irq taken channel
      else taken in
    if c.count == 0
    then (s, 0xff)
    else (service_after_read channel cleared, get_or c.buf (min c.index 3) 0)
