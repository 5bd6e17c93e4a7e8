-- ===== src/Slave/PortValid.antt =====
-- crates/cdi-core/src/slave.rs: the invariant under writes.
use edi_emulator.Prelude.{
  ℕ, ◌/◌, ◌≤◌, min, refl, ◌∙◌, arith, true, false, not, ◌&&◌, ◌||◌, leb, ◌==◌, if_both, if_true,
  if_false, Bool-cases, inl, inr, [], ◌∷◌, Option, some, length-set, replicate,
}
use edi_emulator.Slave.{SlaveHle, empty_channel, clear_input, readback_delay, drive_status_packet}
use edi_emulator.Slave.Channel.{channel_at, countdown_at, put_channel}
use edi_emulator.Slave.Port.{
  in_at, between, write_player_control, write_lcd, pointer_command, written_x, written_y,
  write_mouse, transport_parameter, finish_ch2, start_ch2, write_ch2, finish_ch3, reply, start_ch3,
  write_ch3, store, write,
}
use edi_emulator.Slave.Aligned.{
  Aligned-get, IsValid, kept, empty-ChannelOk, refit_position, refit_input,
}
use edi_emulator.Slave.Valid.{
  put_channel-IsValid, prepare_readback-IsValid, assert_channel_irq-IsValid,
  clear_channel_irq-IsValid,
}
use edi_emulator.Slave.ReadValid.{
  drive-ChannelOk, queue_channel2_readback-IsValid, service_drive_status_notification-IsValid,
}
use edi_emulator.Slave.InputValid.{withdraw_keyboard-IsValid}

pub clear_input-IsValid : (s : SlaveHle) → IsValid s → IsValid (clear_input s)
unfolding clear_input
clear_input-IsValid s v = kept (refit_input v.fits (replicate 17 0) refl)

write_player_control-IsValid :
    (s : SlaveHle) (byte : ℕ) → IsValid s → IsValid (write_player_control s byte)
unfolding write_player_control
write_player_control-IsValid s byte v =
    let closed = record s { player_control_enabled = false; pending_player_control = [] } in
    let ok = Aligned-get s.channels s.irq_countdowns 1 v.fits.aligned in
    clear_input-IsValid _ (
      if_both IsValid (byte == 0x8d) _ _ (kept v.fits) (
        if_both IsValid (byte == 0x8e) _ s
          (elim (Bool-cases ((channel_at s 1).cmd == 0x87)) [
            | inl h ↦ if_true IsValid ((channel_at s 1).cmd == 0x87) _ closed h (
                clear_channel_irq-IsValid (put_channel 1 empty_channel closed) 1 (
                  put_channel-IsValid closed 1 empty_channel (kept v.fits)
                    (empty-ChannelOk (countdown_at s 1) (ok.player (ground arith)))))
            | inr h ↦ if_false IsValid ((channel_at s 1).cmd == 0x87) _ closed h (kept v.fits)
          ])
          (kept v.fits)))

write_lcd-IsValid : (s : SlaveHle) → IsValid s → IsValid (write_lcd s)
unfolding write_lcd
write_lcd-IsValid s v =
    if_both IsValid _ _ s
      (clear_input-IsValid _ (if_both IsValid (in_at s 0 == 0xf0) _ s (kept v.fits) (kept v.fits)))
      (kept v.fits)

pointer_command-IsValid : (s : SlaveHle) (byte : ℕ) → IsValid s → IsValid (pointer_command s byte)
unfolding pointer_command
pointer_command-IsValid s byte v =
    let enabled = record s { pointer_interrupt_enable = true } in
    if_both IsValid (byte == 0x83) _ _
      (if_both IsValid _ _ enabled (assert_channel_irq-IsValid enabled 0 (kept v.fits))
        (kept v.fits))
      (if_both IsValid (byte == 0x84) _ _ (kept v.fits) (
        if_both IsValid (byte == 0x87) _ _ (kept v.fits)
          (if_both IsValid (byte == 0x88) _ s (kept v.fits) (kept v.fits))))

write_mouse-IsValid : (s : SlaveHle) (byte : ℕ) → IsValid s → IsValid (write_mouse s byte)
unfolding write_mouse
write_mouse-IsValid s byte v =
    let done = pointer_command-IsValid s byte (kept v.fits) in
    if_both IsValid (leb 0xc0 (in_at s 0)) _ _
      (if_both IsValid (s.in_index == 1) _ _ (kept v.fits) (
        if_both IsValid (s.in_index == s.in_count) _ s
          (clear_input-IsValid (record s { device_x = written_x s; device_y = written_y s })
            (kept (
              refit_position v.fits _ _ (unfold written_x in omega arith)
                (unfold written_y in omega arith))))
          (kept v.fits)))
      (if_both IsValid ((pointer_command s byte).in_index == 1) _ _ (kept done.fits) done)

transport_parameter-IsValid :
    (s : SlaveHle) (byte : ℕ) → IsValid s → IsValid (transport_parameter s byte)
unfolding transport_parameter
transport_parameter-IsValid s byte v =
    clear_input-IsValid _ (if_both IsValid _ _ _ (kept v.fits) (kept v.fits))

finish_ch2-IsValid : (s : SlaveHle) → IsValid s → IsValid (finish_ch2 s)
unfolding finish_ch2
finish_ch2-IsValid s v = if_both IsValid (between 0xc0 0xcf (in_at s 0)) _ _ (kept v.fits) (
    if_both IsValid (in_at s 0 == 0xf0) _ _ (kept (refit_input v.fits _ refl))
      (clear_input-IsValid s (kept v.fits)))

start_ch2-IsValid : (s : SlaveHle) (byte : ℕ) → IsValid s → IsValid (start_ch2 s byte)
unfolding start_ch2
start_ch2-IsValid s byte v =
    if_both IsValid (byte == 0x80) _ _
      (clear_input-IsValid (record s { keyboard_events_enabled = true; pending_keyboard = [] })
        (kept v.fits))
      (if_both IsValid (byte == 0x81) _ _
        (clear_input-IsValid _ (withdraw_keyboard-IsValid _ (kept v.fits)))
        (if_both IsValid (byte == 0x88) _ _
          (clear_input-IsValid
            (record s { transport_adjust_enabled = not s.transport_adjust_enabled }) (kept v.fits))
          (if_both IsValid (byte == 0x90) _ _
            (clear_input-IsValid _
              (if_both IsValid s.transport_adjust_enabled _ s (kept v.fits) (kept v.fits)))
            (if_both IsValid (byte == 0x8a) _ _
              (let cleared = clear_input-IsValid s v in kept cleared.fits)
              (if_both IsValid (between 0xc0 0xcf byte) _ _ (kept v.fits) (
                if_both IsValid (byte == 0xf0) _ _ (kept v.fits)
                  (clear_input-IsValid s (kept v.fits))))))))

write_ch2-IsValid : (s : SlaveHle) (byte : ℕ) → IsValid s → IsValid (write_ch2 s byte)
unfolding write_ch2
write_ch2-IsValid s byte v =
    if_both IsValid (not (s.transport_parameter_bytes == 0)) _ _
      (transport_parameter-IsValid s byte (kept v.fits))
      (if_both IsValid (leb 2 s.in_index) _ _
        (if_both IsValid (s.in_index == s.in_count) _ s (finish_ch2-IsValid s (kept v.fits))
          (kept v.fits))
        (start_ch2-IsValid s byte (kept v.fits)))

finish_ch3-IsValid : (s : SlaveHle) → IsValid s → IsValid (finish_ch3 s)
unfolding finish_ch3
finish_ch3-IsValid s v = clear_input-IsValid _ (
    if_both IsValid (in_at s 0 == 0xb0) _ _
      (prepare_readback-IsValid s (some (s.clock_hz / 4)) 3 4 (drive_status_packet s) 0xb0
        (kept v.fits)
        (drive-ChannelOk (drive_status_packet s) _ 0xb0 (unfold drive_status_packet in refl)
          (λ e. absurd (omega arith)) (λ e. absurd (omega arith))))
      (if_both IsValid (in_at s 0 == 0xb1) _ s
        (prepare_readback-IsValid s (some (readback_delay s)) 3 4 (0xb1 ∷ 0x00 ∷ 0x00 ∷ 0x00 ∷ [])
          0xb1 (kept v.fits)
          (drive-ChannelOk (0xb1 ∷ 0x00 ∷ 0x00 ∷ 0x00 ∷ []) _ 0xb1 refl (λ e. absurd (omega arith))
            (λ e. absurd (omega arith))))
        (kept v.fits)))

reply-IsValid :
    (s : SlaveHle) (d : Option ℕ) (a b c cmd : ℕ)
    → 0xf0 ≤ cmd
    → IsValid s
    → IsValid (reply s d (a ∷ b ∷ c ∷ 0 ∷ []) cmd)
unfolding reply
reply-IsValid s d a b c cmd h v =
    let queued =
      queue_channel2_readback-IsValid s d 2 (a ∷ b ∷ c ∷ 0 ∷ []) cmd v
        (record { some_bytes = omega arith; room = omega arith; width = refl; query = h }) in
    kept queued.fits

start_ch3-IsValid : (s : SlaveHle) (byte : ℕ) → IsValid s → IsValid (start_ch3 s byte)
unfolding start_ch3
start_ch3-IsValid s byte v = if_both IsValid (byte == 0xb0 || byte == 0xb1) _ _ (kept v.fits) (
    if_both IsValid (byte == 0xf0) _ _ (reply-IsValid s _ _ _ _ 0xf0 (omega arith) (kept v.fits)) (
      if_both IsValid (byte == 0xf3) _ _ (reply-IsValid s _ _ _ _ 0xf3 (omega arith) (kept v.fits))
        (if_both IsValid (byte == 0xf4) _ _
          (reply-IsValid s _ _ _ _ 0xf4 (omega arith) (kept v.fits))
          (if_both IsValid (byte == 0xf6) _ _
            (reply-IsValid s _ _ _ _ 0xf6 (omega arith) (kept v.fits))
            (if_both IsValid (byte == 0xf7) _ _ (kept v.fits) (
              if_both IsValid (byte == 0xfa) _ _
                (service_drive_status_notification-IsValid
                  (record s { xbus_interrupt_enable = true; in_index = 0 }) (kept v.fits))
                (if_both IsValid (byte == 0xfb) _ _ (kept v.fits)
                  (if_both IsValid _ _ _ (kept v.fits) (clear_input-IsValid s (kept v.fits))))))))))

write_ch3-IsValid : (s : SlaveHle) (byte : ℕ) → IsValid s → IsValid (write_ch3 s byte)
unfolding write_ch3
write_ch3-IsValid s byte v =
    if_both IsValid (leb 2 s.in_index) _ _
      (if_both IsValid (s.in_index == s.in_count) _ s (finish_ch3-IsValid s (kept v.fits))
        (kept v.fits))
      (start_ch3-IsValid s byte (kept v.fits))

pub store-IsValid : (s : SlaveHle) (byte : ℕ) → IsValid s → IsValid (store s byte)
unfolding store
store-IsValid s byte v =
    kept (refit_input v.fits _ (length-set s.in_buf (min s.in_index 16) byte ∙ v.fits.input_length))

pub write-IsValid : (s : SlaveHle) (i byte : ℕ) → IsValid s → IsValid (write s i byte)
unfolding write
write-IsValid s i byte v =
    let stored = store-IsValid s byte (kept v.fits) in
    if_both IsValid (i == 1 && s.in_index == 0) _ _
      (write_player_control-IsValid s byte (kept v.fits))
      (if_both IsValid (i == 0) _ _ (write_mouse-IsValid _ byte stored) (
        if_both IsValid (i == 1) _ _ (write_lcd-IsValid _ stored) (
          if_both IsValid (i == 2) _ _ (write_ch2-IsValid _ byte stored)
            (if_both IsValid (i == 3) _ _ (write_ch3-IsValid _ byte stored) stored))))
