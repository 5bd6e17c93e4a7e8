-- ===== src/Slave/InputValid.antt =====
-- crates/cdi-core/src/slave.rs: the invariant under the input devices and `tick`.
use edi_emulator.Prelude.{
  ℕ, ◌-◌, ◌^◌, ◌≤◌, ◌≡◌, refl, arith, Bool, not, ◌&&◌, ◌||◌, leb, ◌==◌, ◌<=>◌, if_both, if_true,
  if_false, Bool-cases, inl, inr, List, [], ◌∷◌, Option, none, some, sym,
}
use mathlib.Core.Path.{subst}
use edi_emulator.Keyboard.{KeyboardModifiers}
use edi_emulator.Slave.{SlaveHle, PlayerControlKey, empty_channel, poll_interval}
use edi_emulator.Slave.Channel.{
  channel_at, countdown_at, put_channel, put_countdown, prepare_readback, assert_channel_irq,
}
use edi_emulator.Slave.Input.{
  clamp32, set_pointer_absolute, set_player_control_key, withdraw_keyboard, set_keyboard_attached,
  set_keyboard_key, set_keyboard_modifiers, button_bits, pointer_packet, report_pointer,
  poll_inputs, count_down, count_down_all, count_down_poll, tick, add32, sub32,
}
use edi_emulator.Slave.Aligned.{
  ChannelOk, Aligned-get, IsValid, kept, empty-ChannelOk, refit_position,
}
use edi_emulator.Slave.Valid.{
  put_channel-IsValid, put_countdown-IsValid, prepare_readback-IsValid, assert_channel_irq-IsValid,
  clear_channel_irq-IsValid, service_player_control-IsValid, service_keyboard-IsValid,
}
use edi_emulator.Slave.ReadValid.{drive-ChannelOk, service_drive_status_notification-IsValid}

pub clamp32-le : (a hi : ℕ) → clamp32 a hi ≤ hi
unfolding clamp32
clamp32-le a hi = ground arith

pub set_pointer_absolute-IsValid :
    (s : SlaveHle) (x y b : ℕ) → IsValid s → IsValid (set_pointer_absolute s x y b)
unfolding set_pointer_absolute
set_pointer_absolute-IsValid s x y b v =
    kept (refit_position v.fits _ _ (clamp32-le x 767) (clamp32-le y 559))

pub set_player_control_key-IsValid :
    (s : SlaveHle) (k : PlayerControlKey) (b : Bool)
    → IsValid s
    → IsValid (set_player_control_key s k b)
unfolding set_player_control_key
set_player_control_key-IsValid s k b v = if_both IsValid _ s _ (kept v.fits) (
    if_both IsValid s.player_control_enabled _ _ (service_player_control-IsValid _ (kept v.fits))
      (kept v.fits))

pub withdraw_keyboard-IsValid : (s : SlaveHle) → IsValid s → IsValid (withdraw_keyboard s)
unfolding withdraw_keyboard
withdraw_keyboard-IsValid s v = elim (Bool-cases ((channel_at s 2).cmd == 0xa0)) [
  | inl h ↦
      let ok = Aligned-get s.channels s.irq_countdowns 2 v.fits.aligned in
      if_true IsValid ((channel_at s 2).cmd == 0xa0) _ s h (
        clear_channel_irq-IsValid (put_channel 2 empty_channel s) 2 (
          put_channel-IsValid s 2 empty_channel (kept v.fits)
            (empty-ChannelOk (countdown_at s 2) (ok.keyboard (ground arith)))))
  | inr h ↦ if_false IsValid ((channel_at s 2).cmd == 0xa0) _ s h (kept v.fits)
]

pub set_keyboard_attached-IsValid :
    (s : SlaveHle) (b : Bool) → IsValid s → IsValid (set_keyboard_attached s b)
unfolding set_keyboard_attached
set_keyboard_attached-IsValid s b v =
    if_both IsValid (s.keyboard_attached <=> b) s _ (kept v.fits)
      (withdraw_keyboard-IsValid _ (kept v.fits))

pub set_keyboard_key-IsValid :
    (s : SlaveHle) (code : ℕ) (b : Bool) (m : KeyboardModifiers)
    → IsValid s
    → IsValid (set_keyboard_key s code b m)
unfolding set_keyboard_key
set_keyboard_key-IsValid s code b m v =
    if_both IsValid (not s.keyboard_attached) s _ (kept v.fits)
      (if_both IsValid _ _ _ (kept v.fits) (service_keyboard-IsValid _ (kept v.fits)))

pub set_keyboard_modifiers-IsValid :
    (s : SlaveHle) (m : KeyboardModifiers) → IsValid s → IsValid (set_keyboard_modifiers s m)
unfolding set_keyboard_modifiers
set_keyboard_modifiers-IsValid s m v = if_both IsValid _ s _ (kept v.fits) (
    if_both IsValid s.keyboard_events_enabled _ _ (service_keyboard-IsValid _ (kept v.fits))
      (kept v.fits))

report_pointer-IsValid : (s : SlaveHle) → IsValid s → IsValid (report_pointer s)
unfolding report_pointer
report_pointer-IsValid s v =
    let packet = pointer_packet s.device_x s.device_y (button_bits s.input_buttons) in
    let q = prepare_readback s none 0 4 packet 0xf7 in
    let queued : IsValid q = prepare_readback-IsValid s none 0 4 packet 0xf7 (kept v.fits) (
      drive-ChannelOk packet none 0xf7 (unfold pointer_packet in refl) (λ e. absurd (omega arith))
        (λ e. absurd (omega arith))) in
    if_both IsValid (not s.polling_active) s _ (kept v.fits) (
      if_both IsValid s.pointer_interrupt_enable (assert_channel_irq q 0) q
        (assert_channel_irq-IsValid q 0 queued) queued)

poll_inputs-IsValid : (s : SlaveHle) → IsValid s → IsValid (poll_inputs s)
unfolding poll_inputs
poll_inputs-IsValid s v =
    let anchored = record s {
      last_x = s.input_x;
      last_y = s.input_y;
      last_buttons = s.input_buttons;
    } in
    let delta_x = add32 (sub32 s.input_x s.last_x) s.pending_dx in
    let delta_y = add32 (sub32 s.input_y s.last_y) s.pending_dy in
    let x = clamp32 (add32 s.device_x delta_x) 767 in
    let y = clamp32 (add32 s.device_y delta_y) 559 in
    let moved = record anchored { pending_dx = 0; pending_dy = 0; device_x = x; device_y = y } in
    let still = record s { pending_dx = 0; pending_dy = 0 } in
    if_both IsValid (leb (2 ^ 31) s.last_x || leb (2 ^ 31) s.last_y) anchored _ (kept v.fits) (
      if_both IsValid (delta_x == 0 && delta_y == 0 && s.input_buttons == s.last_buttons) still
        (report_pointer moved) (kept v.fits)
        (report_pointer-IsValid moved (
          kept (
            refit_position v.fits x y (clamp32-le (add32 s.device_x delta_x) 767)
              (clamp32-le (add32 s.device_y delta_y) 559)))))

-- A delay that runs is that of a channel with bytes to read, and stays so.
count_down-IsValid :
    (d : Option ℕ) (i n : ℕ) (s : SlaveHle)
    → d ≡ countdown_at s i
    → IsValid s
    → IsValid (count_down d i n s)
unfolding count_down
count_down-IsValid none i n s e v = (kept v.fits)
count_down-IsValid (some r) i n s e v =
    let c = channel_at s i in
    let ok : ChannelOk c (some r) =
      subst (ChannelOk c) (sym e) (Aligned-get s.channels s.irq_countdowns i v.fits.aligned) in
    if_both IsValid (leb r n) _ _
      (assert_channel_irq-IsValid (put_countdown i none s) i (
        put_countdown-IsValid s i none (kept v.fits) (record {
          room = ok.room;
          width = ok.width;
          idle = λ _. refl;
          keyboard = λ _. refl;
          player = λ _. refl;
        })))
      (put_countdown-IsValid s i (some (r - n)) (kept v.fits) (record {
        room = ok.room;
        width = ok.width;
        idle = λ h. absurd (never (ok.idle h));
        keyboard = λ h. absurd (never (ok.keyboard h));
        player = λ h. absurd (never (ok.player h));
      }))
  where
    never : {m : ℕ} → some m ≡ none → ⊥
    never h = ground arith

count_down_all-IsValid :
    (l : List ℕ) (n : ℕ) (s : SlaveHle) → IsValid s → IsValid (count_down_all l n s)
unfolding count_down_all
count_down_all-IsValid [] n s v = (kept v.fits)
count_down_all-IsValid (i ∷ l) n s v =
    count_down_all-IsValid l n _ (count_down-IsValid (countdown_at s i) i n s refl (kept v.fits))

count_down_poll-IsValid : (n : ℕ) (s : SlaveHle) → IsValid s → IsValid (count_down_poll n s)
unfolding count_down_poll
count_down_poll-IsValid n s v =
    let due = record s { poll_countdown = poll_interval s } in
    let left = record s { poll_countdown = s.poll_countdown - n } in
    if_both IsValid (s.poll_countdown - n == 0) (poll_inputs due) left
      (poll_inputs-IsValid due (kept v.fits)) (kept v.fits)

pub tick-IsValid : (s : SlaveHle) (n : ℕ) → IsValid s → IsValid (tick s n)
unfolding tick
tick-IsValid s n v = count_down_poll-IsValid n _ (
    count_down_all-IsValid (0 ∷ 1 ∷ 2 ∷ 3 ∷ []) n _
      (service_drive_status_notification-IsValid s (kept v.fits)))
