-- ===== src/Slave/Input.antt =====
-- crates/cdi-core/src/slave.rs: pointer, player-control keys and keyboard, and `tick`.
use edi_emulator.Prelude.{
  ℕ, ◌+◌, ◌-◌, ◌*◌, ◌%◌, ◌^◌, min, max, bit_or, bit_and, Bool, true, false, not, ◌&&◌, ◌||◌, leb,
  ◌==◌, ◌<=>◌, if◌then◌else◌, List, [], ◌∷◌, ◌++◌, Option, none, some, last?, has_bit, field, u8,
  u32,
}
use edi_emulator.Keyboard.{
  KeyboardModifiers, no_modifiers, same_modifiers, remove_first, packet_head, packet_key, or_else,
  u64_max,
}
use edi_emulator.Slave.{SlaveHle, PlayerControlKey, slave_mask, empty_channel, poll_interval}
use edi_emulator.Slave.Channel.{
  channel_at, countdown_at, put_channel, put_countdown, assert_channel_irq, clear_channel_irq,
  prepare_readback, service_keyboard, service_player_control, service_drive_status_notification,
}

-- `a - b`, `a + b` and `a.clamp(0, hi)` of `i32` words.
abbrev pub sub32 : ℕ → ℕ → ℕ
sub32 a b = u32 (a + 2 ^ 32 - b)

abbrev pub add32 : ℕ → ℕ → ℕ
add32 a b = u32 (a + b)

unfoldable pub clamp32 : ℕ → ℕ → ℕ
clamp32 a hi = if leb (2 ^ 31) a then 0 else min a hi

unfoldable pub set_pointer : SlaveHle → ℕ → ℕ → ℕ → SlaveHle
set_pointer s x y buttons = record s { input_x = x; input_y = y; input_buttons = buttons }

unfoldable pub move_pointer : SlaveHle → ℕ → ℕ → ℕ → SlaveHle
move_pointer s dx dy buttons = record s {
  pending_dx = add32 s.pending_dx dx;
  pending_dy = add32 s.pending_dy dy;
  input_buttons = buttons;
}

unfoldable pub set_pointer_absolute : SlaveHle → ℕ → ℕ → ℕ → SlaveHle
unfolding clamp32
set_pointer_absolute s x y buttons = record s {
  input_x = x;
  input_y = y;
  input_buttons = buttons;
  last_x = x;
  last_y = y;
  last_buttons = buttons;
  pending_dx = 0;
  pending_dy = 0;
  device_x = clamp32 x 767;
  device_y = clamp32 y 559;
}

-- `mask & !bit` on a byte.
abbrev pub without_bits : ℕ → ℕ → ℕ
without_bits mask bits = mask - bit_and mask bits

unfoldable pub set_player_control_key : SlaveHle → PlayerControlKey → Bool → SlaveHle
unfolding slave_mask service_player_control
set_player_control_key s key pressed =
    let bit = slave_mask key in
    let next =
      if pressed
      then bit_or s.player_control_mask bit
      else without_bits s.player_control_mask bit in
    let changed = record s { player_control_mask = next } in
    if next == s.player_control_mask
    then s
    else if s.player_control_enabled
    then service_player_control
        (record changed { pending_player_control = s.pending_player_control ++ (0x87, next) ∷ [] })
    else changed

-- A keyboard packet on channel 2 is withdrawn.
unfoldable pub withdraw_keyboard : SlaveHle → SlaveHle
unfolding put_channel clear_channel_irq
withdraw_keyboard s =
    if (channel_at s 2).cmd == 0xa0 then clear_channel_irq (put_channel 2 empty_channel s) 2 else s

unfoldable pub set_keyboard_attached : SlaveHle → Bool → SlaveHle
unfolding withdraw_keyboard
set_keyboard_attached s attached =
    if s.keyboard_attached <=> attached
    then s
    else withdraw_keyboard (record s {
      keyboard_attached = attached;
      keyboard_events_enabled = false;
      keyboard_pressed_keys = [];
      keyboard_modifiers = no_modifiers;
      pending_keyboard = [];
    })

unfoldable pub keyboard_packet : SlaveHle → List ℕ
unfolding packet_head packet_key
keyboard_packet s =
    let key = last? s.keyboard_pressed_keys in
    0xa0 ∷ packet_head s.keyboard_modifiers key ∷ packet_key key ∷ []

abbrev pub same_packet : List ℕ → List ℕ → Bool
same_packet [] [] = true
same_packet [] (b ∷ bs) = false
same_packet (a ∷ q) [] = false
same_packet (a ∷ q) (b ∷ bs) = a == b && same_packet q bs

unfoldable pub set_keyboard_key : SlaveHle → ℕ → Bool → KeyboardModifiers → SlaveHle
unfolding remove_first keyboard_packet service_keyboard
set_keyboard_key s code pressed modifiers =
    let others = remove_first code s.keyboard_pressed_keys in
    let keys = if pressed then others ++ code ∷ [] else others in
    let changed = record s { keyboard_pressed_keys = keys; keyboard_modifiers = modifiers } in
    let packet = keyboard_packet changed in
    if not s.keyboard_attached
    then s
    else if same_packet packet (keyboard_packet s) || not s.keyboard_events_enabled
    then changed
    else service_keyboard (record changed { pending_keyboard = s.pending_keyboard ++ packet ∷ [] })

unfoldable pub set_keyboard_modifiers : SlaveHle → KeyboardModifiers → SlaveHle
unfolding keyboard_packet service_keyboard
set_keyboard_modifiers s modifiers =
    let changed = record s { keyboard_modifiers = modifiers } in
    if not s.keyboard_attached || same_modifiers modifiers s.keyboard_modifiers
    then s
    else if s.keyboard_events_enabled
    then service_keyboard
        (record changed { pending_keyboard = s.pending_keyboard ++ keyboard_packet changed ∷ [] })
    else changed

unfoldable pub button_bits : ℕ → ℕ
button_bits btn =
    let b1 : ℕ = if has_bit btn 0 then bit_or 0x01 0x02 else 0x01 in
    let b2 = if has_bit btn 1 then bit_or b1 0x04 else b1 in
    if has_bit btn 2 then bit_or b2 0x06 else b2

-- The packet of a device position; the position has ten bits a coordinate.
unfoldable pub pointer_packet : ℕ → ℕ → ℕ → List ℕ
pointer_packet x y buttons =
    bit_or (field x 7 3) (u8 (buttons * 2 ^ 3)) ∷ x % 2 ^ 7 ∷ field y 7 3 ∷ y % 2 ^ 7 ∷ []

-- The report of a movement, if polling is active.
unfoldable pub report_pointer : SlaveHle → SlaveHle
unfolding pointer_packet button_bits prepare_readback assert_channel_irq
report_pointer s =
    let packet = pointer_packet s.device_x s.device_y (button_bits s.input_buttons) in
    let queued = prepare_readback s none 0 4 packet 0xf7 in
    if not s.polling_active
    then s
    else if s.pointer_interrupt_enable
    then assert_channel_irq queued 0
    else queued

unfoldable pub poll_inputs : SlaveHle → SlaveHle
unfolding clamp32 report_pointer
poll_inputs s =
    let anchored = record s {
      last_x = s.input_x;
      last_y = s.input_y;
      last_buttons = s.input_buttons;
    } in
    let delta_x = add32 (sub32 s.input_x s.last_x) s.pending_dx in
    let delta_y = add32 (sub32 s.input_y s.last_y) s.pending_dy in
    if leb (2 ^ 31) s.last_x || leb (2 ^ 31) s.last_y
    then anchored
    else if delta_x == 0 && delta_y == 0 && s.input_buttons == s.last_buttons
    then record s { pending_dx = 0; pending_dy = 0 }
    else report_pointer (record anchored {
      pending_dx = 0;
      pending_dy = 0;
      device_x = clamp32 (add32 s.device_x delta_x) 767;
      device_y = clamp32 (add32 s.device_y delta_y) 559;
    })

-- One channel's delayed response, in `tick`.
unfoldable pub count_down : Option ℕ → ℕ → ℕ → SlaveHle → SlaveHle
unfolding put_countdown assert_channel_irq
count_down none channel cycles s = s
count_down (some remaining) channel cycles s =
    if leb remaining cycles
    then assert_channel_irq (put_countdown channel none s) channel
    else put_countdown channel (some (remaining - cycles)) s

unfoldable pub count_down_all : List ℕ → ℕ → SlaveHle → SlaveHle
unfolding count_down
count_down_all [] cycles s = s
count_down_all (i ∷ is) cycles s =
    count_down_all is cycles (count_down (countdown_at s i) i cycles s)

-- The poll timer of `tick`.
unfoldable pub count_down_poll : ℕ → SlaveHle → SlaveHle
unfolding poll_inputs poll_interval
count_down_poll cycles s =
    let left = s.poll_countdown - cycles in
    if left == 0
    then poll_inputs (record s { poll_countdown = poll_interval s })
    else record s { poll_countdown = left }

unfoldable pub tick : SlaveHle → ℕ → SlaveHle
unfolding service_drive_status_notification count_down_all count_down_poll
tick s cycles =
    count_down_poll cycles
      (count_down_all (0 ∷ 1 ∷ 2 ∷ 3 ∷ []) cycles (service_drive_status_notification s))

-- The least of the delays that run.
unfoldable pub least_countdown : List (Option ℕ) → Option ℕ
least_countdown [] = none
least_countdown (none ∷ ds) = least_countdown ds
least_countdown (some d ∷ ds) = some (elim (least_countdown ds) [ none ↦ d | some e ↦ min d e ])

unfoldable pub cycles_until_next_event : SlaveHle → ℕ
unfolding least_countdown
cycles_until_next_event s =
    max (min (or_else (least_countdown s.irq_countdowns) u64_max) s.poll_countdown) 1
