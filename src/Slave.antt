-- ===== src/Slave.antt =====
-- crates/cdi-core/src/slave.rs: the high-level SLAVE microcontroller. This file holds its state,
-- the power-on state and the operations that keep to single fields; the children hold the output
-- channels, the input devices and the two ports.
-- Bytes, counts and clocks are numbers below their width, an `i32` is its two's complement word,
-- arrays and queues are lists. The four channels are numbered 0 to 3.
pub mod Channel
pub mod Input
pub mod Port
pub mod Aligned
pub mod Valid
pub mod ReadValid
pub mod InputValid
pub mod PortValid
pub mod Reachable
pub mod Served
pub mod Stream
pub mod Stuck
pub mod Query
use edi_emulator.Prelude.{
  ℕ, ◌+◌, ◌-◌, ◌*◌, ◌/◌, ◌%◌, ◌^◌, bit_or, Bool, true, false, not, ◌&&◌, ◌||◌, ltb, leb, ◌==◌,
  if◌then◌else◌, List, [], ◌∷◌, ◌++◌, Option, none, some, replicate, get_or, set, length, take,
  drop, u32,
}
use edi_emulator.Sched.{cpu_clock_hz}
use edi_emulator.Keyboard.{KeyboardModifiers, no_modifiers}

abbrev pub disc_type_cdi : ℕ
disc_type_cdi = 0x02

abbrev pub disc_type_cd_rom_xa_bridge : ℕ
disc_type_cd_rom_xa_bridge = 0x04

-- x, y and the button code of a pointer packet; the parts joined by `|` are disjoint bits.
unfoldable pub pointer_packet_fields : List ℕ → ℕ × ℕ × ℕ
pointer_packet_fields packet = (
  get_or packet 0 0 % 2 ^ 3 * 2 ^ 7 + get_or packet 1 0 % 2 ^ 7,
  get_or packet 2 0 % 2 ^ 3 * 2 ^ 7 + get_or packet 3 0 % 2 ^ 7,
  get_or packet 0 0 / 2 ^ 3 % 2 ^ 3,
)

pub record OutChannel : Type 0 where
  pub buf : List ℕ
  pub index : ℕ
  pub count : ℕ
  pub cmd : ℕ

abbrev pub empty_channel : OutChannel
empty_channel = record { buf = 0 ∷ 0 ∷ 0 ∷ 0 ∷ []; index = 0; count = 0; cmd = 0 }

pub record PendingReadback : Type 0 where
  pub delay : Option ℕ
  pub count : ℕ
  pub data_bytes : List ℕ
  pub cmd : ℕ

pub data PlayerControlKey : Type 0 where
  play stop pause next previous : PlayerControlKey

unfoldable pub slave_mask : PlayerControlKey → ℕ
slave_mask play = 0x20
slave_mask stop = 0x04
slave_mask pause = 0x10
slave_mask next = 0x01
slave_mask previous = 0x02

pub record SlaveHle : Type 0 where
  pub channels : List OutChannel
  pub in_buf : List ℕ
  pub in_index : ℕ
  pub in_count : ℕ
  pub polling_active : Bool
  pub pointer_interrupt_enable : Bool
  pub xbus_interrupt_enable : Bool
  pub player_control_enabled : Bool
  pub player_control_mask : ℕ
  pub pending_player_control : List (ℕ × ℕ)
  pub keyboard_attached : Bool
  pub keyboard_events_enabled : Bool
  pub keyboard_pressed_keys : List ℕ
  pub keyboard_modifiers : KeyboardModifiers
  pub pending_keyboard : List (List ℕ)
  pub pending_channel2_readbacks : List PendingReadback
  pub lcd_state : List ℕ
  pub version : ℕ × ℕ
  pub video_status : ℕ
  pub boot_status : ℕ
  pub host_reset_requested : Bool
  pub disc_boot_mode : Bool
  pub disc_type_code : ℕ
  pub disc_present : Bool
  pub pending_drive_status : List (List ℕ)
  pub transport_adjust_enabled : Bool
  pub transport_parameter_bytes : ℕ
  pub transport_repeat_delay : ℕ
  pub input_x : ℕ
  pub input_y : ℕ
  pub input_buttons : ℕ
  pub device_x : ℕ
  pub device_y : ℕ
  pub last_x : ℕ
  pub last_y : ℕ
  pub last_buttons : ℕ
  pub pending_dx : ℕ
  pub pending_dy : ℕ
  pub attenuation : Option ℕ
  pub clock_hz : ℕ
  pub irq_asserted : Bool
  pub irq_pending_channels : ℕ
  pub irq_countdowns : List (Option ℕ)
  pub poll_countdown : ℕ

-- `-1` as an `i32`.
abbrev pub minus_one : ℕ
minus_one = 2 ^ 32 - 1

abbrev pub video_status_of : Bool → ℕ
video_status_of pal = if pal then 2 else 1

-- The literal of `new`, from the version bytes.
unfoldable pub initial : ℕ × ℕ → Bool → SlaveHle
unfolding cpu_clock_hz
initial version pal = record {
  channels = replicate 4 empty_channel;
  in_buf = replicate 17 0;
  in_index = 0;
  in_count = 0;
  polling_active = false;
  pointer_interrupt_enable = false;
  xbus_interrupt_enable = false;
  player_control_enabled = false;
  player_control_mask = 0;
  pending_player_control = [];
  keyboard_attached = false;
  keyboard_events_enabled = false;
  keyboard_pressed_keys = [];
  keyboard_modifiers = no_modifiers;
  pending_keyboard = [];
  pending_channel2_readbacks = [];
  lcd_state = replicate 16 0;
  version = version;
  video_status = video_status_of pal;
  boot_status = 0;
  host_reset_requested = false;
  disc_boot_mode = false;
  disc_type_code = disc_type_cdi;
  disc_present = false;
  pending_drive_status = [];
  transport_adjust_enabled = false;
  transport_parameter_bytes = 0;
  transport_repeat_delay = 0x0a;
  input_x = 0;
  input_y = 0;
  input_buttons = 0;
  device_x = 0;
  device_y = 0;
  last_x = minus_one;
  last_y = minus_one;
  last_buttons = 0;
  pending_dx = 0;
  pending_dy = 0;
  attenuation = none;
  clock_hz = cpu_clock_hz pal;
  irq_asserted = false;
  irq_pending_channels = 0;
  irq_countdowns = replicate 4 none;
  poll_countdown = cpu_clock_hz pal / 60;
}

abbrev pub or_zero : Option ℕ → ℕ
or_zero none = 0
or_zero (some n) = n

-- `new`; `parse_hex` is the standard library's `u8::from_str_radix` at 16.
unfoldable pub new : (List ℕ → Option ℕ) → List ℕ → Bool → SlaveHle
unfolding initial
new parse_hex version pal =
    initial
      (if leb 4 (length version)
        then (or_zero (parse_hex (take 2 version)), or_zero (parse_hex (take 2 (drop 2 version))))
        else (0x32, 0x31))
      pal

unfoldable pub readback_delay : SlaveHle → ℕ
readback_delay s = s.clock_hz / 10_000

unfoldable pub poll_interval : SlaveHle → ℕ
poll_interval s = s.clock_hz / 60

unfoldable pub set_video_standard : SlaveHle → Bool → SlaveHle
unfolding cpu_clock_hz
set_video_standard s pal = record s {
  video_status = video_status_of pal;
  clock_hz = cpu_clock_hz pal;
  poll_countdown = cpu_clock_hz pal / 60;
}

unfoldable pub reset : SlaveHle → SlaveHle
unfolding initial
reset s = record (initial (0x32, 0x31) true) {
  version = s.version;
  video_status = s.video_status;
  disc_type_code = s.disc_type_code;
  disc_present = s.disc_present;
  keyboard_attached = s.keyboard_attached;
  clock_hz = s.clock_hz;
  poll_countdown = s.clock_hz / 60;
}

unfoldable pub take_attenuation : SlaveHle → SlaveHle × Option ℕ
take_attenuation s = (record s { attenuation = none }, s.attenuation)

unfoldable pub take_host_reset_request : SlaveHle → SlaveHle × Bool
take_host_reset_request s = (record s { host_reset_requested = false }, s.host_reset_requested)

unfoldable pub set_cd_rom_xa_bridge : SlaveHle → Bool → SlaveHle
set_cd_rom_xa_bridge s bridge = record s {
  disc_type_code = if bridge then disc_type_cd_rom_xa_bridge else disc_type_cdi;
}

unfoldable pub set_disc_present : SlaveHle → Bool → SlaveHle
set_disc_present s present = record s {
  disc_present = present;
  disc_boot_mode = false;
  pending_drive_status = [];
}

unfoldable pub drive_status_packet : SlaveHle → List ℕ
drive_status_packet s =
    let flags =
      if s.disc_present
      then bit_or s.disc_type_code (if s.disc_boot_mode then 0x40 else 0x00)
      else 0 in
    0xb0 ∷ 0x00 ∷ flags ∷ 0x15 ∷ []

unfoldable pub clear_input : SlaveHle → SlaveHle
clear_input s = record s { in_buf = replicate 17 0; in_index = 0; in_count = 0 }
