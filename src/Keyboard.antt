-- ===== src/Keyboard.antt =====
-- crates/cdi-core/src/keyboard.rs: the K-mode keyboard on the UART. Cycle counts are 64-bit words,
-- characters are bytes; `VecDeque` and `Vec` are lists.
pub mod Line
pub mod Held
pub mod Packet
pub mod Identify
use edi_emulator.Prelude.{
  ℕ, ◌+◌, ◌-◌, ◌*◌, ◌/◌, ◌%◌, ◌^◌, min, max, bit_or, bit_of, Bool, true, false, not, ◌&&◌, ◌||◌,
  ltb, leb, ◌==◌, ◌<=>◌, if◌then◌else◌, List, [], ◌∷◌, ◌++◌, last?, Option, none, some, u64,
}

abbrev pub baud : ℕ
baud = 1_200

abbrev pub bits_per_character : ℕ
bits_per_character = 10

abbrev pub recognition_low_ms : ℕ
recognition_low_ms = 10

abbrev pub power_on_id_ms : ℕ
power_on_id_ms = 100

abbrev pub k_mode_id : ℕ
k_mode_id = 0xcb

abbrev pub u64_max : ℕ
u64_max = 0xffff_ffff_ffff_ffff

pub record KeyboardModifiers : Type 0 where
  pub shift : Bool
  pub caps_lock : Bool
  pub supershift : Bool
  pub control : Bool

abbrev pub no_modifiers : KeyboardModifiers
no_modifiers = record { shift = false; caps_lock = false; supershift = false; control = false }

abbrev pub same_modifiers : KeyboardModifiers → KeyboardModifiers → Bool
same_modifiers m n =
    (m.shift <=> n.shift)
    && (m.caps_lock <=> n.caps_lock)
    && (m.supershift <=> n.supershift)
    && (m.control <=> n.control)

unfoldable pub packet_bits : KeyboardModifiers → ℕ
packet_bits m =
    bit_or (bit_or (bit_or (bit_of m.shift) (bit_of m.caps_lock * 2)) (bit_of m.supershift * 4))
      (bit_of m.control * 8)

pub record KeyboardKMode : Type 0 where
  pub attached : Bool
  pub clock_hz : ℕ
  pub rts_asserted : Bool
  pub rts_low_cycles : ℕ
  pub pending : List ℕ
  pub tx_countdown : Option ℕ
  pub power_on_countdown : Option ℕ
  pub power_on_id_pending : Bool
  pub pressed_keys : List ℕ
  pub modifiers : KeyboardModifiers

abbrev pub div_ceil : ℕ → ℕ → ℕ
div_ceil a b = if a % b == 0 then a / b else a / b + 1

unfoldable pub bit_cycles : KeyboardKMode → ℕ
bit_cycles k = div_ceil k.clock_hz baud

unfoldable pub character_cycles : KeyboardKMode → ℕ
unfolding bit_cycles
character_cycles k = u64 (bit_cycles k * bits_per_character)

unfoldable pub recognition_low_cycles : KeyboardKMode → ℕ
recognition_low_cycles k = u64 (div_ceil k.clock_hz 1_000 * recognition_low_ms)

unfoldable pub power_on_id_cycles : KeyboardKMode → ℕ
power_on_id_cycles k = u64 (div_ceil k.clock_hz 1_000 * power_on_id_ms)

unfoldable pub new : ℕ → KeyboardKMode
new clock_hz = record {
  attached = false;
  clock_hz = clock_hz;
  rts_asserted = false;
  rts_low_cycles = 0;
  pending = [];
  tx_countdown = none;
  power_on_countdown = none;
  power_on_id_pending = false;
  pressed_keys = [];
  modifiers = no_modifiers;
}

unfoldable pub reset_serial_state : KeyboardKMode → KeyboardKMode
reset_serial_state k = record k {
  rts_asserted = false;
  rts_low_cycles = 0;
  pending = [];
  tx_countdown = none;
  power_on_countdown = none;
  power_on_id_pending = false;
  pressed_keys = [];
  modifiers = no_modifiers;
}

unfoldable pub reset : KeyboardKMode → KeyboardKMode
unfolding reset_serial_state power_on_id_cycles
reset k = record (reset_serial_state k) {
  power_on_countdown = if k.attached then some (power_on_id_cycles k) else none;
}

unfoldable pub set_attached : KeyboardKMode → Bool → KeyboardKMode
unfolding reset_serial_state power_on_id_cycles
set_attached k attached = record (reset_serial_state k) {
  attached = attached;
  power_on_countdown = if attached then some (power_on_id_cycles k) else none;
}

unfoldable pub set_clock_hz : KeyboardKMode → ℕ → KeyboardKMode
set_clock_hz k clock_hz = record k { clock_hz = clock_hz }

unfoldable pub queue_identification : KeyboardKMode → ℕ → KeyboardKMode
queue_identification k delay = record k { pending = k_mode_id ∷ []; tx_countdown = some delay }

-- `set_rts` after the level has changed to asserted, on an attached keyboard.
unfoldable pub rts_rise : KeyboardKMode → KeyboardKMode
unfolding queue_identification character_cycles bit_cycles recognition_low_cycles
rts_rise k =
    if k.power_on_id_pending
    then queue_identification (record k { power_on_id_pending = false }) (character_cycles k)
    else if leb (recognition_low_cycles k) k.rts_low_cycles
    then queue_identification (record k { power_on_countdown = none; power_on_id_pending = false })
        (u64 (bit_cycles k + character_cycles k))
    else k

unfoldable pub set_rts : KeyboardKMode → Bool → KeyboardKMode
unfolding rts_rise
set_rts k asserted =
    let changed = record k { rts_asserted = asserted } in
    if asserted <=> k.rts_asserted
    then k
    else if not k.attached
    then changed
    else if not asserted
    then record changed { pending = []; tx_countdown = none; rts_low_cycles = 0 }
    else rts_rise changed

-- `position` and `remove`: the first occurrence goes.
unfoldable pub remove_first : ℕ → List ℕ → List ℕ
remove_first code [] = []
remove_first code (x ∷ xs) = let rest = remove_first code xs in if x == code then xs else x ∷ rest

abbrev pub has_some {ℓ} : {A : Type ℓ} → Option A → Bool
has_some none = false
has_some (some a) = true

abbrev pub or_else : Option ℕ → ℕ → ℕ
or_else none d = d
or_else (some n) d = n

unfoldable pub packet_head : KeyboardModifiers → Option ℕ → ℕ
unfolding packet_bits
packet_head m key =
    bit_or (bit_or (bit_or 0x80 (packet_bits m * 8)) (if has_some key then 0 else 0x02))
      (or_else key 0 / 2 ^ 7 % 2)

unfoldable pub packet_key : Option ℕ → ℕ
packet_key key = or_else key 0 % 2 ^ 7

unfoldable pub queue_state_packet : KeyboardKMode → KeyboardKMode
unfolding packet_head packet_key character_cycles
queue_state_packet k =
    let key = last? k.pressed_keys in
    record k {
      pending = k.pending ++ packet_head k.modifiers key ∷ packet_key key ∷ [];
      tx_countdown =
          if k.rts_asserted && not (has_some k.tx_countdown)
          then some (character_cycles k)
          else k.tx_countdown;
    }

unfoldable pub set_key : KeyboardKMode → ℕ → Bool → KeyboardModifiers → KeyboardKMode
unfolding remove_first queue_state_packet
set_key k code pressed modifiers =
    let others = remove_first code k.pressed_keys in
    let held = if pressed then others ++ code ∷ [] else others in
    if not k.attached
    then k
    else queue_state_packet (record k { pressed_keys = held; modifiers = modifiers })

unfoldable pub set_modifiers : KeyboardKMode → KeyboardModifiers → KeyboardKMode
unfolding queue_state_packet
set_modifiers k modifiers =
    if not k.attached || same_modifiers modifiers k.modifiers
    then k
    else queue_state_packet (record k { modifiers = modifiers })
