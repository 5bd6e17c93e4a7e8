-- ===== src/Cdic.antt =====
-- crates/cdi-core/src/cdic.rs: the CDIC, the interface to the drive. This file holds its state, the
-- shared RAM with the DSP mailbox, and the interrupt line; the children hold the audio decoder
-- (Adpcm) and playback (Audio), the commands (Transport), the registers (Registers), the sectors
-- (Sector, Subcode, Toc) and the two 75 Hz pumps (Pump).
-- Registers are numbers below their width; the RAM is a function of its 0x4000 byte addresses.
pub mod Adpcm
pub mod Transport
pub mod Audio
pub mod Registers
pub mod Subcode
pub mod Sector
pub mod Pump
pub mod SeekTime
pub mod Duration
pub mod Delivered
pub mod DataBuffer
pub mod Stored
pub mod Delivery
pub mod PumpLaws
pub mod Mailbox
use edi_emulator.Prelude.{
  ℕ, ◌+◌, ◌-◌, ◌*◌, ◌/◌, ◌%◌, ◌^◌, max, Bool, true, false, ◌&&◌, ◌||◌, leb, ◌==◌, if◌then◌else◌,
  List, [], ◌∷◌, Option, none, some, replicate, u8, u16, has_bit,
}
use edi_emulator.Sched.{cpu_clock_hz}
use edi_emulator.Disc.Image.{DiscImage, lba_base}

pub data DiscMode : Type 0 where
  idle mode1 mode2 cdda toc : DiscMode

abbrev pub is_mode2 : DiscMode → Bool
is_mode2 mode2 = true
is_mode2 idle = false
is_mode2 mode1 = false
is_mode2 cdda = false
is_mode2 toc = false

abbrev pub is_cdda : DiscMode → Bool
is_cdda cdda = true
is_cdda idle = false
is_cdda mode1 = false
is_cdda mode2 = false
is_cdda toc = false

abbrev pub is_toc : DiscMode → Bool
is_toc toc = true
is_toc idle = false
is_toc mode1 = false
is_toc mode2 = false
is_toc cdda = false

pub record Cdic : Type 0 where
  pub ram : ℕ → ℕ
  pub command : ℕ
  pub time : ℕ
  pub file : ℕ
  pub channel : ℕ
  pub audio_channel : ℕ
  pub committed_audio_channel : ℕ
  pub audio_buffer : ℕ
  pub x_buffer : ℕ
  pub z_buffer : ℕ
  pub interrupt_vector : ℕ
  pub data_buffer : ℕ
  pub disc_command : ℕ
  pub disc_mode : DiscMode
  pub disc_read_enabled : Bool
  pub stop_after_next_sector : Bool
  pub disc_spinup_counter : ℕ
  pub curr_lba : ℕ
  pub lba_base : ℕ
  pub audio_sector_counter : ℕ
  pub audio_format_sectors : ℕ
  pub decoding_audio_map : Bool
  pub audio_map_stop_requested : Bool
  pub decode_addr : ℕ
  pub realtime_audio_next_write : ℕ
  pub realtime_audio_ready : List Bool
  pub realtime_audio_next_play : ℕ
  pub realtime_audio_counter : ℕ
  pub realtime_audio_playing : Bool
  pub cdda_pending : Option (List ℕ)
  pub atten : List ℕ
  pub xa_last : List ℕ
  pub audio_out : List ℕ
  pub clock_hz : ℕ
  pub sector_accum : ℕ
  pub sector_ticks : ℕ
  pub audio_accum : ℕ
  pub int_line : Bool
  pub read_latch : ℕ
  pub write_latch : ℕ

abbrev pub default_audio_channel : ℕ
default_audio_channel = 0xffff

-- `[0x3C08..=0x3C0D].fill(0xFF)` on zeros.
unfoldable pub default_ram : ℕ → ℕ
default_ram a = if leb 0x3c08 a && leb a 0x3c0d then 0xff else 0

-- The literal of `new`.
unfoldable pub powered : Cdic
unfolding default_ram cpu_clock_hz
powered = record {
  ram = default_ram;
  command = 0;
  time = 0;
  file = 0;
  channel = 0xffff_ffff;
  audio_channel = default_audio_channel;
  committed_audio_channel = default_audio_channel;
  audio_buffer = 0;
  x_buffer = 0;
  z_buffer = 0;
  interrupt_vector = 0x0f;
  data_buffer = 0;
  disc_command = 0;
  disc_mode = idle;
  disc_read_enabled = false;
  stop_after_next_sector = false;
  disc_spinup_counter = 0;
  curr_lba = 0;
  lba_base = 150;
  audio_sector_counter = 0;
  audio_format_sectors = 0;
  decoding_audio_map = false;
  audio_map_stop_requested = false;
  decode_addr = 0;
  realtime_audio_next_write = 0;
  realtime_audio_ready = false ∷ false ∷ [];
  realtime_audio_next_play = 0;
  realtime_audio_counter = 0;
  realtime_audio_playing = false;
  cdda_pending = none;
  atten = replicate 4 0;
  xa_last = replicate 4 0;
  audio_out = [];
  clock_hz = cpu_clock_hz true;
  sector_accum = 0;
  sector_ticks = 0;
  audio_accum = 0;
  int_line = false;
  read_latch = 0;
  write_latch = 0;
}

-- The shared RAM. Addresses wrap at 0x4000.
unfoldable pub ram_read8 : Cdic → ℕ → ℕ
ram_read8 c offset = c.ram (offset % 0x4000)

abbrev pub put_byte : (ℕ → ℕ) → ℕ → ℕ → ℕ → ℕ
put_byte ram a v b = if b == a then v else ram b

unfoldable pub ram_write8 : Cdic → ℕ → ℕ → Cdic
ram_write8 c offset v = record c { ram = put_byte c.ram (offset % 0x4000) v }

unfoldable pub ram_read16 : Cdic → ℕ → ℕ
unfolding ram_read8
ram_read16 c offset = ram_read8 c offset * 2 ^ 8 + ram_read8 c (offset + 1)

unfoldable pub ram_write16 : Cdic → ℕ → ℕ → Cdic
unfolding ram_write8
ram_write16 c offset data16 =
    ram_write8 (ram_write8 c offset (data16 / 2 ^ 8)) (offset + 1) (u8 data16)

-- `(x & 0x0000FFFF) | (data << 16)` and `(x & 0xFFFF0000) | data`
abbrev pub with_upper : ℕ → ℕ → ℕ
with_upper x data16 = data16 * 2 ^ 16 + x % 2 ^ 16

abbrev pub with_lower : ℕ → ℕ → ℕ
with_lower x data16 = x / 2 ^ 16 * 2 ^ 16 + data16

-- The mailbox register at an offset takes a word.
unfoldable pub set_mailbox : Cdic → ℕ → ℕ → Cdic
set_mailbox c offset data16 =
    if offset == 0x3c00
    then record c { command = data16 }
    else if offset == 0x3c02
    then record c { time = with_upper c.time data16 }
    else if offset == 0x3c04
    then record c { time = with_lower c.time data16 }
    else if offset == 0x3c06
    then record c { file = data16 }
    else if offset == 0x3c08
    then record c { channel = with_upper c.channel data16 }
    else if offset == 0x3c0a
    then record c { channel = with_lower c.channel data16 }
    else if offset == 0x3c0c
    then record c { audio_channel = data16 }
    else c

unfoldable pub load_mailbox_word_from_ram : Cdic → ℕ → Cdic
unfolding set_mailbox ram_read16
load_mailbox_word_from_ram c offset = set_mailbox c offset (ram_read16 c offset)

abbrev pub load_words : List ℕ → Cdic → Cdic
load_words [] c = c
load_words (offset ∷ offsets) c = load_words offsets (load_mailbox_word_from_ram c offset)

-- `(DSP_MAILBOX_START..=DSP_MAILBOX_END).step_by(2)`
abbrev pub mailbox_offsets : List ℕ
mailbox_offsets = 0x3c00 ∷ 0x3c02 ∷ 0x3c04 ∷ 0x3c06 ∷ 0x3c08 ∷ 0x3c0a ∷ 0x3c0c ∷ []

unfoldable pub load_mailbox_fields_from_ram : Cdic → Cdic
unfolding load_mailbox_word_from_ram
load_mailbox_fields_from_ram c = load_words mailbox_offsets c

-- The mailbox register at an offset.
unfoldable pub mailbox_register : Cdic → ℕ → ℕ
mailbox_register c offset =
    if offset == 0x3c00
    then c.command
    else if offset == 0x3c02
    then c.time / 2 ^ 16
    else if offset == 0x3c04
    then u16 c.time
    else if offset == 0x3c06
    then c.file
    else if offset == 0x3c08
    then c.channel / 2 ^ 16
    else if offset == 0x3c0a
    then u16 c.channel
    else c.audio_channel

abbrev pub store_words : List ℕ → Cdic → Cdic
store_words [] c = c
store_words (offset ∷ offsets) c =
    store_words offsets (ram_write16 c offset (mailbox_register c offset))

unfoldable pub store_mailbox_fields_in_ram : Cdic → Cdic
unfolding ram_write16 mailbox_register
store_mailbox_fields_in_ram c = store_words mailbox_offsets c

unfoldable pub new : Cdic
unfolding powered store_mailbox_fields_in_ram
new = store_mailbox_fields_in_ram powered

unfoldable pub reset : Cdic → Cdic
unfolding new load_mailbox_fields_from_ram
reset c = load_mailbox_fields_from_ram (record new { ram = c.ram; clock_hz = c.clock_hz })

unfoldable pub power_cycle : Cdic → Cdic
unfolding new
power_cycle c = record new { clock_hz = c.clock_hz }

unfoldable pub set_clock_hz : Cdic → ℕ → Cdic
set_clock_hz c hz = record c { clock_hz = max hz 1; sector_accum = 0; audio_accum = 0 }

unfoldable pub intack : Cdic → ℕ
intack c = u8 c.interrupt_vector

-- `to_be_bytes`
unfoldable pub set_attenuation : Cdic → ℕ → Cdic
set_attenuation c state = record c {
  atten = state / 2 ^ 24 ∷ u8 (state / 2 ^ 16) ∷ u8 (state / 2 ^ 8) ∷ u8 state ∷ [];
}

abbrev pub base_of : {F : Type 0} → Option (DiscImage F) → ℕ
base_of none = 150
base_of (some disc) = lba_base disc.tracks

unfoldable pub set_disc_layout : {F : Type 0} → Cdic → Option (DiscImage F) → Cdic
unfolding lba_base
set_disc_layout c disc = record c { lba_base = base_of disc }

-- AUDCTL bit 13 enables the interrupts of the sound map.
unfoldable pub update_interrupt_state : Cdic → Cdic
update_interrupt_state c = record c {
  int_line = has_bit c.x_buffer 15 || (has_bit c.audio_buffer 15 && has_bit c.z_buffer 13);
}
