-- ===== src/Disc.antt =====
-- crates/cdi-disc/src/lib.rs: addresses in minutes, seconds and frames. The text form of an
-- address (`Msf::parse`, `Display`) is not modelled.
pub mod Sector
pub mod Scramble
pub mod Headers
pub mod Text
pub mod KeyStream
pub mod Involution
pub mod Image
use edi_emulator.Prelude.{ℕ, ◌+◌, ◌*◌, ◌/◌, ◌%◌, ◌≡◌, arith, ap, u8, List, [], ◌∷◌, bit_or}

abbrev pub raw_sector_size : ℕ
raw_sector_size = 2352

pub record Msf : Type 0 where
  pub m : ℕ
  pub s : ℕ
  pub f : ℕ

unfoldable pub from_frames : ℕ → Msf
from_frames frames = record {
  m = u8 (frames / (60 * 75));
  s = u8 (frames / 75 % 60);
  f = u8 (frames % 75);
}

unfoldable pub to_frames : Msf → ℕ
to_frames a = a.m * 60 * 75 + a.s * 75 + a.f

-- `((v / 10) << 4) | (v % 10)` on a byte
unfoldable pub bcd : ℕ → ℕ
bcd v = bit_or (u8 (v / 10 * 16)) (v % 10)

unfoldable pub to_bcd : Msf → List ℕ
unfolding bcd
to_bcd a = bcd a.m ∷ bcd a.s ∷ bcd a.f ∷ []
