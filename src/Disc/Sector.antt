-- ===== src/Disc/Sector.antt =====
-- crates/cdi-disc/src/sector.rs: sync pattern, header and Mode 2 subheader of a raw sector. A
-- sector is the list of its bytes.
use edi_emulator.Prelude.{
  ℕ, ◌+◌, ◌*◌, ◌/◌, ◌%◌, ◌^◌, Bool, true, false, ◌&&◌, ◌||◌, ltb, leb, ◌==◌, if◌then◌else◌, List,
  [], ◌∷◌, Option, none, some, ◌>>=◌, length, get_or, take, has_bit,
}

abbrev pub sync_pattern : List ℕ
sync_pattern =
    0x00 ∷ 0xff ∷ 0xff ∷ 0xff ∷ 0xff ∷ 0xff ∷ 0xff ∷ 0xff ∷ 0xff ∷ 0xff ∷ 0xff ∷ 0x00 ∷ []

abbrev pub same_bytes : List ℕ → List ℕ → Bool
same_bytes [] [] = true
same_bytes [] (y ∷ ys) = false
same_bytes (x ∷ xs) [] = false
same_bytes (x ∷ xs) (y ∷ ys) = x == y && same_bytes xs ys

unfoldable pub has_sync : List ℕ → Bool
has_sync sector = leb 12 (length sector) && same_bytes (take 12 sector) sync_pattern

pub record SectorHeader : Type 0 where
  pub minute : ℕ
  pub second : ℕ
  pub frame : ℕ
  pub mode : ℕ

unfoldable pub from_bcd : ℕ → Option ℕ
from_bcd v =
    if ltb 9 (v / 2 ^ 4) || ltb 9 (v % 2 ^ 4) then none else some (v / 2 ^ 4 * 10 + v % 2 ^ 4)

unfoldable pub header_of : ℕ → ℕ → ℕ → ℕ → Option SectorHeader
unfolding from_bcd
header_of a b c mode = do
  minute ← from_bcd a
  second ← from_bcd b
  frame ← from_bcd c
  if leb 60 second || leb 75 frame || ltb 2 mode
      then none
      else some (record { minute = minute; second = second; frame = frame; mode = mode })

-- `SectorHeader::parse`; the reads are within the sector, whose length is tested first.
unfoldable pub parse : List ℕ → Option SectorHeader
unfolding header_of
parse sector =
    if ltb (length sector) 16
    then none
    else header_of (get_or sector 12 0) (get_or sector 13 0) (get_or sector 14 0)
        (get_or sector 15 0)

unfoldable pub abs_frame : SectorHeader → ℕ
abs_frame h = h.minute * 60 * 75 + h.second * 75 + h.frame

pub record Mode2Subheader : Type 0 where
  pub file : ℕ
  pub channel : ℕ
  pub submode : ℕ
  pub coding : ℕ

unfoldable pub parse_subheader : List ℕ → Option Mode2Subheader
parse_subheader sector =
    if ltb (length sector) 24
    then none
    else some (record {
      file = get_or sector 16 0;
      channel = get_or sector 17 0;
      submode = get_or sector 18 0;
      coding = get_or sector 19 0;
    })

unfoldable pub is_video : Mode2Subheader → Bool
is_video h = has_bit h.submode 1

unfoldable pub is_audio : Mode2Subheader → Bool
is_audio h = has_bit h.submode 2

unfoldable pub is_data : Mode2Subheader → Bool
is_data h = has_bit h.submode 3

unfoldable pub is_form2 : Mode2Subheader → Bool
is_form2 h = has_bit h.submode 5

unfoldable pub is_realtime : Mode2Subheader → Bool
is_realtime h = has_bit h.submode 6

-- The half-open range of the user data.
unfoldable pub user_data_range : Mode2Subheader → ℕ × ℕ
unfolding is_form2
user_data_range h = if is_form2 h then (24, 24 + 2324) else (24, 24 + 2048)
