-- ===== src/Disc/Image.antt =====
-- crates/cdi-disc/src/image.rs: a loaded disc, laid out in absolute frames, and its sectors. The
-- data of a parsed CUE sheet is that of cuesheet.rs. Paths `P` and files `F` are abstract: `open_file`
-- gives a file and its length, `read_at` the 2352 bytes at an offset (`seek` and `read_exact`).
-- An error is `none`, without its message.
pub mod Layout
pub mod Recovery
use edi_emulator.Prelude.{
  ℕ, ◌+◌, ◌-◌, ◌*◌, ◌/◌, ◌%◌, Bool, true, false, not, ◌&&◌, ltb, leb, ◌==◌, if◌then◌else◌, List, [],
  ◌∷◌, ◌++◌, Option, none, some, ◌>>=◌, replicate, take, drop, u32,
}
use edi_emulator.Disc.{raw_sector_size, Msf, from_frames}
use edi_emulator.Disc.Sector.{
  has_sync, parse, parse_subheader, is_form2, user_data_range, same_bytes, SectorHeader,
  Mode2Subheader,
}
use edi_emulator.Disc.Scramble.{descramble_in_place}

abbrev pub normal_lba_base : ℕ
normal_lba_base = 150

abbrev pub volume_descriptor_lba : ℕ
volume_descriptor_lba = 16

-- b"\x01CD001\x01\x00", b"CD-RTOS CD-BRIDGE" and b"CD-XA001"
abbrev pub iso_pvd_header : List ℕ
iso_pvd_header = 0x01 ∷ 0x43 ∷ 0x44 ∷ 0x30 ∷ 0x30 ∷ 0x31 ∷ 0x01 ∷ 0x00 ∷ []

abbrev pub cd_rtos_bridge_system_id : List ℕ
cd_rtos_bridge_system_id =
    0x43 ∷ 0x44 ∷ 0x2d ∷ 0x52 ∷ 0x54 ∷ 0x4f ∷ 0x53 ∷ 0x20 ∷ 0x43 ∷ 0x44 ∷ 0x2d ∷ 0x42 ∷ 0x52 ∷ 0x49
    ∷ 0x44 ∷ 0x47 ∷ 0x45 ∷ []

abbrev pub cd_xa_signature : List ℕ
cd_xa_signature = 0x43 ∷ 0x44 ∷ 0x2d ∷ 0x58 ∷ 0x41 ∷ 0x30 ∷ 0x30 ∷ 0x31 ∷ []

pub data TrackMode : Type 0 where
  audio cdi_2352 mode1_2352 mode2_2352 : TrackMode

-- An index is its number and its offset in frames.
pub record CueTrack : Type 0 where
  pub number : ℕ
  pub mode : TrackMode
  pub indexes : List (ℕ × ℕ)

pub record CueFile (P : Type 0) : Type 0 where
  pub path : P
  pub tracks : List CueTrack

pub record TrackInfo : Type 0 where
  pub number : ℕ
  pub mode : TrackMode
  pub region_start : ℕ
  pub start : ℕ
  pub end : ℕ

pub record FileRegion (F : Type 0) : Type 0 where
  pub file : F
  pub start_abs : ℕ
  pub sectors : ℕ

pub record DiscImage (F : Type 0) : Type 0 where
  pub regions : List (FileRegion F)
  pub tracks : List TrackInfo
  pub leadout : ℕ

unfoldable pub find_index : ℕ → List (ℕ × ℕ) → Option ℕ
find_index n [] = none
find_index n (i ∷ is) = let rest = find_index n is in if i.0 == n then some i.1 else rest

-- `indexes.first().map_or(default, |&(_, off)| off)`
abbrev pub first_offset : ℕ → List (ℕ × ℕ) → ℕ
first_offset default [] = default
first_offset default (i ∷ is) = i.1

-- Where a track's region ends: the first index of the next track, or the end of the file.
unfoldable pub region_end : ℕ → List CueTrack → ℕ
region_end sectors [] = sectors
region_end sectors (t ∷ ts) = first_offset sectors t.indexes

unfoldable pub track_infos : ℕ → ℕ → List CueTrack → Option (List TrackInfo)
unfolding find_index region_end
track_infos file_start sectors [] = some []
track_infos file_start sectors (t ∷ ts) = do
  index1 ← find_index 1 t.indexes
  rest ← track_infos file_start sectors ts
  some (
      record {
        number = t.number;
        mode = t.mode;
        region_start = u32 (file_start + first_offset 0 t.indexes);
        start = u32 (file_start + index1);
        end = u32 (file_start + region_end sectors ts);
      }
      ∷ rest)

unfoldable pub all_tracks : {P : Type 0} → List (CueFile P) → List CueTrack
all_tracks [] = []
all_tracks (c ∷ cs) = c.tracks ++ all_tracks cs

abbrev pub is_some {ℓ} : {A : Type ℓ} → Option A → Bool
is_some none = false
is_some (some a) = true

-- The implicit pregap, unless the first track stores INDEX 00.
unfoldable pub first_frame : List CueTrack → Option ℕ
unfolding find_index
first_frame [] = none
first_frame (t ∷ ts) = some (if is_some (find_index 0 t.indexes) then 0 else 150)

abbrev pub sectors_of : ℕ → ℕ
sectors_of len = u32 (len / raw_sector_size)

module _ {P F : Type 0} (open_file : P → Option (F × ℕ)) where
  -- The loop of `load` over the files, from the frame `abs` on.
  unfoldable pub load_files : ℕ → List (CueFile P) → Option (DiscImage F)
  unfolding track_infos
  load_files abs [] = some (record { regions = []; tracks = []; leadout = abs })
  load_files abs (c ∷ cs) = do
    opened ← open_file c.path
    if not (opened.1 % raw_sector_size == 0) then none else (do
      infos ← track_infos abs (sectors_of opened.1) c.tracks
      rest ← load_files (u32 (abs + sectors_of opened.1)) cs
      some (record {
        regions =
            record { file = opened.0; start_abs = abs; sectors = sectors_of opened.1 }
            ∷ rest.regions;
        tracks = infos ++ rest.tracks;
        leadout = rest.leadout;
      }))

  -- `load` after `parse_cue`.
  unfoldable pub load : List (CueFile P) → Option (DiscImage F)
  unfolding first_frame all_tracks load_files
  load cue_files = do abs ← first_frame (all_tracks cue_files); load_files abs cue_files

unfoldable pub track_at : List TrackInfo → ℕ → Option TrackInfo
track_at [] abs = none
track_at (t ∷ ts) abs =
    let rest = track_at ts abs in if leb t.region_start abs && ltb abs t.end then some t else rest

unfoldable pub leadout_msf : {F : Type 0} → DiscImage F → Msf
unfolding from_frames
leadout_msf image = from_frames image.leadout

unfoldable pub region_at : {F : Type 0} → List (FileRegion F) → ℕ → Option (FileRegion F)
region_at [] abs = none
region_at (r ∷ rs) abs =
    let rest = region_at rs abs in
    if leb r.start_abs abs && ltb abs (u32 (r.start_abs + r.sectors)) then some r else rest

-- `read_sector_data` on the raw sector.
unfoldable pub for_data : List ℕ → List ℕ
unfolding has_sync parse descramble_in_place
for_data sector =
    let candidate = descramble_in_place sector in
    if has_sync sector && not (is_some (parse sector))
    then if is_some (parse candidate) then candidate else sector
    else sector

module _ {F : Type 0} (read_at : F → ℕ → Option (List ℕ)) where
  -- The read of a sector of the region that was found, or the zeros of the pregap.
  unfoldable pub read_region : Option (FileRegion F) → ℕ → Option (List ℕ)
  read_region none abs = some (replicate 2352 0)
  read_region (some r) abs = read_at r.file ((abs - r.start_abs) * raw_sector_size)

  unfoldable pub read_sector_raw : DiscImage F → ℕ → Option (List ℕ)
  unfolding region_at read_region
  read_sector_raw image abs =
      if leb image.leadout abs then none else read_region (region_at image.regions abs) abs

  unfoldable pub read_sector_data : DiscImage F → ℕ → Option (List ℕ)
  unfolding read_sector_raw for_data
  read_sector_data image abs = do sector ← read_sector_raw image abs; some (for_data sector)

abbrev pub starts_with : List ℕ → List ℕ → Bool
starts_with bytes [] = true
starts_with [] (y ∷ ys) = false
starts_with (x ∷ xs) (y ∷ ys) = x == y && starts_with xs ys

-- `is_cd_rom_xa_bridge` on the sector of the volume descriptor; a sector has 2352 bytes, so that
-- the ranges of the user data exist.
unfoldable pub is_bridge_sector : List ℕ → Option SectorHeader → Option Mode2Subheader → Bool
unfolding user_data_range is_form2
is_bridge_sector sector none sub = false
is_bridge_sector sector (some header) none = false
is_bridge_sector sector (some header) (some sub) =
    let range = user_data_range sub in
    let user = take (range.1 - range.0) (drop range.0 sector) in
    header.mode == 2
    && not (is_form2 sub)
    && same_bytes (take 8 user) iso_pvd_header
    && starts_with (take 32 (drop 8 user)) cd_rtos_bridge_system_id
    && same_bytes (take 8 (drop 1024 user)) cd_xa_signature

unfoldable pub lba_base : List TrackInfo → ℕ
lba_base [] = normal_lba_base
lba_base (t ∷ ts) = if t.region_start == 0 then 0 else normal_lba_base

unfoldable pub is_cd_rom_xa_bridge : {F : Type 0} → (F → ℕ → Option (List ℕ)) → DiscImage F → Bool
unfolding read_sector_data lba_base is_bridge_sector parse parse_subheader
is_cd_rom_xa_bridge read_at image =
    elim (read_sector_data read_at image (lba_base image.tracks + volume_descriptor_lba)) [
      | none ↦ false
      | some sector ↦ is_bridge_sector sector (parse sector) (parse_subheader sector)
    ]
