-- ===== src/Tests/DiscRuns.antt =====
-- Sectors and addresses at concrete values (crates/cdi-disc/src).
use edi_emulator.Prelude.{
  ℕ, ◌≡◌, refl, arith, true, List, [], ◌∷◌, some, none, Option, zero, suc, replicate,
}
use edi_emulator.Disc.{to_bcd, from_frames}
use edi_emulator.Disc.Text.{parse_msf, display, parse_msf-display}
use edi_emulator.Disc.Image.{CueTrack, CueFile, DiscImage, cdi_2352, for_data}
use edi_emulator.Disc.Image.Recovery.{for_data-descramble}
use edi_emulator.Disc.Sector.{SectorHeader, parse, abs_frame, has_sync}
use edi_emulator.Disc.Scramble.{descramble_in_place}
use edi_emulator.Disc.Headers.{stamped, parse-stamped, IsHeader, parse-IsHeader}
use edi_emulator.Disc.Involution.{IsScrambled, descramble_twice}

abbrev short_sector : List ℕ
short_sector = replicate 40 0xa5

descramble_twice_example :
    (descramble_in_place (descramble_in_place short_sector) ≡ short_sector)
    × IsScrambled short_sector (descramble_in_place short_sector)
descramble_twice_example = descramble_twice short_sector (omega arith)

parse-stamped_example :
    (h : SectorHeader) × (parse (stamped 166 2 []) ≡ some h)
    × (abs_frame h ≡ 166)
    × (h.mode ≡ 2)
    × (has_sync (stamped 166 2 []) ≡ true)
parse-stamped_example = parse-stamped 166 2 [] (omega arith) (omega arith)

abbrev sixteen : List ℕ
sixteen = 0 ∷ 0 ∷ 0 ∷ 0 ∷ 0 ∷ 0 ∷ 0 ∷ 0 ∷ 0 ∷ 0 ∷ 0 ∷ 0 ∷ 0x00 ∷ 0x02 ∷ 0x16 ∷ 0x02 ∷ []

abbrev at_two_seconds : SectorHeader
at_two_seconds = record { minute = 0; second = 2; frame = 16; mode = 2 }

sixteen-parse : parse sixteen ≡ some at_two_seconds
unfolding parse
sixteen-parse = refl

parse-IsHeader_example : IsHeader sixteen at_two_seconds
parse-IsHeader_example = parse-IsHeader sixteen at_two_seconds sixteen-parse

-- A scrambled sector is read as the sector itself.
for_data-descramble_example :
    (for_data (stamped 166 2 []) ≡ stamped 166 2 [])
    × (for_data (descramble_in_place (stamped 166 2 [])) ≡ stamped 166 2 [])
unfolding stamped to_bcd from_frames parse has_sync descramble_in_place
for_data-descramble_example = for_data-descramble (stamped 166 2 []) at_two_seconds refl refl refl

-- Two files of two sectors and one, on paths 0 and 1; a file is its path.
abbrev opened : ℕ → Option (ℕ × ℕ)
opened zero = some (0, 4704)
opened (suc n) = some (1, 2352)

abbrev one_index : ℕ → CueTrack
one_index n = record { number = n; mode = cdi_2352; indexes = (1, 0) ∷ [] }

abbrev two_files : List (CueFile ℕ)
two_files =
    record { path = 0; tracks = one_index 1 ∷ [] }
    ∷ record { path = 1; tracks = one_index 2 ∷ [] }
    ∷ []

abbrev two_regions : DiscImage ℕ
two_regions = record {
  regions =
      record { file = 0; start_abs = 150; sectors = 2 }
      ∷ record { file = 1; start_abs = 152; sectors = 1 }
      ∷ [];
  tracks =
      record { number = 1; mode = cdi_2352; region_start = 150; start = 150; end = 152 }
      ∷ record { number = 2; mode = cdi_2352; region_start = 152; start = 152; end = 153 }
      ∷ [];
  leadout = 153;
}

-- A file without content.
abbrev empty_read : ℕ → ℕ → Option (List ℕ)
empty_read file offset = none

-- "255:59:74"
parse_msf-display_example :
    parse_msf (display (record { m = 255; s = 59; f = 74 }))
    ≡ some (record { m = 255; s = 59; f = 74 })
parse_msf-display_example =
    parse_msf-display (record { m = 255; s = 59; f = 74 }) (omega arith) (omega arith) (omega arith)
