-- ===== src/Cdic/Subcode.antt =====
-- crates/cdi-core/src/cdic.rs: the subcode Q channel that accompanies a sector.
use edi_emulator.Prelude.{
  ℕ, zero, suc, ◌+◌, ◌-◌, ◌*◌, ◌/◌, ◌%◌, ◌^◌, bit_xor, Bool, true, false, ◌||◌, leb, ◌==◌,
  if◌then◌else◌, List, [], ◌∷◌, ◌++◌, Option, none, some, take, drop, get_or, length, u8, u16, u32,
  has_bit,
}
use edi_emulator.Disc.Image.{
  DiscImage, TrackInfo, TrackMode, audio, cdi_2352, mode1_2352, mode2_2352, track_at,
}
use edi_emulator.Cdic.{Cdic, is_cdda}

abbrev pub bcd8 : ℕ → ℕ
bcd8 v = u8 (v / 10 * 2 ^ 4 + v % 10)

abbrev pub msf_bcd : ℕ → List ℕ
msf_bcd frames = bcd8 (frames / 4500) ∷ bcd8 (frames / 75 % 60) ∷ bcd8 (frames % 75) ∷ []

unfoldable pub expected_msf_bcd : Cdic → List ℕ
expected_msf_bcd c = msf_bcd (c.curr_lba + 150)

abbrev pub is_data : TrackMode → Bool
is_data audio = false
is_data cdi_2352 = true
is_data mode1_2352 = true
is_data mode2_2352 = true

-- CRC-16/CCITT, complemented.
abbrev pub crc_bit : ℕ → ℕ
crc_bit crc = if has_bit crc 15 then bit_xor (u16 (crc * 2)) 0x1021 else u16 (crc * 2)

abbrev pub crc_bits : ℕ → ℕ → ℕ
crc_bits zero crc = crc
crc_bits (suc n) crc = crc_bits n (crc_bit crc)

unfoldable pub crc_bytes : List ℕ → ℕ → ℕ
crc_bytes [] crc = crc
crc_bytes (b ∷ bs) crc = crc_bytes bs (crc_bits 8 (bit_xor crc (b * 2 ^ 8)))

unfoldable pub crc_ccitt : List ℕ → ℕ
unfolding crc_bytes
crc_ccitt bytes = 0xffff - crc_bytes bytes 0

-- The control byte, the track number, the index and the relative time.
unfoldable pub position : Option TrackInfo → Bool → ℕ → ℕ × ℕ × ℕ × ℕ
position (some track) over_cdda abs =
    let control : ℕ = if is_data track.mode then 0x41 else 0x01 in
    if leb track.start abs
    then (control, track.number, 1, abs - track.start)
    else (control, track.number, 0, track.start - abs)
position none over_cdda abs = (if over_cdda then 0x01 else 0x41, 1, 1, abs - 150)

-- The first ten bytes of Q outside the lead-in.
unfoldable pub q_position : {F : Type 0} → Cdic → DiscImage F → ℕ → List ℕ
unfolding position track_at expected_msf_bcd
q_position c disc abs =
    let p = position (track_at disc.tracks abs) (is_cdda c.disc_mode) abs in
    p.0 ∷ bcd8 p.1 ∷ bcd8 p.2 ∷ msf_bcd p.3 ++ 0x00 ∷ expected_msf_bcd c

-- The starts of the audio tracks, and whether there is a data track.
unfoldable pub audio_tracks : List TrackInfo → List ℕ
audio_tracks [] = []
audio_tracks (t ∷ ts) =
    let rest = audio_tracks ts in if is_data t.mode then rest else t.start ∷ rest

unfoldable pub has_data : List TrackInfo → Bool
has_data [] = false
has_data (t ∷ ts) = is_data t.mode || has_data ts

-- Every entry three times.
unfoldable pub track_entries : ℕ → List ℕ → List (List ℕ)
track_entries i [] = []
track_entries i (start ∷ starts) =
    let entry = 0x01 ∷ bcd8 (u32 (i + 1)) ∷ msf_bcd start in
    entry ∷ entry ∷ entry ∷ track_entries (i + 1) starts

unfoldable pub toc_entries : {F : Type 0} → DiscImage F → List (List ℕ)
unfolding audio_tracks has_data track_entries
toc_entries disc =
    let starts = audio_tracks disc.tracks in
    let some_data = has_data disc.tracks in
    let control : ℕ = if length starts == 0 then 0x41 else 0x01 in
    let first =
      (if some_data then 0x41 else 0x01)
      ∷ 0xa0
      ∷ 0x01
      ∷ (if some_data then 0x10 else 0x00)
      ∷ 0x00
      ∷ [] in
    let last = control ∷ 0xa1 ∷ bcd8 (u32 (length starts - 1)) ∷ 0x00 ∷ 0x00 ∷ [] in
    let leadout = control ∷ 0xa2 ∷ msf_bcd disc.leadout in
    track_entries 0 starts
    ++ first ∷ first ∷ first ∷ last ∷ last ∷ last ∷ leadout ∷ leadout ∷ leadout ∷ []

-- The entries, one after the other, over the beginning of the sector; an entry past its end is dropped.
unfoldable pub overlay : List (List ℕ) → List ℕ → List ℕ
overlay [] buffer = buffer
overlay (e ∷ es) buffer =
    let rest = overlay es (drop 5 buffer) in
    if leb 5 (length buffer) then take 5 e ++ rest else buffer

abbrev pub pick : {A : Type 0} → A → List A → ℕ → A
pick d [] n = d
pick d (x ∷ xs) zero = x
pick d (x ∷ xs) (suc n) = pick d xs n

-- `build_toc_into_buffer`: the sector with the table of contents, and the first ten bytes of Q.
unfoldable pub build_toc_into_buffer : {F : Type 0} → Cdic → DiscImage F → List ℕ → List ℕ × List ℕ
unfolding toc_entries overlay expected_msf_bcd
build_toc_into_buffer c disc buffer =
    let entries = toc_entries disc in
    let e = pick [] entries (c.curr_lba % length entries) in
    let msf = expected_msf_bcd c in
    (
      overlay entries buffer,
      get_or e 0 0
          ∷ 0x00
          ∷ get_or e 1 0
          ∷ 0xa0
          ∷ get_or msf 1 0
          ∷ get_or msf 2 0
          ∷ 0x00
          ∷ get_or e 2 0
          ∷ get_or e 3 0
          ∷ get_or e 4 0
          ∷ [],
    )

-- The ten bytes with their checksum.
unfoldable pub with_crc : List ℕ → List ℕ
unfolding crc_ccitt
with_crc q = q ++ crc_ccitt q / 2 ^ 8 ∷ u8 (crc_ccitt q) ∷ []
