-- ===== src/Cdic/Adpcm.antt =====
-- crates/cdi-core/src/cdic.rs: the XA ADPCM decoder and the conversion to 44.1 kHz.
-- An `i16` or `i32` is its two's complement word. The mixing of a pair of samples by the attenuation
-- is floating-point arithmetic of the standard library, the argument `mix`. The slices of `left` and
-- `right` that the units fill follow one another, so they are appended.
use edi_emulator.Prelude.{
  ℕ, zero, suc, ◌+◌, ◌-◌, ◌*◌, ◌/◌, ◌%◌, ◌^◌, min, Bool, not, ◌&&◌, ◌||◌, ltb, ◌==◌, if◌then◌else◌,
  List, [], ◌∷◌, ◌++◌, get_or, set, take, drop, u16, u32, sext16, has_bit, field,
}
use edi_emulator.Prelude.Paced.{paced}

abbrev pub sector_audio_size : ℕ
sector_audio_size = 2304

-- The fields of a coding byte under CODING_BPS_MASK, CODING_RATE_MASK and CODING_CHAN_MASK, shifted
-- down: 0 and 1 for 4 and 8 bits, 0 and 1 for 37.8 and 18.9 kHz, 0 and 1 for mono and stereo.
abbrev pub coding_bps : ℕ → ℕ
coding_bps coding = field coding 4 2

abbrev pub coding_rate : ℕ → ℕ
coding_rate coding = field coding 2 2

abbrev pub coding_chan : ℕ → ℕ
coding_chan coding = field coding 0 2

-- `saturating_mul(2)` on a byte never saturates here.
unfoldable pub sector_count_for_coding : ℕ → ℕ
sector_count_for_coding coding =
    let by_bps : ℕ =
      if coding_bps coding == 0
      then 4
      else if coding_bps coding == 1 || coding_bps coding == 2
      then 2
      else 0 in
    let by_rate : ℕ =
      if coding_rate coding == 1
      then by_bps * 2
      else if coding_rate coding == 0 || coding_rate coding == 3
      then by_bps
      else 0 in
    if coding_chan coding == 0 then by_rate * 2 else if coding_chan coding == 1 then by_rate else 0

-- `x >> k` on an `i32`, and the clamp to an `i16`.
abbrev pub sar32 : ℕ → ℕ → ℕ
sar32 x k = if has_bit x 31 then x / 2 ^ k + (2 ^ 32 - 2 ^ (32 - k)) else x / 2 ^ k

abbrev pub clamp16 : ℕ → ℕ
clamp16 x =
    if has_bit x 31 then if ltb x (2 ^ 32 - 2 ^ 15) then 2 ^ 15 else u16 x else min x (2 ^ 15 - 1)

-- XA_FILTER_COEF; negative coefficients as `i32` words.
unfoldable pub xa_filter_coef : ℕ → ℕ × ℕ
xa_filter_coef filter =
    if filter == 0
    then (0x000, 0x000)
    else if filter == 1
    then (0x0f0, 0x000)
    else if filter == 2
    then (0x1cc, 2 ^ 32 - 0x0d0)
    else (0x188, 2 ^ 32 - 0x0dc)

-- One sample from its unscaled 16 bits and the last two samples.
unfoldable pub xa_sample : ℕ → ℕ → ℕ → ℕ → ℕ
unfolding xa_filter_coef
xa_sample param sample s0 s1 =
    let filter = xa_filter_coef (field param 4 2) in
    let predicted = u32 (filter.0 * sext16 s0 + filter.1 * sext16 s1 + 128) in
    clamp16 (u32 (sar32 (sext16 sample) (min (param % 2 ^ 4) 12) + sar32 predicted 8))

-- `n` samples of a unit from the `j`th on, and the last two samples after them.
unfoldable pub unit_samples : ℕ → (ℕ → ℕ) → ℕ → ℕ → ℕ → ℕ → List ℕ × ℕ × ℕ
unfolding xa_sample
unit_samples param sample zero j s0 s1 = ([], s0, s1)
unit_samples param sample (suc n) j s0 s1 =
    let clipped = xa_sample param (sample j) s0 s1 in
    let rest = unit_samples param sample n (j + 1) clipped s0 in (clipped ∷ rest.0, rest.1, rest.2)

pub record Decoded : Type 0 where
  pub xa_last : List ℕ
  pub left : List ℕ
  pub right : List ℕ

-- HDR4, HDR8, DATA4 and DATA8
abbrev pub hdr4 : List ℕ
hdr4 = 4 ∷ 5 ∷ 6 ∷ 7 ∷ 12 ∷ 13 ∷ 14 ∷ 15 ∷ []

abbrev pub hdr8 : List ℕ
hdr8 = 4 ∷ 5 ∷ 6 ∷ 7 ∷ []

abbrev pub data4 : List ℕ
data4 = 16 ∷ 16 ∷ 17 ∷ 17 ∷ 18 ∷ 18 ∷ 19 ∷ 19 ∷ []

abbrev pub data8 : List ℕ
data8 = 16 ∷ 17 ∷ 18 ∷ 19 ∷ []

abbrev pub is_8bit : ℕ → Bool
is_8bit coding = coding_bps coding == 1

abbrev pub is_stereo : ℕ → Bool
is_stereo coding = coding_chan coding == 1

-- The `j`th sample of unit `i` as 16 bits.
unfoldable pub raw_sample : ℕ → List ℕ → ℕ → ℕ → ℕ
raw_sample coding group i j =
    if is_8bit coding
    then get_or group (get_or data8 i 0 + j * 4) 0 * 2 ^ 8
    else field (get_or group (get_or data4 i 0 + j * 4) 0) (if i % 2 == 1 then 4 else 0) 4 * 2 ^ 12

-- The round of `play_xa_group` for unit `i`.
unfoldable pub play_xa_unit : ℕ → List ℕ → ℕ → Decoded → Decoded
unfolding unit_samples raw_sample
play_xa_unit coding group i d =
    let param =
      if is_8bit coding
      then get_or group (get_or hdr8 i 0) 0
      else get_or group (get_or hdr4 i 0) 0 in
    let channel : ℕ = if is_stereo coding then i % 2 else 0 in
    let unit =
      unit_samples param (raw_sample coding group i) 28 0 (get_or d.xa_last (channel * 2) 0)
        (get_or d.xa_last (channel * 2 + 1) 0) in
    let last = set (set d.xa_last (channel * 2) unit.1) (channel * 2 + 1) unit.2 in
    if is_stereo coding && channel == 1
    then record { xa_last = last; left = d.left; right = d.right ++ unit.0 }
    else record { xa_last = last; left = d.left ++ unit.0; right = d.right }

abbrev pub units_from : ℕ → ℕ → ℕ → List ℕ → Decoded → Decoded
units_from zero i coding group d = d
units_from (suc n) i coding group d =
    units_from n (i + 1) coding group (play_xa_unit coding group i d)

unfoldable pub play_xa_group : ℕ → List ℕ → Decoded → Decoded
unfolding play_xa_unit
play_xa_group coding group d = units_from (if is_8bit coding then 4 else 8) 0 coding group d

-- `chunks_exact(128).take(n)`
unfoldable pub play_xa_groups : ℕ → ℕ → List ℕ → Decoded → Decoded
unfolding play_xa_group
play_xa_groups zero coding bytes d = d
play_xa_groups (suc n) coding bytes d =
    play_xa_groups n coding (drop 128 bytes) (play_xa_group coding (take 128 bytes) d)

unfoldable pub is_supported : ℕ → Bool
is_supported coding = not (
    ltb 1 (coding_chan coding)
    || coding_bps coding == 3
    || coding_rate coding == 2
    || coding_rate coding == 3
    || coding_bps coding == 2)

-- The converted samples and the position between two of them.
pub record Output : Type 0 where
  pub pos : ℕ
  pub samples : List ℕ

abbrev pub with_pos : ℕ → Output → Output
with_pos p o = record o { pos = p }

abbrev pub push_pair : ℕ × ℕ → Output → Output
push_pair out o = record o { samples = o.samples ++ out.0 ∷ out.1 ∷ [] }

-- The `while` loop takes at least one from `pos` in each round.
unfoldable pub push_while : ℕ → ℕ × ℕ → Output → Output
unfolding paced
push_while source_rate out o =
    paced (λ (q : Output). q.pos) with_pos (push_pair out) source_rate (o.pos + 1) o

module _ (mix : List ℕ → ℕ → ℕ → ℕ × ℕ) where
  unfoldable pub resample : List ℕ → ℕ → List ℕ → List ℕ → Output → Output
  unfolding push_while
  resample atten source_rate [] rs o = o
  resample atten source_rate (l ∷ ls) rs o =
      let r = get_or rs 0 0 in
      let moved = record o { pos = o.pos + 44_100 } in
      resample atten source_rate ls (drop 1 rs) (push_while source_rate (mix atten l r) moved)

  -- `play_audio_data`: the last samples after it, and the samples that it adds to the output.
  unfoldable pub play_audio_data : List ℕ → List ℕ → ℕ → List ℕ → List ℕ × List ℕ
  unfolding is_supported play_xa_groups resample
  play_audio_data atten xa_last coding bytes =
      let source_rate : ℕ = if coding_rate coding == 1 then 18_900 else 37_800 in
      let d =
        play_xa_groups (sector_audio_size / 128) coding bytes
          (record { xa_last = xa_last; left = []; right = [] }) in
      let right = if is_stereo coding then d.right else d.left in
      if is_supported coding
      then (
        d.xa_last,
        (resample atten source_rate d.left right (record { pos = 0; samples = [] })).samples,
      )
      else (xa_last, [])
