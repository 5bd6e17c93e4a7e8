-- ===== src/Cdic/Duration.antt =====
-- crates/cdi-core/src/cdic.rs: how long a sector of ADPCM plays.
use edi_emulator.Prelude.{
  ℕ, zero, suc, ◌+◌, ◌-◌, ◌*◌, ◌/◌, ◌%◌, ◌<◌, ◌≡◌, refl, sym, arith, ap, ◌∙◌, Bool, true, false,
  ◌&&◌, Bool-cases, if_both, inl, inr, if◌then◌else◌, if_true, if_false, List, [], ◌∷◌, length,
  length-append, drop, get_or, take, ◌==◌,
}
use edi_emulator.Prelude.Paced.{iterate, IsPaced, paced-iterate}
use edi_emulator.Cdic.Adpcm.{
  Decoded, Output, with_pos, push_pair, push_while, resample, unit_samples, play_xa_unit,
  units_from, play_xa_group, play_xa_groups, hdr4, hdr8, is_8bit, is_stereo, is_supported,
  play_audio_data, sector_count_for_coding, coding_rate, raw_sample,
}

pushes-IsPaced : (out : ℕ × ℕ) → IsPaced (λ (q : Output). q.pos) with_pos (push_pair out)
pushes-IsPaced out = record {
  read = λ n s. refl;
  same = λ s. refl;
  last = λ m n s. refl;
  kept = λ s. refl;
  comm = λ n s. refl;
}

iterate-push_pair :
    (n : ℕ) (out : ℕ × ℕ) (o : Output)
    → length (iterate n (push_pair out) o).samples ≡ length o.samples + 2 * n
unfolding iterate
iterate-push_pair zero out o = omega arith
iterate-push_pair (suc n) out o =
    iterate-push_pair n out (push_pair out o)
    ∙ ap (λ k. k + 2 * n) (length-append o.samples (out.0 ∷ out.1 ∷ []))
    ∙ omega arith

-- A rate of conversion: division by it is division with remainder.
record IsRate (rate : ℕ) : Type 0 where
  split : (a : ℕ) → a ≡ a / rate * rate + a % rate
  below : (a : ℕ) → a % rate < rate
  add : (a b : ℕ) → a / rate + (a % rate + b) / rate ≡ (a + b) / rate
  small : (a : ℕ) → a < rate → a / rate ≡ 0
  fuel : (a : ℕ) → a / rate < a + 1

abbrev low_rate : ℕ
low_rate = 18_900

abbrev high_rate : ℕ
high_rate = 37_800

low_rate-IsRate : IsRate low_rate
low_rate-IsRate = record {
  split = λ a. omega arith;
  below = λ a. omega arith;
  add = λ a b. omega arith;
  small = λ a l. omega arith;
  fuel = λ a. omega arith;
}

high_rate-IsRate : IsRate high_rate
high_rate-IsRate = record {
  split = λ a. omega arith;
  below = λ a. omega arith;
  add = λ a b. omega arith;
  small = λ a l. omega arith;
  fuel = λ a. omega arith;
}

module _ {rate : ℕ} (h : IsRate rate) where
  record IsPushed (o q : Output) : Type 0 where
    pos : q.pos ≡ o.pos % rate
    len : length q.samples ≡ length o.samples + 2 * (o.pos / rate)

  push_while-IsPushed : (out : ℕ × ℕ) (o : Output) → IsPushed o (push_while rate out o)
  unfolding push_while
  push_while-IsPushed out o =
      let e =
        paced-iterate (pushes-IsPaced out) rate (o.pos + 1) (o.pos / rate) (o.pos % rate) o
          (h.split o.pos) (h.below o.pos) (h.fuel o.pos) in
      record {
        pos = ap (λ (q : Output). q.pos) e;
        len = ap (λ (q : Output). length q.samples) e ∙ iterate-push_pair (o.pos / rate) out o;
      }

  resample-frames :
      (mix : List ℕ → ℕ → ℕ → ℕ × ℕ) (atten ls rs : List ℕ) (o : Output)
      → o.pos < rate
      → length (resample mix atten rate ls rs o).samples
        ≡ length o.samples + 2 * ((o.pos + 44_100 * length ls) / rate)
  unfolding resample
  resample-frames mix atten [] rs o l =
      let z : (o.pos + 44_100 * 0) / rate ≡ 0 = h.small (o.pos + 44_100 * 0) (omega arith) in
      omega arith
  resample-frames mix atten (l ∷ ls) rs o small =
      let moved : Output = record o { pos = o.pos + 44_100 } in
      let out = mix atten l (get_or rs 0 0) in
      let p = push_while-IsPushed out moved in
      let q = push_while rate out moved in
      let more =
        resample-frames mix atten ls (drop 1 rs) q (let b = h.below moved.pos in rw (p.pos) b) in
      let sum = h.add moved.pos (44_100 * length ls) in
      let total : (moved.pos + 44_100 * length ls) / rate
          ≡ (o.pos + 44_100 * suc (length ls)) / rate =
        ap (λ n. n / rate) (omega arith) in
      more
      ∙ ap (λ n. length q.samples + 2 * ((n + 44_100 * length ls) / rate)) p.pos
      ∙ ap (λ n. n + 2 * ((moved.pos % rate + 44_100 * length ls) / rate)) p.len
      ∙ omega arith

unit_samples-length :
    (param : ℕ) (sample : ℕ → ℕ) (n j s0 s1 : ℕ)
    → length (unit_samples param sample n j s0 s1).0 ≡ n
unfolding unit_samples
unit_samples-length param sample zero j s0 s1 = refl
unit_samples-length param sample (suc n) j s0 s1 =
    ap suc (unit_samples-length param sample n (j + 1) _ s0)

-- What unit `i` adds to the left samples.
abbrev left_of : Bool → ℕ → ℕ
left_of stereo i = if stereo then (1 - i % 2) * 28 else 28

play_xa_unit-left :
    (coding : ℕ) (group : List ℕ) (i : ℕ) (d : Decoded)
    → length (play_xa_unit coding group i d).left ≡ length d.left + left_of (is_stereo coding) i
unfolding play_xa_unit
play_xa_unit-left coding group i d =
    let channel : ℕ = if is_stereo coding then i % 2 else 0 in
    let param =
      if is_8bit coding
      then get_or group (get_or hdr8 i 0) 0
      else get_or group (get_or hdr4 i 0) 0 in
    let s0 = get_or d.xa_last (channel * 2) 0 in
    let s1 = get_or d.xa_last (channel * 2 + 1) 0 in
    let unit = unit_samples param (raw_sample coding group i) 28 0 s0 s1 in
    let P : Decoded → Type 0 = λ e. length e.left ≡ length d.left + left_of (is_stereo coding) i in
    elim (Bool-cases (is_stereo coding && channel == 1)) [
      | inl e ↦ if_true P (is_stereo coding && channel == 1) _ _ e (ground arith)
      | inr e ↦ if_false P (is_stereo coding && channel == 1) _ _ e (
          length-append d.left unit.0
          ∙ ap (λ n. length d.left + n)
              (unit_samples-length param (raw_sample coding group i) 28 0 s0 s1)
          ∙ ground arith)
    ]

abbrev pub left_sum : Bool → ℕ → ℕ → ℕ
left_sum stereo zero i = 0
left_sum stereo (suc n) i = left_of stereo i + left_sum stereo n (i + 1)

units_from-left :
    (n i coding : ℕ) (group : List ℕ) (d : Decoded)
    → length (units_from n i coding group d).left ≡ length d.left + left_sum (is_stereo coding) n i
units_from-left zero i coding group d = omega arith
units_from-left (suc n) i coding group d =
    units_from-left n (i + 1) coding group (play_xa_unit coding group i d)
    ∙ ap (λ k. k + left_sum (is_stereo coding) n (i + 1)) (play_xa_unit-left coding group i d)
    ∙ omega arith

-- The left samples of a group.
abbrev pub group_left : ℕ → ℕ
group_left coding = left_sum (is_stereo coding) (if is_8bit coding then 4 else 8) 0

play_xa_groups-left :
    (n coding : ℕ) (bytes : List ℕ) (d : Decoded)
    → length (play_xa_groups n coding bytes d).left ≡ length d.left + n * group_left coding
unfolding play_xa_groups play_xa_group
play_xa_groups-left zero coding bytes d = omega arith
play_xa_groups-left (suc n) coding bytes d =
    play_xa_groups-left n coding (drop 128 bytes) (play_xa_group coding (take 128 bytes) d)
    ∙ ap (λ k. k + n * group_left coding)
        (units_from-left (if is_8bit coding then 4 else 8) 0 coding (take 128 bytes) d)
    ∙ omega arith

-- The ticks of a sector by its coding: 8 bits, stereo, 18.9 kHz.
abbrev pub ticks : Bool → Bool → Bool → ℕ
ticks narrow stereo low =
    (if narrow then 2 else 4) * (if low then 2 else 1) * (if stereo then 1 else 2)

sector_count-ticks :
    (coding : ℕ)
    → is_supported coding ≡ true
    → sector_count_for_coding coding
      ≡ ticks (is_8bit coding) (is_stereo coding) (coding_rate coding == 1)
unfolding sector_count_for_coding is_supported
sector_count-ticks coding h = ground arith

samples-ticks :
    (narrow stereo low : Bool)
    → 2
        * ((44_100 * (18 * left_sum stereo (if narrow then 4 else 8) 0))
            / (if low then low_rate else high_rate))
      ≡ 1_176 * ticks narrow stereo low
samples-ticks true true true = refl
samples-ticks true true false = refl
samples-ticks true false true = refl
samples-ticks true false false = refl
samples-ticks false true true = refl
samples-ticks false true false = refl
samples-ticks false false true = refl
samples-ticks false false false = refl

-- The samples of a sector in a supported coding.
supported-length :
    (mix : List ℕ → ℕ → ℕ → ℕ × ℕ) (atten xa_last : List ℕ) (coding : ℕ) (bytes right : List ℕ)
    → is_supported coding ≡ true
    → length
        (resample mix atten
          (if coding_rate coding == 1 then low_rate else high_rate)
          (play_xa_groups 18 coding bytes
            (record { xa_last = xa_last; left = []; right = [] })).left
          right
          (record { pos = 0; samples = [] })).samples
      ≡ 1_176 * sector_count_for_coding coding
supported-length mix atten xa_last coding bytes right e =
    let rate : ℕ = if coding_rate coding == 1 then low_rate else high_rate in
    let h : IsRate rate =
      if_both IsRate (coding_rate coding == 1) low_rate high_rate low_rate-IsRate
        high_rate-IsRate in
    let start : Decoded = record { xa_last = xa_last; left = []; right = [] } in
    let d = play_xa_groups 18 coding bytes start in
    let drop_zero : (n : ℕ) → 0 + n ≡ n = λ n. omega arith in
    let inner : 0 + 44_100 * (0 + 18 * group_left coding) ≡ 44_100 * (18 * group_left coding) =
      omega arith in
    resample-frames h mix atten d.left right (record { pos = 0; samples = [] })
      (if_both (λ r. 0 < r) (coding_rate coding == 1) low_rate high_rate (omega arith)
        (omega arith))
    ∙ ap (λ n. 0 + 2 * ((0 + 44_100 * n) / rate)) (play_xa_groups-left 18 coding bytes start)
    ∙ drop_zero (2 * ((0 + 44_100 * (0 + 18 * group_left coding)) / rate))
    ∙ ap (λ n. 2 * (n / rate)) inner
    ∙ samples-ticks (is_8bit coding) (is_stereo coding) (coding_rate coding == 1)
    ∙ ap (λ n. 1_176 * n) (sym (sector_count-ticks coding e))

-- A sector in a supported coding adds exactly as many samples as 44.1 kHz stereo plays in the ticks
-- of 1/75 s that are counted for it, 588 pairs a tick; a sector in another coding adds none.
pub play_audio_data-length :
    (mix : List ℕ → ℕ → ℕ → ℕ × ℕ) (atten xa_last : List ℕ) (coding : ℕ) (bytes : List ℕ)
    → length (play_audio_data mix atten xa_last coding bytes).1
      ≡ (if is_supported coding then 2 * 588 * sector_count_for_coding coding else 0)
unfolding play_audio_data
play_audio_data-length mix atten xa_last coding bytes =
    let d = play_xa_groups 18 coding bytes (record { xa_last = xa_last; left = []; right = [] }) in
    let right = if is_stereo coding then d.right else d.left in
    elim (Bool-cases (is_supported coding)) [
      | inl e ↦
          if_true
            (λ (r : List ℕ × List ℕ).
              length r.1
              ≡ (if is_supported coding then 1_176 * sector_count_for_coding coding else 0))
            (is_supported coding) _ _ e
            (supported-length mix atten xa_last coding bytes right e
              ∙ sym (
                  if_true (λ n. n ≡ 1_176 * sector_count_for_coding coding) (is_supported coding) _
                    _ e refl))
      | inr e ↦
          if_false
            (λ (r : List ℕ × List ℕ).
              length r.1
              ≡ (if is_supported coding then 1_176 * sector_count_for_coding coding else 0))
            (is_supported coding) _ _ e
            (sym (if_false (λ n. n ≡ 0) (is_supported coding) _ _ e refl))
    ]
