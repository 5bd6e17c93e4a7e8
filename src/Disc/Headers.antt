-- ===== src/Disc/Headers.antt =====
-- crates/cdi-disc/src/sector.rs and lib.rs: addresses and their BCD form in sector headers.
use edi_emulator.Prelude.{
  ℕ, ◌+◌, ◌*◌, ◌/◌, ◌%◌, ◌≤◌, ◌<◌, ◌≡◌, refl, sym, ap, ◌∙◌, arith, Bool, true, false, ◌&&◌, ◌||◌,
  Bool-cases, ◌==◌, ltb, leb, if◌then◌else◌, if_false, List, ◌∷◌, ◌++◌, Option, le_or_gt, inl, inr,
  none, some, ◌>>=◌, length, get_or, u8,
}
use mathlib.Core.Path.{ap₂, subst}
use edi_emulator.Prelude.Bits.{holds_below, holds_below_sound}
use edi_emulator.Disc.{Msf, from_frames, to_frames, bcd, to_bcd}
use edi_emulator.Disc.Sector.{
  SectorHeader, sync_pattern, has_sync, from_bcd, header_of, parse, abs_frame,
}

-- A frame number below 256 minutes survives the minute, second and frame form, and so does each
-- address of fewer than 256 minutes, 60 seconds and 75 frames.
pub from_frames-to_frames :
    ((n : ℕ) → n < 256 * 4500 → to_frames (from_frames n) ≡ n)
    × ((a : Msf) → a.m < 256 → a.s < 60 → a.f < 75 → from_frames (to_frames a) ≡ a)
unfolding from_frames to_frames
from_frames-to_frames = (
  λ n h. omega arith,
  λ a p q r.
      let n = a.m * 60 * 75 + a.s * 75 + a.f in
      let m : u8 (n / (60 * 75)) ≡ a.m = omega arith in
      let s : u8 (n / 75 % 60) ≡ a.s = omega arith in
      let f : u8 (n % 75) ≡ a.f = omega arith in
      ap₂ (λ (x : ℕ) (y : ℕ × ℕ). record { m = x; s = y.0; f = y.1 }) m (ap₂ (λ x y. (x, y)) s f),
)

abbrev is_some : Option ℕ → ℕ → Bool
is_some none v = false
is_some (some w) v = w == v

is_some_sound : (o : Option ℕ) (v : ℕ) → is_some o v ≡ true → o ≡ some v
is_some_sound none v h = absurd (ground arith)
is_some_sound (some w) v h = ap some (ground arith)

from_bcd-bcd : (v : ℕ) → v < 100 → from_bcd (bcd v) ≡ some v
unfolding bcd from_bcd
from_bcd-bcd v h =
    is_some_sound (from_bcd (bcd v)) v
      (holds_below_sound (λ w. is_some (from_bcd (bcd w)) w) 100 v h (unfold holds_below in refl))

abbrev is_from : Option ℕ → ℕ → Bool
is_from none v = true
is_from (some w) v = bcd w == v && ltb w 100

value : Option ℕ → ℕ
value none = 0
value (some w) = w

is_from_sound : (o : Option ℕ) (v w : ℕ) → is_from o v ≡ true → o ≡ some w → (bcd w ≡ v) × (w < 100)
unfolding value
is_from_sound none v w h e = absurd (ground arith)
is_from_sound (some u) v w h e =
    let same : u ≡ w = ap (λ o. value o) e in
    let b : bcd u ≡ v = ground arith in (ap bcd (sym same) ∙ b, ground arith)

-- A byte that is read as BCD is the BCD form of what is read.
bcd-from_bcd : (v w : ℕ) → from_bcd v ≡ some w → (bcd w ≡ v) × (w < 100)
unfolding bcd from_bcd
bcd-from_bcd v w e = elim (le_or_gt 160 v) [
  | inl h ↦ absurd (ground arith)
  | inr h ↦
      is_from_sound (from_bcd v) v w
        (holds_below_sound (λ u. is_from (from_bcd u) u) 160 v h (unfold holds_below in refl)) e
]

-- A sector with the address of a frame in its header.
unfoldable pub stamped : ℕ → ℕ → List ℕ → List ℕ
unfolding to_bcd from_frames
stamped n mode rest = sync_pattern ++ to_bcd (from_frames n) ++ mode ∷ rest

header_at : ℕ → ℕ → SectorHeader
unfolding from_frames
header_at n mode =
    let a = from_frames n in record { minute = a.m; second = a.s; frame = a.f; mode = mode }

read_header :
    (a b c mode m s f : ℕ)
    → from_bcd a ≡ some m
    → from_bcd b ≡ some s
    → from_bcd c ≡ some f
    → s < 60
    → f < 75
    → mode ≤ 2
    → header_of a b c mode ≡ some (record { minute = m; second = s; frame = f; mode = mode })
unfolding header_of
read_header a b c mode m s f p q r p' q' r' = rw (p, q, r) (ground arith)

-- The header of every frame of the first 100 minutes is read back: the sector has its sync, the
-- header parses, and its absolute frame is the frame that was written.
pub parse-stamped :
    (n mode : ℕ) (rest : List ℕ)
    → n < 100 * 4500
    → mode ≤ 2
    → (h : SectorHeader) × (parse (stamped n mode rest) ≡ some h)
      × (abs_frame h ≡ n)
      × (h.mode ≡ mode)
      × (has_sync (stamped n mode rest) ≡ true)
unfolding parse stamped abs_frame has_sync from_frames
parse-stamped n mode rest h g =
    let a = from_frames n in
    (
      record { minute = a.m; second = a.s; frame = a.f; mode = mode },
      if_false (λ o. o ≡ some (record { minute = a.m; second = a.s; frame = a.f; mode = mode }))
          (ltb (length (stamped n mode rest)) 16) _ _ (ground arith)
          (read_header (bcd a.m) (bcd a.s) (bcd a.f) mode a.m a.s a.f
            (from_bcd-bcd a.m (omega arith)) (from_bcd-bcd a.s (omega arith))
            (from_bcd-bcd a.f (omega arith)) (omega arith) (omega arith) g),
      omega arith,
      refl,
      ground arith,
    )

record IsRead (x y z : Option ℕ) (m : ℕ) (h : SectorHeader) : Type 0 where
  minute : x ≡ some h.minute
  second : (y ≡ some h.second) × (h.second < 60)
  frame : (z ≡ some h.frame) × (h.frame < 75)
  mode : (m ≡ h.mode) × (h.mode ≤ 2)

header_value : SectorHeader → Option SectorHeader → SectorHeader
header_value d none = d
header_value d (some h) = h

checked : (m s f mode : ℕ) → Option SectorHeader
checked m s f mode =
    if leb 60 s || leb 75 f || ltb 2 mode
    then none
    else some (record { minute = m; second = s; frame = f; mode = mode })

checked_back :
    (m s f mode : ℕ) (h : SectorHeader)
    → checked m s f mode ≡ some h
    → IsRead (some m) (some s) (some f) mode h
unfolding checked header_value
checked_back m s f mode h e = elim (Bool-cases (leb 60 s || leb 75 f || ltb 2 mode)) [
  | inl b ↦ absurd (ground arith)
  | inr b ↦
      let r : SectorHeader = record { minute = m; second = s; frame = f; mode = mode } in
      let same : r ≡ h = ap (header_value r) (
        sym (if_false (λ o. o ≡ some r) (leb 60 s || leb 75 f || ltb 2 mode) none (some r) b refl)
        ∙ e) in
      subst (IsRead (some m) (some s) (some f) mode) same (record {
        minute = refl;
        second = (refl, ground arith);
        frame = (refl, ground arith);
        mode = (refl, ground arith);
      })
]

chain_sound :
    (x y z : Option ℕ) (mode : ℕ) (h : SectorHeader)
    → (x >>= λ m. y >>= λ s. z >>= λ f. checked m s f mode) ≡ some h
    → IsRead x y z mode h
chain_sound none y z mode h e = absurd (ground arith)
chain_sound (some m) none z mode h e = absurd (ground arith)
chain_sound (some m) (some s) none mode h e = absurd (ground arith)
chain_sound (some m) (some s) (some f) mode h e = checked_back m s f mode h e

-- What an accepted header is: the sector has its 16 bytes, each address byte is the BCD form of
-- its field, and minute, second, frame and mode are within their ranges.
pub record IsHeader (sector : List ℕ) (h : SectorHeader) : Type 0 where
  pub long_enough : 16 ≤ length sector
  pub minute : (bcd h.minute ≡ get_or sector 12 0) × (h.minute < 100)
  pub second : (bcd h.second ≡ get_or sector 13 0) × (h.second < 60)
  pub frame : (bcd h.frame ≡ get_or sector 14 0) × (h.frame < 75)
  pub mode : (h.mode ≡ get_or sector 15 0) × (h.mode ≤ 2)

-- A header that `parse` accepts is a well-formed one: its fields are in range, and the bytes of
-- the sector are exactly their BCD form.
pub parse-IsHeader :
    (sector : List ℕ) (h : SectorHeader) → parse sector ≡ some h → IsHeader sector h
unfolding parse header_of checked
parse-IsHeader sector h e = elim (Bool-cases (ltb (length sector) 16)) [
  | inl b ↦ absurd (ground arith)
  | inr b ↦
      let a = get_or sector 12 0 in
      let s = get_or sector 13 0 in
      let f = get_or sector 14 0 in
      let read = header_of a s f (get_or sector 15 0) in
      let r : IsRead (from_bcd a) (from_bcd s) (from_bcd f) (get_or sector 15 0) h =
        chain_sound (from_bcd a) (from_bcd s) (from_bcd f) (get_or sector 15 0) h
          (sym (if_false (λ o. o ≡ read) (ltb (length sector) 16) none read b refl) ∙ e) in
      let minute = bcd-from_bcd a h.minute r.minute in
      record {
        long_enough = ground arith;
        minute = minute;
        second = ((bcd-from_bcd s h.second r.second.0).0, r.second.1);
        frame = ((bcd-from_bcd f h.frame r.frame.0).0, r.frame.1);
        mode = (sym r.mode.0, r.mode.1);
      }
]
