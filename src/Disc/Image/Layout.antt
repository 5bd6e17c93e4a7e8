-- ===== src/Disc/Image/Layout.antt =====
-- crates/cdi-disc/src/image.rs: the files of a disc tile its frames.
use edi_emulator.Prelude.{
  ℕ, ◌+◌, ◌*◌, ◌-◌, ◌^◌, ◌≤◌, ◌<◌, ◌≡◌, arith, replicate, List, [], ◌∷◌, Option, none, some, u32,
}
use edi_emulator.Disc.{raw_sector_size}
use edi_emulator.Disc.Image.{FileRegion, DiscImage, region_at}

-- What a fallible computation's result has, if there is one.
OnSome {ℓ κ} : {A : Type ℓ} → (A → Type κ) → Option A → Type κ
OnSome P none = Unit
OnSome P (some a) = P a

-- Regions one behind the other, from `a` to `b`.
Tiles : {F : Type 0} → ℕ → List (FileRegion F) → ℕ → Type 0
Tiles a [] b = a ≡ b
Tiles a (r ∷ rs) b = (r.start_abs ≡ a) × Tiles (u32 (a + r.sectors)) rs b

-- One of a disc's files.
pub data Listed {F : Type 0} (r : FileRegion F) : List (FileRegion F) → Type 0 where
  here : {rs : List (FileRegion F)} → Listed r (r ∷ rs)
  later : {q : FileRegion F} {rs : List (FileRegion F)} → Listed r rs → Listed r (q ∷ rs)

-- The sectors of all files.
abbrev pub total : {F : Type 0} → List (FileRegion F) → ℕ
total [] = 0
total (r ∷ rs) = r.sectors + total rs

module _ {F : Type 0} where
  Tiles-total : (a b : ℕ) (rs : List (FileRegion F)) → Tiles a rs b → a + total rs < 2 ^ 32 → a ≤ b
  unfolding Tiles
  Tiles-total a b [] t fits = omega (arith, t)
  Tiles-total a b (r ∷ rs) t fits =
      let e : u32 (a + r.sectors) ≡ a + r.sectors = omega arith in
      let h = Tiles-total (u32 (a + r.sectors)) b rs t.1 (omega arith) in omega arith

  abbrev Holds : List (FileRegion F) → ℕ → Type 0
  Holds rs abs =
      (r : FileRegion F) × (region_at rs abs ≡ some r)
      × Listed r rs
      × (r.start_abs ≤ abs)
      × (abs < r.start_abs + r.sectors)

-- What a read of the frame `abs` gives.
pub data IsSectorOf {F : Type 0} (read_at : F → ℕ → Option (List ℕ)) (first : ℕ)
    (image : DiscImage F) (abs : ℕ) : Option (List ℕ) → Type 0 where
  past_leadout : image.leadout ≤ abs → IsSectorOf read_at first image abs none
  pregap :
      abs < first
      → abs < image.leadout
      → IsSectorOf read_at first image abs (some (replicate 2352 0))
  stored :
      (r : FileRegion F)
      → Listed r image.regions
      → first ≤ abs
      → abs < image.leadout
      → r.start_abs ≤ abs
      → abs < r.start_abs + r.sectors
      → IsSectorOf read_at first image abs (read_at r.file ((abs - r.start_abs) * raw_sector_size))
