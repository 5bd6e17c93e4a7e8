-- ===== src/Disc/Image/Recovery.antt =====
-- crates/cdi-disc/src/image.rs: data sectors that a rip left scrambled.
use edi_emulator.Prelude.{
  ℕ, ◌+◌, ◌≤◌, ◌≡◌, refl, sym, ap, ◌∙◌, arith, true, not, ◌&&◌, leb, if_true, if_false, List, none,
  some, length, length-append, take, drop,
}
use mathlib.Core.Path.{ap₂}
use edi_emulator.Disc.Sector.{SectorHeader, has_sync, parse, sync_pattern, same_bytes}
use edi_emulator.Disc.Scramble.{xor_zip, scramble_table, descramble_in_place}
use edi_emulator.Disc.Involution.{cut, length-xor_zip, descramble_twice}
use edi_emulator.Disc.Image.{for_data, is_some}

length-descramble : (s : List ℕ) → length (descramble_in_place s) ≡ length s
unfolding descramble_in_place
length-descramble s =
    length-append (take 12 s) (xor_zip (drop 12 s) scramble_table)
    ∙ ap (λ n. length (take 12 s) + n) (length-xor_zip (drop 12 s) scramble_table)
    ∙ sym (length-append (take 12 s) (drop 12 s))
    ∙ ap length (cut 12 s)

has_sync-long : (s : List ℕ) → has_sync s ≡ true → 12 ≤ length s
unfolding has_sync
has_sync-long s h = ground arith

has_sync-descramble : (s : List ℕ) → has_sync s ≡ true → has_sync (descramble_in_place s) ≡ true
unfolding has_sync
has_sync-descramble s h =
    let once = (descramble_twice s (has_sync-long s h)).1 in
    ap₂ (λ n l. leb 12 n && same_bytes l sync_pattern) (length-descramble s) once.same_sync ∙ h

-- A sector that has the data sync and a valid header, and whose scrambled form has no valid header,
-- is read as it is, and reading its scrambled form recovers it.
pub for_data-descramble :
    (s : List ℕ) (h : SectorHeader)
    → has_sync s ≡ true
    → parse s ≡ some h
    → parse (descramble_in_place s) ≡ none
    → (for_data s ≡ s) × (for_data (descramble_in_place s) ≡ s)
unfolding for_data
for_data-descramble s h sync valid scrambled =
    let d = descramble_in_place s in
    let back = (descramble_twice s (has_sync-long s sync)).0 in
    (
      if_false (λ l. l ≡ s) (has_sync s && not (is_some (parse s))) _ _
          (ap₂ (λ b o. b && not (is_some o)) sync valid) refl,
      if_true (λ l. l ≡ s) (has_sync d && not (is_some (parse d))) _ _
          (ap₂ (λ b o. b && not (is_some o)) (has_sync-descramble s sync) scrambled)
          (if_true (λ l. l ≡ s) (is_some (parse (descramble_in_place d))) _ _
            (ap is_some (ap parse back ∙ valid)) back),
    )
