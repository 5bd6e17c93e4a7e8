-- ===== src/Os9/Scan.antt =====
-- crates/cdi-os9/src/module.rs: what the two scans find.
use edi_emulator.Prelude.{
  ℕ, zero, suc, ◌+◌, ◌-◌, ◌<◌, ◌≤◌, ◌≡◌, refl, arith, ◌&&◌, leb, ltb, if_true, if_false, Bool-cases,
  inl, inr, le_or_gt, List, [], ◌∷◌, ◌++◌, length, Option, none, some, take, drop, ◌%◌,
}
use mathlib.Core.Path.{subst}
use edi_emulator.Os9.Checksum.{crc_of}
use edi_emulator.Os9.Header.{
  IsModuleAt, NoModuleAt, parse_module_at-some, parse_module_at-none, crc_ok-crc_of,
}
use edi_emulator.Os9.{
  Module, header_len, parse_module_at, behind, scan_round, scan_from, scan_modules, valid_round,
  scan_valid_from, scan_valid_modules,
}

-- All the modules at even offsets from `off` on, but those that begin inside one before them: each is
-- behind the one before it, and between them, and behind the last, is no valid header at an even
-- offset.
pub data Scanned (image : List ℕ) : ℕ → List Module → Type 0 where
  ended :
      {off : ℕ} → ((at : ℕ) → off ≤ at → at % 2 ≡ 0 → NoModuleAt image at) → Scanned image off []
  found :
      {off : ℕ} {m : Module} {ms : List Module}
      → (start : ℕ) → off ≤ start
      → start % 2 ≡ 0
      → IsModuleAt image start m
      → ((at : ℕ) → off ≤ at → at < start → at % 2 ≡ 0 → NoModuleAt image at)
      → Scanned image (start + m.size) ms
      → Scanned image off (m ∷ ms)

-- A header-free stretch before a scan.
earlier-Scanned :
    (image : List ℕ) (off next : ℕ) (ms : List Module)
    → off ≤ next
    → ((at : ℕ) → off ≤ at → at < next → at % 2 ≡ 0 → NoModuleAt image at)
    → Scanned image next ms
    → Scanned image off ms
earlier-Scanned image off next ms h gap (ended rest) = ended (λ at lo even.
    elim (le_or_gt next at) [ inl past ↦ rest at past even | inr before ↦ gap at lo before even ])
earlier-Scanned image off next _ h gap (found start lo even m between rest) =
    found start (omega arith) even m
      (λ at from to even'. elim (le_or_gt next at) [
        | inl past ↦ between at past to even'
        | inr before ↦ gap at from before even'
      ])
      rest

round-Scanned :
    (image : List ℕ) (off fuel : ℕ) (o : Option Module)
    → off % 2 ≡ 0
    → parse_module_at image off ≡ o
    → ((next : ℕ) → off + 2 ≤ next → next % 2 ≡ 0 → Scanned image next (scan_from fuel image next))
    → Scanned image off ((scan_round o off).0 ++ scan_from fuel image (scan_round o off).1)
unfolding scan_round
round-Scanned image off fuel none even e more =
    let here = parse_module_at-none image off e in
    earlier-Scanned image off (off + 2) _ (omega arith)
      (λ at lo hi even'. let same : off ≡ at = omega arith in subst (NoModuleAt image) same here)
      (more (off + 2) (omega arith) (omega arith))
round-Scanned image off fuel (some m) even e more =
    let at = parse_module_at-some image off m e in
    let next = behind off m in
    let long = at.long in
    found off (omega arith) even at (λ at' lo hi even'. absurd (omega arith))
      (earlier-Scanned image (off + m.size) next _ (omega arith)
        (λ at' lo hi even'. absurd (omega arith)) (more next (omega arith) (omega arith)))

scan_from-Scanned :
    (fuel : ℕ) (image : List ℕ) (off : ℕ)
    → off % 2 ≡ 0
    → length image < off + header_len + fuel
    → Scanned image off (scan_from fuel image off)
unfolding scan_from
scan_from-Scanned zero image off even h =
    ended (λ at lo even' m is. let fits = is.header_fits in omega arith)
scan_from-Scanned (suc fuel) image off even h = elim (le_or_gt (off + header_len) (length image)) [
  | inl fits ↦
      if_true (Scanned image off) (leb (off + header_len) (length image)) _ [] (ground arith) (
        round-Scanned image off fuel (parse_module_at image off) even refl
          (λ next n even'. scan_from-Scanned fuel image next even' (omega arith)))
  | inr past ↦
      if_false (Scanned image off) (leb (off + header_len) (length image)) _ [] (ground arith)
        (ended (λ at lo even' m is. let fits = is.header_fits in omega arith))
]

-- The scan of an image reports, in order, the module of the first valid header at an even offset, and
-- behind each module that of the next one: no valid header at an even offset is left out, but those
-- inside a module that is reported. A valid header has the sync word 0x4afc and 24 words
-- whose exclusive or is 0xffff, and its
-- module is at least 48 bytes long, ends within the image and has the offset of its name inside.
pub scan_modules-Scanned : (image : List ℕ) → Scanned image 0 (scan_modules image)
unfolding scan_modules
scan_modules-Scanned image = scan_from-Scanned (length image) image 0 refl (omega arith)

-- At most `limit` modules, in order from an offset on, each with a valid header and the checksum over
-- all its bytes that the format asks for, within the image and behind the one before it.
pub data Listed (image : List ℕ) : ℕ → ℕ → List Module → Type 0 where
  no_more : {limit off : ℕ} → Listed image limit off []
  listed :
      {limit off : ℕ} {m : Module} {ms : List Module}
      → (start : ℕ) → off ≤ start
      → IsModuleAt image start m
      → crc_of (take m.size (drop start image)) 0xff_ffff ≡ 0x80_0fe3
      → start + m.size ≤ length image
      → Listed image limit (start + m.size) ms
      → Listed image (suc limit) off (m ∷ ms)

later-Listed :
    (image : List ℕ) (limit off next : ℕ) (ms : List Module)
    → off ≤ next
    → Listed image limit next ms
    → Listed image limit off ms
later-Listed image limit off next [] h no_more = no_more
later-Listed image zero off next (m ∷ ms) h l = elim l [ ]
later-Listed image (suc limit) off next (m ∷ ms) h (listed start o p c e l) =
    listed start (omega arith) p c e l

round-Listed :
    (image : List ℕ) (fuel limit off : ℕ) (o : Option Module)
    → parse_module_at image off ≡ o
    → ((l k next : ℕ) → k ≡ l → Listed image l next (scan_valid_from fuel image k next))
    → Listed image (suc limit) off (
        (valid_round o off).0
        ++ scan_valid_from fuel image
            (suc limit - length (valid_round o off).0)
            (valid_round o off).1)
unfolding valid_round
round-Listed image fuel limit off none e more =
    later-Listed image (suc limit) off (off + 2) _ (omega arith)
      (more (suc limit) (suc limit - 0) (off + 2) (omega arith))
round-Listed image fuel limit off (some m) e more =
    let P : List Module × ℕ → Type 0 = λ (r : List Module × ℕ).
      Listed image (suc limit) off
        (r.0 ++ scan_valid_from fuel image (suc limit - length r.0) r.1) in
    let at = parse_module_at-some image off m e in
    elim (Bool-cases m.crc_ok) [
      | inl c ↦
          if_true P m.crc_ok (m ∷ [], behind off m) ([], off + 2) c
            (listed off (omega arith) at (crc_ok-crc_of image off m at c) at.fits (
              later-Listed image limit (off + m.size) (behind off m) _ (omega arith)
                (more limit (suc limit - 1) (behind off m) (omega arith))))
      | inr c ↦
          if_false P m.crc_ok (m ∷ [], behind off m) ([], off + 2) c
            (later-Listed image (suc limit) off (off + 2) _ (omega arith)
              (more (suc limit) (suc limit - 0) (off + 2) (omega arith)))
    ]

scan_valid_from-Listed :
    (fuel : ℕ) (image : List ℕ) (limit off : ℕ)
    → Listed image limit off (scan_valid_from fuel image limit off)
unfolding scan_valid_from
scan_valid_from-Listed zero image limit off = no_more
scan_valid_from-Listed (suc fuel) image zero off =
    if_false (Listed image 0 off) (leb (off + header_len) (length image) && ltb 0 0) _ []
      (ground arith) no_more
scan_valid_from-Listed (suc fuel) image (suc limit) off =
    elim (le_or_gt (off + header_len) (length image)) [
      | inl fits ↦
          if_true (Listed image (suc limit) off)
            (leb (off + header_len) (length image) && ltb 0 (suc limit)) _ [] (ground arith)
            (round-Listed image fuel limit off (parse_module_at image off) refl
              (λ l k next e. rw e (scan_valid_from-Listed fuel image l next)))
      | inr past ↦
          if_false (Listed image (suc limit) off)
            (leb (off + header_len) (length image) && ltb 0 (suc limit)) _ [] (ground arith) no_more
    ]

-- The scan of live memory reports at most `limit` modules, each with a valid header and with the
-- CRC-24 over all its bytes (polynomial 0x800063, from 0xffffff on) equal to 0x800fe3, within the
-- memory, in order and without overlap.
pub scan_valid_modules-Listed :
    (image : List ℕ) (limit : ℕ) → Listed image limit 0 (scan_valid_modules image limit)
unfolding scan_valid_modules
scan_valid_modules-Listed image limit = scan_valid_from-Listed (length image) image limit 0
