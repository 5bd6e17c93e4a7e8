-- ===== src/Os9/Header.antt =====
-- crates/cdi-os9/src/module.rs: where a module's header stands, by the rules of the format.
use edi_emulator.Prelude.{
  ==_iff, ◌≤◌, ◌<◌, leb, ltb, ◌==◌, ◌&&◌, true, Bool, ℕ, ◌+◌, ◌≡◌, refl, sym, ap, ◌∙◌, arith, false,
  if_true, if_false, Bool-cases, inl, inr, List, length, take, drop, Option, none, some,
}
use mathlib.Core.Path.{subst}
use edi_emulator.Os9.Checksum.{xor_of, header_parity_iff, crc_of, crc24-crc_of}
use edi_emulator.Os9.{
  Module, be16, be32, crc24, crc24_magic, header_parity_ok, module_at, is_header, parse_module_at,
}

-- A valid header at `off`, and the module that it describes.
pub record IsModuleAt (image : List ℕ) (off : ℕ) (m : Module) : Type 0 where
  pub header_fits : off + 48 ≤ length image
  pub sync_word : be16 image off ≡ 0x4afc
  pub parity : xor_of 24 image off ≡ 0xffff
  pub size : m.size ≡ be32 image (off + 4)
  pub long : 48 ≤ m.size
  pub fits : off + m.size ≤ length image
  pub name_inside : be32 image (off + 12) < m.size
  pub same : m ≡ module_at image off

-- No valid header at `off`.
abbrev pub NoModuleAt : List ℕ → ℕ → Type 0
NoModuleAt image off = (m : Module) → ¬ IsModuleAt image off m

some_injective {ℓ} : {A : Type ℓ} (a b : A) → some a ≡ some b → a ≡ b
some_injective a b e = ap (λ o. elim o [ none ↦ a | some x ↦ x ]) e

header-IsModuleAt :
    (image : List ℕ) (off : ℕ)
    → is_header image off ≡ true
    → IsModuleAt image off (module_at image off)
unfolding is_header module_at
header-IsModuleAt image off h =
    let words : header_parity_ok (take 48 (drop off image)) ≡ true = ground arith in
    record {
      header_fits = ground arith;
      sync_word = ground arith;
      parity = (header_parity_iff image off).0 words;
      size = refl;
      long = ground arith;
      fits = ground arith;
      name_inside = ground arith;
      same = refl;
    }

leb-true : (a b : ℕ) → a ≤ b → leb a b ≡ true
leb-true a b h = ground arith

ltb-true : (a b : ℕ) → a < b → ltb a b ≡ true
ltb-true a b h = ground arith

all_six :
    (a b c d e f : Bool)
    → a ≡ true
    → b ≡ true
    → c ≡ true
    → d ≡ true
    → e ≡ true
    → f ≡ true
    → (a && b && c && d && e && f) ≡ true
all_six a b c d e f p q r s t u = ground arith

IsModuleAt-header :
    (image : List ℕ) (off : ℕ) (m : Module) → IsModuleAt image off m → is_header image off ≡ true
unfolding is_header
IsModuleAt-header image off m h =
    let size = be32 image (off + 4) in
    let same = h.size in
    let header_fits = h.header_fits in
    let sync_word = h.sync_word in
    let long = h.long in
    let fits = h.fits in
    let name_inside = h.name_inside in
    all_six (leb (off + 48) (length image)) (be16 image off == 0x4afc)
      (header_parity_ok (take 48 (drop off image))) (leb 48 size) (leb (off + size) (length image))
      (ltb (be32 image (off + 12)) size) (leb-true _ _ header_fits) ((==_iff _ _).1 sync_word)
      ((header_parity_iff image off).1 h.parity) (leb-true _ _ (omega arith))
      (leb-true _ _ (omega arith)) (ltb-true _ _ (omega arith))

is_found : Option Module → Bool
is_found none = false
is_found (some m) = true

-- The module that the parser finds.
pub parse_module_at-some :
    (image : List ℕ) (off : ℕ) (m : Module)
    → parse_module_at image off ≡ some m
    → IsModuleAt image off m
unfolding parse_module_at is_found
parse_module_at-some image off m e = elim (Bool-cases (is_header image off)) [
  | inl h ↦
      let found : some (module_at image off) ≡ some m =
        sym (if_true (λ o. o ≡ some (module_at image off)) (is_header image off) _ none h refl)
        ∙ e in
      subst (IsModuleAt image off) (some_injective _ _ found) (header-IsModuleAt image off h)
  | inr h ↦
      let nothing : false ≡ true =
        sym (
          if_false (λ o. is_found o ≡ false) (is_header image off) (some (module_at image off)) none
            h refl)
        ∙ ap is_found e in
      absurd (ground arith)
]

-- Where the parser finds none, there is none.
pub parse_module_at-none :
    (image : List ℕ) (off : ℕ) → parse_module_at image off ≡ none → NoModuleAt image off
unfolding parse_module_at is_found
parse_module_at-none image off e m at =
    let something : true ≡ false =
      sym (
        if_true (λ o. is_found o ≡ true) (is_header image off) (some (module_at image off)) none
          (IsModuleAt-header image off m at) refl)
      ∙ ap is_found e in
    absurd (ground arith)

-- The checksum of a module that is reported as right.
pub crc_ok-crc_of :
    (image : List ℕ) (off : ℕ) (m : Module)
    → IsModuleAt image off m
    → m.crc_ok ≡ true
    → crc_of (take m.size (drop off image)) 0xff_ffff ≡ 0x80_0fe3
unfolding module_at
crc_ok-crc_of image off m h c =
    let flag : (crc24 (take (be32 image (off + 4)) (drop off image)) == crc24_magic) ≡ true =
      sym (ap (λ (n : Module). n.crc_ok) h.same) ∙ c in
    sym (crc24-crc_of (take m.size (drop off image)))
    ∙ ap (λ n. crc24 (take n (drop off image))) h.size
    ∙ ground arith
