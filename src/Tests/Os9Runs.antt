-- ===== src/Tests/Os9Runs.antt =====
-- OS-9 modules at concrete images (crates/cdi-os9/src/module.rs).
use edi_emulator.Prelude.{
  ℕ, ◌≡◌, ◌<◌, refl, arith, inr, List, [], ◌∷◌, ◌++◌, Option, some, replicate, length,
}
use edi_emulator.Os9.{scan_modules, scan_valid_modules}
use edi_emulator.Os9.Scan.{Scanned, Listed, scan_modules-Scanned, scan_valid_modules-Listed}
use edi_emulator.Os9.Csd.{CsdRecord, parse_text, until_zero}
use edi_emulator.Os9.Pieces.{IsPlain, plain_nil, plain_cons}
use edi_emulator.Os9.Records.{
  no_field, field_then, no_line, line_then, lines_text, parse_text-lines_text,
}

-- A system module of 52 bytes with the name "A", at offset 2.
abbrev rom : List ℕ
rom =
    0 ∷ 0 ∷ []
    ++ (0x4a ∷ 0xfc ∷ 0x00 ∷ 0x00 ∷ 0x00 ∷ 0x00 ∷ 0x00 ∷ 0x34 ∷ 0x00 ∷ 0x00 ∷ 0x00 ∷ 0x00 ∷ 0x00
        ∷ 0x00 ∷ 0x00 ∷ 0x30 ∷ 0x00 ∷ 0x00 ∷ 0x0c ∷ 0x01 ∷ [])
    ++ replicate 26 0
    ++ (0xb9 ∷ 0x06 ∷ 0xc1 ∷ 0xb0 ∷ 0x89 ∷ 0x31 ∷ [])
    ++ replicate 7 0

scan_modules-Scanned_example : Scanned rom 0 (scan_modules rom)
scan_modules-Scanned_example = scan_modules-Scanned rom

scan_valid_modules-Listed_example : Listed rom 1 0 (scan_valid_modules rom 1)
scan_valid_modules-Listed_example = scan_valid_modules-Listed rom 1

-- A reading of the numeral "3".
abbrev read_three : List ℕ → Option ℕ
read_three text = some 3

-- "3:n:f"
abbrev device : CsdRecord
device = record { device_class = 3; name = 0x6e ∷ []; fields = (0x66 ∷ []) ∷ [] }

one-IsPlain : (b : ℕ) → 0x3a < b → b < 0x80 → IsPlain (b ∷ [])
one-IsPlain b h l = plain_cons (omega arith) l (λ e. omega arith) (λ e. omega arith) plain_nil

three-IsPlain : IsPlain (0x33 ∷ [])
three-IsPlain =
    plain_cons (omega arith) (omega arith) (λ e. omega arith) (λ e. omega arith) plain_nil

parse_text-lines_text_example :
    parse_text read_three (until_zero (lines_text ((0x33 ∷ [], device) ∷ []) ++ 0 ∷ 0x0d ∷ []))
    ≡ inr (device ∷ [])
parse_text-lines_text_example =
    parse_text-lines_text read_three ((0x33 ∷ [], device) ∷ []) (0x0d ∷ []) (
      line_then
        (record {
          read = refl;
          plain_digits = three-IsPlain;
          plain_name = one-IsPlain 0x6e (omega arith) (omega arith);
          named = refl;
          all_fields = field_then (one-IsPlain 0x66 (omega arith) (omega arith)) refl no_field;
        })
        no_line)

rom-found : length (scan_valid_modules rom 1) ≡ 1
unfolding scan_valid_modules
rom-found = refl
