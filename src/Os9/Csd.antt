-- ===== src/Os9/Csd.antt =====
-- crates/cdi-os9/src/module.rs: the records of a configuration-status descriptor.
use edi_emulator.Prelude.{
  ℕ, ◌+◌, ◌⊎◌, inl, inr, Bool, true, false, not, ◌&&◌, ltb, leb, ◌==◌, if◌then◌else◌, List, [], ◌∷◌,
  Option, none, some, ◌>>=◌, length, take, drop,
}
use edi_emulator.Prelude.Pieces.{split}
use edi_emulator.Os9.{Module, ModuleType, csd_data, header_len, be32}

pub record CsdRecord : Type 0 where
  pub device_class : ℕ
  pub name : List ℕ
  pub fields : List (List ℕ)

pub data CsdParseError : Type 0 where
  not_csd_data module_out_of_bounds missing_data_offset invalid_data_offset missing_terminator
        invalid_ascii invalid_record :
      CsdParseError

abbrev pub Parsed : Type 0
Parsed = CsdParseError ⊎ List CsdRecord

abbrev pub is_empty : List ℕ → Bool
is_empty [] = true
is_empty (b ∷ bs) = false

abbrev pub non_empty : List (List ℕ) → List (List ℕ)
non_empty [] = []
non_empty ([] ∷ pieces) = non_empty pieces
non_empty ((b ∷ bs) ∷ pieces) = (b ∷ bs) ∷ non_empty pieces

-- The pieces of a record: the class, the name, and the fields.
unfoldable pub record_of : (List ℕ → Option ℕ) → List (List ℕ) → Option CsdRecord
record_of parse_u16 [] = none
record_of parse_u16 (part ∷ []) = none
record_of parse_u16 (part ∷ name ∷ parts) = do
  device_class ← parse_u16 part
  if is_empty name
      then none
      else some (record { device_class = device_class; name = name; fields = non_empty parts })

abbrev pub with_record : Option CsdRecord → Parsed → Parsed
with_record none rest = inl invalid_record
with_record (some r) (inl e) = inl e
with_record (some r) (inr rs) = inr (r ∷ rs)

-- The loop over the lines. Its only error is an invalid record, so that the first one is the result.
unfoldable pub records_of : (List ℕ → Option ℕ) → List (List ℕ) → Parsed
unfolding record_of split
records_of parse_u16 [] = inr []
records_of parse_u16 ([] ∷ lines) = records_of parse_u16 lines
records_of parse_u16 ((b ∷ bs) ∷ lines) =
    with_record (record_of parse_u16 (split 0x3a (b ∷ bs))) (records_of parse_u16 lines)

-- The bytes before the first zero.
unfoldable pub until_zero : List ℕ → Option (List ℕ)
until_zero [] = none
until_zero (b ∷ bs) =
    let rest = until_zero bs in if b == 0 then some [] else (do text ← rest; some (b ∷ text))

unfoldable pub is_ascii : List ℕ → Bool
is_ascii [] = true
is_ascii (b ∷ bs) = ltb b 0x80 && is_ascii bs

unfoldable pub parse_text : (List ℕ → Option ℕ) → Option (List ℕ) → Parsed
unfolding is_ascii records_of split
parse_text parse_u16 none = inl missing_terminator
parse_text parse_u16 (some text) =
    if is_ascii text then records_of parse_u16 (split 0x0d text) else inl invalid_ascii

abbrev pub is_csd : ModuleType → Bool
is_csd csd_data = true
is_csd _ = false

-- `parse_u16` is the standard library's `str::parse` for `u16`.
unfoldable pub parse_csd_records : (List ℕ → Option ℕ) → List ℕ → Module → Parsed
unfolding until_zero parse_text
parse_csd_records parse_u16 image m =
    let bytes = take m.size (drop m.offset image) in
    let data_offset = be32 bytes header_len in
    if not (is_csd m.mod_type)
    then inl not_csd_data
    else if ltb (length image) (m.offset + m.size)
    then inl module_out_of_bounds
    else if ltb (length bytes) (header_len + 4)
    then inl missing_data_offset
    else if not (leb (header_len + 4) data_offset && ltb data_offset (length bytes))
    then inl invalid_data_offset
    else parse_text parse_u16 (until_zero (drop data_offset bytes))
