-- ===== src/Os9/Records.antt =====
-- crates/cdi-os9/src/module.rs: the records that the text of a descriptor is read back as.
use edi_emulator.Prelude.Pieces.{
  split, IsFree, IsFree-append, split-append, split-free, free_nil, free_cons,
}
use edi_emulator.Os9.Pieces.{
  IsPlain, plain-IsFree_colon, plain-IsFree_return, IsText, IsText-append, plain-IsText,
  until_zero-append, text-is_ascii, text_nil, text_cons,
}
use edi_emulator.Prelude.{
  ℕ, ◌≡◌, refl, arith, ap, ◌∙◌, inr, false, if_true, if_false, if◌then◌else◌, List, [], ◌∷◌, ◌++◌,
  Option, none, some, ◌>>=◌,
}
use mathlib.Core.List.{append-nil}
use edi_emulator.Os9.Csd.{
  CsdRecord, Parsed, is_empty, non_empty, record_of, with_record, records_of, until_zero, is_ascii,
  parse_text,
}

-- The text of records: the class as text, the name, and the fields.
unfoldable pub fields_text : List (List ℕ) → List ℕ
fields_text [] = []
fields_text (f ∷ fs) = 0x3a ∷ (f ++ fields_text fs)

unfoldable pub line_text : List ℕ → CsdRecord → List ℕ
unfolding fields_text
line_text digits r = digits ++ (0x3a ∷ (r.name ++ fields_text r.fields))

unfoldable pub lines_text : List (List ℕ × CsdRecord) → List ℕ
unfolding line_text
lines_text [] = []
lines_text ((digits, r) ∷ ls) = line_text digits r ++ (0x0d ∷ lines_text ls)

abbrev pub records : List (List ℕ × CsdRecord) → List CsdRecord
records [] = []
records ((digits, r) ∷ ls) = r ∷ records ls

-- Fields with plain characters, none of them empty.
pub data AreFields : List (List ℕ) → Type 0 where
  no_field : AreFields []
  field_then :
      {f : List ℕ} {fs : List (List ℕ)}
      → IsPlain f
      → is_empty f ≡ false
      → AreFields fs
      → AreFields (f ∷ fs)

pub record IsLine (parse_u16 : List ℕ → Option ℕ) (digits : List ℕ) (r : CsdRecord) : Type 0 where
  pub read : parse_u16 digits ≡ some r.device_class
  pub plain_digits : IsPlain digits
  pub plain_name : IsPlain r.name
  pub named : is_empty r.name ≡ false
  pub all_fields : AreFields r.fields

pub data AreLines (parse_u16 : List ℕ → Option ℕ) : List (List ℕ × CsdRecord) → Type 0 where
  no_line : AreLines parse_u16 []
  line_then :
      {digits : List ℕ} {r : CsdRecord} {ls : List (List ℕ × CsdRecord)}
      → IsLine parse_u16 digits r
      → AreLines parse_u16 ls
      → AreLines parse_u16 ((digits, r) ∷ ls)

fields-split :
    (p : List ℕ) (fs : List (List ℕ))
    → IsPlain p
    → AreFields fs
    → split 0x3a (p ++ fields_text fs) ≡ p ∷ fs
unfolding fields_text
fields-split p [] h no_field =
    ap (split 0x3a) (append-nil p) ∙ split-free 0x3a p (plain-IsFree_colon p h)
fields-split p (f ∷ fs) h (field_then g n all) =
    split-append 0x3a p (f ++ fields_text fs) (plain-IsFree_colon p h)
    ∙ ap (λ l. p ∷ l) (fields-split f fs g all)

fields-non_empty : (fs : List (List ℕ)) → AreFields fs → non_empty fs ≡ fs
fields-non_empty [] no_field = refl
fields-non_empty ([] ∷ fs) (field_then g n all) = absurd (ground arith)
fields-non_empty ((b ∷ f) ∷ fs) (field_then g n all) =
    ap (λ l. (b ∷ f) ∷ l) (fields-non_empty fs all)

line-record :
    (parse_u16 : List ℕ → Option ℕ) (digits : List ℕ) (r : CsdRecord)
    → IsLine parse_u16 digits r
    → record_of parse_u16 (split 0x3a (line_text digits r)) ≡ some r
unfolding record_of line_text
line-record parse_u16 digits r h =
    ap (record_of parse_u16) (
      split-append 0x3a digits (r.name ++ fields_text r.fields)
        (plain-IsFree_colon digits h.plain_digits))
    ∙ ap (λ l. record_of parse_u16 (digits ∷ l))
        (fields-split r.name r.fields h.plain_name h.all_fields)
    ∙ ap
        (λ (o : Option ℕ). do
          device_class ← o
          if is_empty r.name
              then none
              else some (record {
                device_class = device_class;
                name = r.name;
                fields = non_empty r.fields;
              }))
        h.read
    ∙ if_false (λ o. o ≡ some r) (is_empty r.name) none
        (some (record r { fields = non_empty r.fields })) h.named
        (ap (λ l. some (record r { fields = l })) (fields-non_empty r.fields h.all_fields))

-- A line is not empty, so it is read as a record.
line-records :
    (parse_u16 : List ℕ → Option ℕ) (digits : List ℕ) (r : CsdRecord) (lines : List (List ℕ))
    → records_of parse_u16 (line_text digits r ∷ lines)
      ≡ with_record
          (record_of parse_u16 (split 0x3a (line_text digits r)))
          (records_of parse_u16 lines)
unfolding records_of line_text
line-records parse_u16 [] r lines = refl
line-records parse_u16 (d ∷ digits) r lines = refl

fields-IsFree : (fs : List (List ℕ)) → AreFields fs → IsFree 0x0d (fields_text fs)
unfolding fields_text
fields-IsFree [] no_field = free_nil
fields-IsFree (f ∷ fs) (field_then g n all) =
    free_cons (λ e. omega arith)
      (IsFree-append 0x0d f (fields_text fs) (plain-IsFree_return f g) (fields-IsFree fs all))

fields-IsText : (fs : List (List ℕ)) → AreFields fs → IsText (fields_text fs)
unfolding fields_text
fields-IsText [] no_field = text_nil
fields-IsText (f ∷ fs) (field_then g n all) =
    text_cons (omega arith) (omega arith)
      (IsText-append f (fields_text fs) (plain-IsText f g) (fields-IsText fs all))

line-IsFree :
    (p : List ℕ → Option ℕ) (digits : List ℕ) (r : CsdRecord)
    → IsLine p digits r
    → IsFree 0x0d (line_text digits r)
unfolding line_text
line-IsFree p digits r h = IsFree-append 0x0d digits _ (plain-IsFree_return digits h.plain_digits) (
    free_cons (λ e. omega arith)
      (IsFree-append 0x0d r.name (fields_text r.fields) (plain-IsFree_return r.name h.plain_name)
        (fields-IsFree r.fields h.all_fields)))

line-IsText :
    (p : List ℕ → Option ℕ) (digits : List ℕ) (r : CsdRecord)
    → IsLine p digits r
    → IsText (line_text digits r)
unfolding line_text
line-IsText p digits r h = IsText-append digits _ (plain-IsText digits h.plain_digits) (
    text_cons (omega arith) (omega arith) (
      IsText-append r.name (fields_text r.fields) (plain-IsText r.name h.plain_name)
        (fields-IsText r.fields h.all_fields)))

lines-IsText :
    (p : List ℕ → Option ℕ) (ls : List (List ℕ × CsdRecord))
    → AreLines p ls
    → IsText (lines_text ls)
unfolding lines_text
lines-IsText p [] no_line = text_nil
lines-IsText p ((digits, r) ∷ ls) (line_then h all) =
    IsText-append (line_text digits r) _ (line-IsText p digits r h)
      (text_cons (omega arith) (omega arith) (lines-IsText p ls all))

lines-records :
    (p : List ℕ → Option ℕ) (ls : List (List ℕ × CsdRecord))
    → AreLines p ls
    → records_of p (split 0x0d (lines_text ls)) ≡ inr (records ls)
unfolding lines_text records_of split
lines-records p [] no_line = refl
lines-records p ((digits, r) ∷ ls) (line_then h all) =
    ap (records_of p)
      (split-append 0x0d (line_text digits r) (lines_text ls) (line-IsFree p digits r h))
    ∙ line-records p digits r (split 0x0d (lines_text ls))
    ∙ ap (λ o. with_record o (records_of p (split 0x0d (lines_text ls)))) (line-record p digits r h)
    ∙ ap (with_record (some r)) (lines-records p ls all)

-- The text of records, each on a line that ends with a carriage return, with a class that reads as
-- its number, a name and non-empty fields of plain characters, followed by a zero and anything, is
-- read back as the records.
pub parse_text-lines_text :
    (parse_u16 : List ℕ → Option ℕ) (ls : List (List ℕ × CsdRecord)) (rest : List ℕ)
    → AreLines parse_u16 ls
    → parse_text parse_u16 (until_zero (lines_text ls ++ 0 ∷ rest)) ≡ inr (records ls)
unfolding parse_text
parse_text-lines_text parse_u16 ls rest h =
    let text = lines-IsText parse_u16 ls h in
    ap (parse_text parse_u16) (until_zero-append (lines_text ls) rest text)
    ∙ if_true (λ (o : Parsed). o ≡ inr (records ls)) (is_ascii (lines_text ls))
        (records_of parse_u16 (split 0x0d (lines_text ls))) _ (text-is_ascii (lines_text ls) text)
        (lines-records parse_u16 ls h)
