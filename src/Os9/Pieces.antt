-- ===== src/Os9/Pieces.antt =====
-- crates/cdi-os9/src/module.rs: the characters of a descriptor's text, and its pieces.
use edi_emulator.Prelude.{
  ℕ, ◌<◌, ◌≡◌, ◌≢◌, refl, arith, ap, true, ◌==◌, if_false, List, [], ◌∷◌, ◌++◌, some, ◌>>=◌,
}
use edi_emulator.Prelude.Pieces.{IsFree, free_nil, free_cons}
use edi_emulator.Os9.Csd.{until_zero, is_ascii}

-- The characters of a field: ASCII, and neither zero nor a separator.
pub data IsPlain : List ℕ → Type 0 where
  plain_nil : IsPlain []
  plain_cons :
      {b : ℕ} {bs : List ℕ} → 0 < b → b < 0x80 → b ≢ 0x3a → b ≢ 0x0d → IsPlain bs → IsPlain (b ∷ bs)

pub plain-IsFree_colon : (p : List ℕ) → IsPlain p → IsFree 0x3a p
plain-IsFree_colon [] plain_nil = free_nil
plain-IsFree_colon (b ∷ p) (plain_cons z a c r h) = free_cons c (plain-IsFree_colon p h)

pub plain-IsFree_return : (p : List ℕ) → IsPlain p → IsFree 0x0d p
plain-IsFree_return [] plain_nil = free_nil
plain-IsFree_return (b ∷ p) (plain_cons z a c r h) = free_cons r (plain-IsFree_return p h)

-- ASCII without zeros.
pub data IsText : List ℕ → Type 0 where
  text_nil : IsText []
  text_cons : {b : ℕ} {bs : List ℕ} → 0 < b → b < 0x80 → IsText bs → IsText (b ∷ bs)

pub IsText-append : (xs ys : List ℕ) → IsText xs → IsText ys → IsText (xs ++ ys)
IsText-append [] ys text_nil g = g
IsText-append (b ∷ bs) ys (text_cons z a f) g = text_cons z a (IsText-append bs ys f g)

pub plain-IsText : (p : List ℕ) → IsPlain p → IsText p
plain-IsText [] plain_nil = text_nil
plain-IsText (b ∷ p) (plain_cons z a c r h) = text_cons z a (plain-IsText p h)

pub until_zero-append : (xs rest : List ℕ) → IsText xs → until_zero (xs ++ 0 ∷ rest) ≡ some xs
unfolding until_zero
until_zero-append [] rest text_nil = refl
until_zero-append (b ∷ xs) rest (text_cons z a h) =
    if_false (λ o. o ≡ some (b ∷ xs)) (b == 0) _ _ (ground arith)
      (ap (λ o. do text ← o; some (b ∷ text)) (until_zero-append xs rest h))

pub text-is_ascii : (xs : List ℕ) → IsText xs → is_ascii xs ≡ true
unfolding is_ascii
text-is_ascii [] text_nil = refl
text-is_ascii (b ∷ xs) (text_cons z a h) = let e = text-is_ascii xs h in ground arith
