-- ===== src/Disc/Text.antt =====
-- crates/cdi-disc/src/lib.rs: the text form of an address.
use edi_emulator.Prelude.{
  ℕ, ◌+◌, ◌-◌, ◌*◌, ◌/◌, ◌%◌, ◌<◌, ◌≡◌, refl, arith, ap, ◌∙◌, ◌&&◌, ◌||◌, ltb, leb, ◌==◌,
  if◌then◌else◌, if_true, if_false, List, [], ◌∷◌, ◌++◌, Option, none, some, ◌>>=◌, le_or_gt, inl,
  inr,
}
use edi_emulator.Prelude.Pieces.{split, IsFree, free_nil, free_cons, split-append, split-free}
use edi_emulator.Disc.{Msf}

-- `str::parse` for `u8`: an optional sign, and at least one digit.
unfoldable pub digits : ℕ → List ℕ → Option ℕ
digits acc [] = some acc
digits acc (b ∷ bs) =
    let n = acc * 10 + (b - 0x30) in
    let rest = digits n bs in if leb 0x30 b && leb b 0x39 && ltb n 256 then rest else none

abbrev pub unsigned : List ℕ → List ℕ
unsigned [] = []
unsigned (b ∷ bs) = if b == 0x2b then bs else b ∷ bs

abbrev pub some_digits : List ℕ → Option ℕ
some_digits [] = none
some_digits (b ∷ bs) = digits 0 (b ∷ bs)

unfoldable pub parse_u8 : List ℕ → Option ℕ
unfolding digits
parse_u8 text = some_digits (unsigned text)

unfoldable pub msf_of : List (List ℕ) → Option Msf
unfolding parse_u8
msf_of (m ∷ s ∷ f ∷ []) = do
  minute ← parse_u8 m
  second ← parse_u8 s
  frame ← parse_u8 f
  if leb 60 second || leb 75 frame
      then none
      else some (record { m = minute; s = second; f = frame })
msf_of _ = none

unfoldable pub parse_msf : List ℕ → Option Msf
unfolding msf_of split
parse_msf text = msf_of (split 0x3a text)

-- `{:02}` of a byte.
unfoldable pub two_digits : ℕ → List ℕ
two_digits n =
    if ltb n 100
    then (0x30 + n / 10) ∷ (0x30 + n % 10) ∷ []
    else (0x30 + n / 100) ∷ (0x30 + n / 10 % 10) ∷ (0x30 + n % 10) ∷ []

unfoldable pub display : Msf → List ℕ
unfolding two_digits
display a = two_digits a.m ++ (0x3a ∷ (two_digits a.s ++ (0x3a ∷ two_digits a.f)))

two_digits-IsFree : (n : ℕ) → n < 256 → IsFree 0x3a (two_digits n)
unfolding two_digits
two_digits-IsFree n h = elim (le_or_gt n 99) [
  | inl small ↦
      if_true (IsFree 0x3a) (ltb n 100) _ _ (ground arith)
        (free_cons (λ e. omega arith) (free_cons (λ e. omega arith) free_nil))
  | inr large ↦ if_false (IsFree 0x3a) (ltb n 100) _ _ (ground arith) (
      free_cons (λ e. omega arith)
        (free_cons (λ e. omega arith) (free_cons (λ e. omega arith) free_nil)))
]

parse_u8-two_digits : (n : ℕ) → n < 256 → parse_u8 (two_digits n) ≡ some n
unfolding parse_u8 digits two_digits
parse_u8-two_digits n h = ground arith

-- An address of fewer than 256 minutes, 60 seconds and 75 frames is read back from its text.
pub parse_msf-display : (a : Msf) → a.m < 256 → a.s < 60 → a.f < 75 → parse_msf (display a) ≡ some a
unfolding parse_msf display msf_of
parse_msf-display a hm hs hf =
    let minutes = two_digits a.m in
    let seconds = two_digits a.s in
    let frames = two_digits a.f in
    let pieces : split 0x3a (display a) ≡ minutes ∷ seconds ∷ frames ∷ [] =
      split-append 0x3a minutes (seconds ++ (0x3a ∷ frames)) (two_digits-IsFree a.m hm)
      ∙ ap (λ l. minutes ∷ l)
          (split-append 0x3a seconds frames (two_digits-IsFree a.s (omega arith)))
      ∙ ap (λ l. minutes ∷ seconds ∷ l)
          (split-free 0x3a frames (two_digits-IsFree a.f (omega arith))) in
    let given : Option ℕ → Option ℕ → Option ℕ → Option Msf = λ x y z. (do
      minute ← x
      second ← y
      frame ← z
      if leb 60 second || leb 75 frame
          then none
          else some (record { m = minute; s = second; f = frame })) in
    ap msf_of pieces
    ∙ ap (λ x. given x (parse_u8 seconds) (parse_u8 frames)) (parse_u8-two_digits a.m hm)
    ∙ ap (λ y. given (some a.m) y (parse_u8 frames)) (parse_u8-two_digits a.s (omega arith))
    ∙ ap (λ z. given (some a.m) (some a.s) z) (parse_u8-two_digits a.f (omega arith))
    ∙ if_false (λ o. o ≡ some a) (leb 60 a.s || leb 75 a.f) none (some a) (ground arith) refl
