-- ===== src/Prelude/Pieces.antt =====
-- Text cut into pieces at a separator.
use Prim.Native.Nat.{ℕ}
use mathlib.Core.Path.{◌≡◌, refl, ap}
use mathlib.Core.Logic.{◌≢◌}
use mathlib.Core.List.{List, [], ◌∷◌, ◌++◌}
use native.Mathlib.Omega.{arith}
use edi_emulator.Prelude.Tests.{◌==◌, if◌then◌else◌, if_true, if_false}

abbrev pub onto : ℕ → List (List ℕ) → List (List ℕ)
onto b [] = (b ∷ []) ∷ []
onto b (piece ∷ pieces) = (b ∷ piece) ∷ pieces

-- The standard library's `split` at a separator: one piece more than there are separators.
unfoldable pub split : ℕ → List ℕ → List (List ℕ)
split sep [] = [] ∷ []
split sep (b ∷ bs) = let rest = split sep bs in if b == sep then [] ∷ rest else onto b rest

-- No byte of the list is the separator.
pub data IsFree (sep : ℕ) : List ℕ → Type 0 where
  free_nil : IsFree sep []
  free_cons : {b : ℕ} {bs : List ℕ} → b ≢ sep → IsFree sep bs → IsFree sep (b ∷ bs)

pub IsFree-append :
    (sep : ℕ) (xs ys : List ℕ) → IsFree sep xs → IsFree sep ys → IsFree sep (xs ++ ys)
IsFree-append sep [] ys free_nil g = g
IsFree-append sep (b ∷ bs) ys (free_cons n f) g = free_cons n (IsFree-append sep bs ys f g)

pub split-append :
    (sep : ℕ) (p rest : List ℕ) → IsFree sep p → split sep (p ++ sep ∷ rest) ≡ p ∷ split sep rest
unfolding split
split-append sep [] rest free_nil =
    if_true (λ l. l ≡ [] ∷ split sep rest) (sep == sep) _ _ (ground arith) refl
split-append sep (b ∷ p) rest (free_cons n f) =
    if_false (λ l. l ≡ (b ∷ p) ∷ split sep rest) (b == sep) _ _ (ground arith)
      (ap (onto b) (split-append sep p rest f))

pub split-free : (sep : ℕ) (p : List ℕ) → IsFree sep p → split sep p ≡ p ∷ []
unfolding split
split-free sep [] free_nil = refl
split-free sep (b ∷ p) (free_cons n f) =
    if_false (λ l. l ≡ (b ∷ p) ∷ []) (b == sep) _ _ (ground arith)
      (ap (onto b) (split-free sep p f))
