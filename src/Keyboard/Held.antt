-- ===== src/Keyboard/Held.antt =====
-- crates/cdi-core/src/keyboard.rs: `set_key`, the keys that are held.
use edi_emulator.Prelude.{
  ℕ, if_true, if_false, if_both, Bool-cases, ◌==◌, ◌≢◌, ◌≡◌, arith, Bool, true, false, inl, inr,
  if◌then◌else◌, List, [], ◌∷◌, ◌++◌,
}
use mathlib.Core.Path.{subst}
use edi_emulator.Prelude.Bytes.{AllBytes}
use edi_emulator.Keyboard.{remove_first}

-- The first `code` of a list taken out, if there is one, and the others in their order.
pub data IsWithout (code : ℕ) : List ℕ → List ℕ → Type 0 where
  ended : IsWithout code [] []
  taken_out : {keys : List ℕ} → IsWithout code (code ∷ keys) keys
  kept :
      {x : ℕ} {keys others : List ℕ}
      → x ≢ code
      → IsWithout code keys others
      → IsWithout code (x ∷ keys) (x ∷ others)

-- The keys held after a transition of `code`: the others in their order, and `code` last if it is
-- pressed.
pub data IsHeldAfter (code : ℕ) (keys : List ℕ) : Bool → List ℕ → Type 0 where
  on_release : {others : List ℕ} → IsWithout code keys others → IsHeldAfter code keys false others
  on_press :
      (others : List ℕ)
      → IsWithout code keys others
      → IsHeldAfter code keys true (others ++ (code ∷ []))

remove_first-IsWithout : (code : ℕ) (l : List ℕ) → IsWithout code l (remove_first code l)
unfolding remove_first
remove_first-IsWithout code [] = ended
remove_first-IsWithout code (x ∷ l) = elim (Bool-cases (x == code)) [
  | inl e ↦
      let same : code ≡ x = ground arith in
      if_true (IsWithout code (x ∷ l)) (x == code) l (x ∷ remove_first code l) e
        (subst (λ y. IsWithout code (y ∷ l) l) same taken_out)
  | inr e ↦
      let other : x ≢ code = ground arith in
      if_false (IsWithout code (x ∷ l)) (x == code) l (x ∷ remove_first code l) e
        (kept other (remove_first-IsWithout code l))
]

pub held-IsHeldAfter :
    (code : ℕ) (keys : List ℕ) (pressed : Bool)
    → IsHeldAfter code keys pressed
        (if pressed then remove_first code keys ++ (code ∷ []) else remove_first code keys)
held-IsHeldAfter code keys true =
    on_press (remove_first code keys) (remove_first-IsWithout code keys)
held-IsHeldAfter code keys false = on_release (remove_first-IsWithout code keys)

pub remove_first-AllBytes : (code : ℕ) (l : List ℕ) → AllBytes l → AllBytes (remove_first code l)
unfolding remove_first
remove_first-AllBytes code [] h = tt
remove_first-AllBytes code (x ∷ l) h =
    if_both AllBytes (x == code) l (x ∷ remove_first code l) h.1
      (h.0, remove_first-AllBytes code l h.1)
