-- ===== src/Prelude/Paced.antt =====
-- The loop `while accum >= PERIOD { accum -= PERIOD; ... }` by which a device turns CPU cycles
-- into its own steps: on fuel, with the closed form that it computes and its behaviour when the
-- cycles arrive in several portions.
use Prim.Native.Nat.{ℕ, zero, suc, ◌+◌, ◌-◌, ◌*◌, ◌<◌}
use mathlib.Core.Path.{◌≡◌, refl, sym, ap, ◌∙◌}
use mathlib.Core.Bool.{true, false}
use native.Mathlib.Omega.{arith}
use edi_emulator.Prelude.Tests.{leb}

module _ {ℓ} {S : Type ℓ} where
  unfoldable pub iterate : ℕ → (S → S) → S → S
  iterate zero f s = s
  iterate (suc n) f s = iterate n f (f s)

  pub iterate-add :
      (m n : ℕ) (f : S → S) (s : S) → iterate (m + n) f s ≡ iterate n f (iterate m f s)
  unfolding iterate
  iterate-add zero n f s = let e : zero + n ≡ n = omega arith in rw e
  iterate-add (suc m) n f s =
      let e : suc m + n ≡ suc (m + n) = omega arith in rw e (iterate-add m n f (f s))

  pub iterate_comm :
      (n : ℕ) (f g : S → S)
      → ((s : S) → f (g s) ≡ g (f s))
      → (s : S) → iterate n f (g s) ≡ g (iterate n f s)
  unfolding iterate
  iterate_comm zero f g h s = refl
  iterate_comm (suc n) f g h s = rw (h s) (iterate_comm n f g h (f s))

  pub iterate_inv {κ} :
      (P : S → Type κ) (n : ℕ) (f : S → S)
      → ((s : S) → P s → P (f s))
      → (s : S) → P s
      → P (iterate n f s)
  unfolding iterate
  iterate_inv P zero f h s p = p
  iterate_inv P (suc n) f h s p = iterate_inv P n f h (f s) (h s p)

  -- The loop. `fuel` bounds its rounds.
  unfoldable pub paced : (S → ℕ) → (ℕ → S → S) → (S → S) → ℕ → ℕ → S → S
  paced accum with_accum step period zero s = s
  paced accum with_accum step period (suc fuel) s = elim (leb period (accum s)) [
    | true ↦ paced accum with_accum step period fuel (step (with_accum (accum s - period) s))
    | false ↦ s
  ]

-- `accum` and `with_accum` read and write a field that `step` leaves alone.
pub record IsPaced {ℓ} {S : Type ℓ} (accum : S → ℕ) (with_accum : ℕ → S → S) (step : S → S)
    : Type ℓ where
  pub read : (n : ℕ) (s : S) → accum (with_accum n s) ≡ n
  pub same : (s : S) → with_accum (accum s) s ≡ s
  pub last : (m n : ℕ) (s : S) → with_accum m (with_accum n s) ≡ with_accum m s
  pub kept : (s : S) → accum (step s) ≡ accum s
  pub comm : (n : ℕ) (s : S) → step (with_accum n s) ≡ with_accum n (step s)

module _ {ℓ} {S : Type ℓ} {accum : S → ℕ} {with_accum : ℕ → S → S} {step : S → S}
    (l : IsPaced accum with_accum step) where
  iterate-kept : (n : ℕ) (s : S) → accum (iterate n step s) ≡ accum s
  unfolding iterate
  iterate-kept zero s = refl
  iterate-kept (suc n) s = iterate-kept n (step s) ∙ l.kept s

  -- With enough fuel the loop makes one step for each whole period and keeps the remainder.
  pub paced-iterate :
      (period fuel q r : ℕ) (s : S)
      → accum s ≡ q * period + r
      → r < period
      → q < fuel
      → paced accum with_accum step period fuel s ≡ with_accum r (iterate q step s)
  unfolding paced iterate
  paced-iterate period zero q r s e h k = absurd (omega arith)
  paced-iterate period (suc fuel) zero r s e h k =
      let done : leb period (accum s) ≡ false = ground arith in
      let same : accum s ≡ r = omega arith in rw (done, paced) (sym (rw (← same) (l.same s)))
  paced-iterate period (suc fuel) (suc q) r s e h k =
      let left : accum s - period ≡ q * period + r = grind arith in
      let more : leb period (accum s) ≡ true = grind arith in
      rw (more, paced)
        (paced-iterate period fuel q r (step (with_accum (accum s - period) s))
            (l.kept _ ∙ l.read _ s ∙ left) h (omega arith)
          ∙ ap (λ t. with_accum r (iterate q step t)) (l.comm _ s)
          ∙ ap (with_accum r)
              (iterate_comm q step (with_accum (accum s - period)) (l.comm _) (step s))
          ∙ l.last r _ _)

  -- The steps of two portions of cycles, one after the other.
  pub paced-twice :
      (q q' r r' : ℕ) (s : S)
      → with_accum r' (iterate q' step (with_accum r (iterate q step s)))
        ≡ with_accum r' (iterate (q + q') step s)
  paced-twice q q' r r' s =
      ap (with_accum r') (iterate_comm q' step (with_accum r) (l.comm r) (iterate q step s))
      ∙ l.last r' r _
      ∙ ap (with_accum r') (sym (iterate-add q q' step s))
