-- ===== src/Disc/Involution.antt =====
-- crates/cdi-disc/src/scramble.rs: descrambling is its own inverse, and what it does to each byte.
use edi_emulator.Prelude.{
  ℕ, zero, suc, ◌+◌, ◌*◌, ◌/◌, ◌%◌, ◌≤◌, ◌<◌, ◌≡◌, refl, sym, ap, ◌∙◌, arith, bit_xor, List, [],
  ◌∷◌, ◌++◌, take, drop, length, get_or, get_or-drop, length-drop,
}
use edi_emulator.Disc.KeyStream.{bits_from, scramble_table-bits, length-scramble_table}
use Prim.Native.Nat.{differ}
use mathlib.Core.Path.{ap₂}
use edi_emulator.Prelude.Bits.{bit_xor_halves, differ-lt}
use edi_emulator.Disc.Scramble.{xor_zip, descramble_in_place, scramble_table}

differ_twice : (x y : ℕ) → x < 2 → y < 2 → differ (differ x y) y ≡ x
differ_twice zero zero p q = refl
differ_twice zero (suc zero) p q = refl
differ_twice zero (suc (suc y)) p q = absurd (omega arith)
differ_twice (suc zero) zero p q = refl
differ_twice (suc zero) (suc zero) p q = refl
differ_twice (suc zero) (suc (suc y)) p q = absurd (omega arith)
differ_twice (suc (suc x)) y p q = absurd (omega arith)

bit_xor_twice : (n a b : ℕ) → a ≤ n → b ≤ n → bit_xor (bit_xor a b) b ≡ a
bit_xor_twice zero a b p q =
    let e : a ≡ 0 = omega arith in
    let f : b ≡ 0 = omega arith in ap₂ (λ x y. bit_xor (bit_xor x y) y) e f ∙ sym e
bit_xor_twice (suc n) a b p q =
    let c = bit_xor a b in
    let low : differ (a % 2) (b % 2) < 2 = differ-lt (a % 2) (b % 2) (omega arith) (omega arith) in
    let half : c / 2 ≡ bit_xor (a / 2) (b / 2) = omega (arith, bit_xor_halves a b) in
    let last : c % 2 ≡ differ (a % 2) (b % 2) = omega (arith, bit_xor_halves a b) in
    bit_xor_halves c b
    ∙ ap₂ (λ x y. bit_xor x (b / 2) * 2 + differ y (b % 2)) half last
    ∙ ap₂ (λ x y. x * 2 + y) (bit_xor_twice n (a / 2) (b / 2) (omega arith) (omega arith))
        (differ_twice (a % 2) (b % 2) (omega arith) (omega arith))
    ∙ omega arith

xor_zip_twice : (bs ks : List ℕ) → xor_zip (xor_zip bs ks) ks ≡ bs
unfolding xor_zip
xor_zip_twice [] ks = refl
xor_zip_twice (b ∷ bs) [] = refl
xor_zip_twice (b ∷ bs) (k ∷ ks) =
    ap₂ (λ x xs. x ∷ xs) (bit_xor_twice (b + k) b k (omega arith) (omega arith))
      (xor_zip_twice bs ks)

pub length-xor_zip : (bs ks : List ℕ) → length (xor_zip bs ks) ≡ length bs
unfolding xor_zip
length-xor_zip [] ks = refl
length-xor_zip (b ∷ bs) [] = refl
length-xor_zip (b ∷ bs) (k ∷ ks) = ap suc (length-xor_zip bs ks)

take-cut : (n : ℕ) (s t : List ℕ) → n ≤ length s → take n (take n s ++ t) ≡ take n s
take-cut zero s t h = refl
take-cut (suc n) [] t h = absurd (omega arith)
take-cut (suc n) (x ∷ s) t h = ap (λ l. x ∷ l) (take-cut n s t (omega arith))

drop-cut : (n : ℕ) (s t : List ℕ) → n ≤ length s → drop n (take n s ++ t) ≡ t
drop-cut zero s t h = refl
drop-cut (suc n) [] t h = absurd (omega arith)
drop-cut (suc n) (x ∷ s) t h = drop-cut n s t (omega arith)

pub cut : (n : ℕ) (s : List ℕ) → take n s ++ drop n s ≡ s
cut zero s = refl
cut (suc n) [] = refl
cut (suc n) (x ∷ s) = ap (λ l. x ∷ l) (cut n s)

xor_zip-keyed :
    (bs ks : List ℕ) (i : ℕ)
    → i < length bs
    → i < length ks
    → get_or (xor_zip bs ks) i 0 ≡ bit_xor (get_or bs i 0) (get_or ks i 0)
unfolding xor_zip
xor_zip-keyed [] ks i p q = absurd (omega arith)
xor_zip-keyed (b ∷ bs) [] i p q = absurd (omega arith)
xor_zip-keyed (b ∷ bs) (k ∷ ks) zero p q = refl
xor_zip-keyed (b ∷ bs) (k ∷ ks) (suc i) p q = xor_zip-keyed bs ks i (omega arith) (omega arith)

xor_zip-rest : (bs ks : List ℕ) (i : ℕ) → length ks ≤ i → get_or (xor_zip bs ks) i 0 ≡ get_or bs i 0
unfolding xor_zip
xor_zip-rest [] ks i h = refl
xor_zip-rest (b ∷ bs) [] i h = refl
xor_zip-rest (b ∷ bs) (k ∷ ks) zero h = absurd (omega arith)
xor_zip-rest (b ∷ bs) (k ∷ ks) (suc i) h = xor_zip-rest bs ks i (omega arith)

-- A sector with the scramble sequence on the 2340 bytes behind its sync bytes: byte `i` of them is
-- combined with the eight bits from the `8 * i`-th of the sequence on, the first one lowest.
pub record IsScrambled (sector out : List ℕ) : Type 0 where
  pub same_sync : take 12 out ≡ take 12 sector
  pub keyed :
      (i : ℕ)
      → i < 2_340
      → 12 + i < length sector
      → get_or out (12 + i) 0 ≡ bit_xor (get_or sector (12 + i) 0) (bits_from 8 (8 * i))
  pub same_rest : (i : ℕ) → 2_340 ≤ i → get_or out (12 + i) 0 ≡ get_or sector (12 + i) 0

descramble-IsScrambled :
    (sector : List ℕ) → 12 ≤ length sector → IsScrambled sector (descramble_in_place sector)
unfolding descramble_in_place
descramble-IsScrambled sector h =
    let body = drop 12 sector in
    let t = xor_zip body scramble_table in
    let out = take 12 sector ++ t in
    let at : (i : ℕ) → get_or out (12 + i) 0 ≡ get_or t i 0 =
      λ i. sym (get_or-drop 12 i out 0) ∙ ap (λ l. get_or l i 0) (drop-cut 12 sector t h) in
    record {
      same_sync = take-cut 12 sector t h;
      keyed = λ i lt fits.
          at i
          ∙ xor_zip-keyed body scramble_table i (omega (arith, length-drop 12 sector))
              (omega (arith, length-scramble_table))
          ∙ ap₂ bit_xor (get_or-drop 12 i sector 0) (scramble_table-bits i lt);
      same_rest = λ i past.
          at i
          ∙ xor_zip-rest body scramble_table i (omega (arith, length-scramble_table))
          ∙ get_or-drop 12 i sector 0;
    }

-- Descrambling a sector of at least 12 bytes twice gives the sector back. Descrambling it leaves its
-- 12 sync bytes alone, and each of the 2340 bytes behind them is combined by exclusive or with the
-- next eight bits of the sequence that begins with a one and fourteen zeros and in which each bit is
-- the exclusive or of those 15 and 14 places before it.
pub descramble_twice :
    (sector : List ℕ)
    → 12 ≤ length sector
    → (descramble_in_place (descramble_in_place sector) ≡ sector)
      × IsScrambled sector (descramble_in_place sector)
unfolding descramble_in_place
descramble_twice sector h =
    let t = xor_zip (drop 12 sector) scramble_table in
    (
      ap₂ (λ x y. x ++ xor_zip y scramble_table) (take-cut 12 sector t h) (drop-cut 12 sector t h)
          ∙ ap (λ y. take 12 sector ++ y) (xor_zip_twice (drop 12 sector) scramble_table)
          ∙ cut 12 sector,
      descramble-IsScrambled sector h,
    )
