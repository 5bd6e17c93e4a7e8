-- ===== src/Prelude/Bits.antt =====
-- The bit operations at variables: one equation for the lowest digit, a mask of one bit, and
-- evaluation over a small range. They show that the arithmetic of `Words` is the bitwise one.
use Prim.Native.Nat.{
  ℕ, zero, suc, ◌+◌, ◌-◌, ◌*◌, ◌/◌, ◌%◌, ◌^◌, ◌≤◌, ◌<◌, min, max, bit_and, bit_or, digits, bitwise,
  bit_and-bitwise, bit_or-bitwise, bit_xor, bit_xor-bitwise, differ,
}
use mathlib.Core.Path.{◌≡◌, refl, sym, ap, ap₂, ◌∙◌}
use mathlib.Core.Bool.{Bool, true, ◌&&◌}
use native.Mathlib.Nat.{
  pow-suc, div-div-eq-div-mul, mul_assoc, mul_right_comm, mod-lt, mod-eq_of_lt, mod-add-div',
  add-mul-mod_self_right,
}
use native.Mathlib.Omega.{arith}
use mathlib.Core.Logic.{inl, inr}
use edi_emulator.Prelude.Tests.{le_or_gt}

-- A test at every number below a bound, for evaluation, and what its success says.
unfoldable pub holds_below : (ℕ → Bool) → ℕ → Bool
holds_below test zero = true
holds_below test (suc last) = holds_below test last && test last

pub holds_below_sound :
    (test : ℕ → Bool) (bound k : ℕ) → k < bound → holds_below test bound ≡ true → test k ≡ true
unfolding holds_below
holds_below_sound test zero k lt h = absurd (omega arith)
holds_below_sound test (suc last) k lt h = elim (le_or_gt last k) [
  | inl top ↦
      let same : k ≡ last = omega arith in
      let here : test last ≡ true = ground arith in ap test same ∙ here
  | inr down ↦ holds_below_sound test last k down (ground arith)
]

-- `bitwise` gives each operand's digits fuel for one more round than needed; what is not needed
-- can be left off.
module _ (rest : ℕ → ℕ) (digit : ℕ → ℕ → ℕ) where
  run : ℕ → ℕ → ℕ → ℕ
  run n a b = digits rest digit n a b

  spare_round : (n a b : ℕ) → a ≤ n → run (suc n) a b ≡ run n a b
  unfolding run
  spare_round zero zero b h = refl
  spare_round (suc n) zero b h = refl
  spare_round zero (suc a) b h = absurd (omega arith)
  spare_round (suc n) (suc a) b h =
      ap (λ high. high * 2 + digit (suc a % 2) (b % 2))
        (spare_round n (suc a / 2) (b / 2) (omega arith))

  spare_rounds : (k a b : ℕ) → run (k + a) a b ≡ run a a b
  spare_rounds zero a b = let e : 0 + a ≡ a = omega arith in ap (λ n. run n a b) e
  spare_rounds (suc k) a b =
      let e : suc k + a ≡ suc (k + a) = omega arith in
      ap (λ n. run n a b) e ∙ spare_round (k + a) a b (omega arith) ∙ spare_rounds k a b

  enough_rounds : (n a b : ℕ) → a ≤ n → run n a b ≡ run a a b
  enough_rounds n a b h =
      let e : n ≡ n - a + a = omega arith in ap (λ m. run m a b) e ∙ spare_rounds (n - a) a b

  -- An operation on digits, by the lowest digit and the halves.
  lowest_digit :
      (op : ℕ → ℕ → ℕ)
      → ((a b : ℕ) → op a b ≡ bitwise rest digit a b)
      → ((b : ℕ) → rest b ≡ rest (b / 2) * 2 + digit 0 (b % 2))
      → (a b : ℕ) → op a b ≡ op (a / 2) (b / 2) * 2 + digit (a % 2) (b % 2)
  unfolding run
  lowest_digit op e r zero b =
      e 0 b ∙ r b ∙ sym (ap (λ high. high * 2 + digit 0 (b % 2)) (e 0 (b / 2)))
  lowest_digit op e r (suc a) b =
      e (suc a) b
      ∙ ap (λ high. high * 2 + digit (suc a % 2) (b % 2))
          (enough_rounds a (suc a / 2) (b / 2) (omega arith) ∙ sym (e (suc a / 2) (b / 2)))

pub bit_and_halves : (a b : ℕ) → bit_and a b ≡ bit_and (a / 2) (b / 2) * 2 + min (a % 2) (b % 2)
bit_and_halves = lowest_digit (λ b. 0) min bit_and (λ a b. bit_and-bitwise a b) (λ b. omega arith)

pub bit_or_halves : (a b : ℕ) → bit_or a b ≡ bit_or (a / 2) (b / 2) * 2 + max (a % 2) (b % 2)
bit_or_halves = lowest_digit (λ b. b) max bit_or (λ a b. bit_or-bitwise a b) (λ b. omega arith)

pub bit_xor_halves : (a b : ℕ) → bit_xor a b ≡ bit_xor (a / 2) (b / 2) * 2 + differ (a % 2) (b % 2)
bit_xor_halves =
    lowest_digit (λ b. b) differ bit_xor (λ a b. bit_xor-bitwise a b) (λ b. omega arith)

pub bit_and-zero : (n a : ℕ) → a ≤ n → bit_and a 0 ≡ 0
bit_and-zero n zero h = refl
bit_and-zero zero (suc a) h = absurd (omega arith)
bit_and-zero (suc n) (suc a) h =
    omega (arith, bit_and_halves (suc a) 0, bit_and-zero n (suc a / 2) (omega arith))

pub bit_and-le : (a b : ℕ) → bit_and a b ≤ a
bit_and-le a b = go a a b (omega arith)
  where
    go : (n a b : ℕ) → a ≤ n → bit_and a b ≤ a
    go n zero b h = omega (arith, bit_and-bitwise 0 b)
    go zero (suc a) b h = absurd (omega arith)
    go (suc n) (suc a) b h =
        omega (arith, bit_and_halves (suc a) b, go n (suc a / 2) (b / 2) (omega arith))

pub zero-bit_or : (b : ℕ) → bit_or 0 b ≡ b
zero-bit_or b = bit_or-bitwise 0 b

-- A disjunction of `k`-bit numbers has `k` bits.
pub bit_or-lt : (k a b : ℕ) → a < 2 ^ k → b < 2 ^ k → bit_or a b < 2 ^ k
bit_or-lt zero a b h h' =
    let p : a ≡ 0 = omega arith in let q : b ≡ 0 = omega arith in rw (p, q) (omega arith)
bit_or-lt (suc k) a b h h' = omega (
  arith,
  bit_or_halves a b,
  pow-suc 2 k,
  bit_or-lt k (a / 2) (b / 2) (omega (arith, pow-suc 2 k)) (omega (arith, pow-suc 2 k)),
)

pub bit_and-low_nibble : (x : ℕ) → bit_and x 0x0f ≡ x % 16
bit_and-low_nibble x = omega (
  arith,
  bit_and_halves x 0x0f,
  bit_and_halves (x / 2) 7,
  bit_and_halves (x / 2 / 2) 3,
  bit_and_halves (x / 2 / 2 / 2) 1,
  bit_and-zero (x / 2 / 2 / 2 / 2) (x / 2 / 2 / 2 / 2) (omega arith),
)

pub half-pow : (k a : ℕ) → a / 2 ^ suc k ≡ a / 2 / 2 ^ k
half-pow k a =
    let e : 2 ^ suc k ≡ 2 * 2 ^ k = omega (arith, pow-suc 2 k) in
    rw e (sym (div-div-eq-div-mul a 2 (2 ^ k)))

-- The `k`-th digit of a conjunction and of a disjunction.
pub bit-and : (k a b : ℕ) → bit_and a b / 2 ^ k % 2 ≡ min (a / 2 ^ k % 2) (b / 2 ^ k % 2)
bit-and zero a b = omega (arith, bit_and_halves a b)
bit-and (suc k) a b =
    rw (half-pow k a, half-pow k b, half-pow k (bit_and a b))
      (let half : bit_and a b / 2 ≡ bit_and (a / 2) (b / 2) = omega (arith, bit_and_halves a b) in
        rw half (bit-and k (a / 2) (b / 2)))

pub bit-or : (k a b : ℕ) → bit_or a b / 2 ^ k % 2 ≡ max (a / 2 ^ k % 2) (b / 2 ^ k % 2)
bit-or zero a b = omega (arith, bit_or_halves a b)
bit-or (suc k) a b =
    rw (half-pow k a, half-pow k b, half-pow k (bit_or a b))
      (let half : bit_or a b / 2 ≡ bit_or (a / 2) (b / 2) = omega (arith, bit_or_halves a b) in
        rw half (bit-or k (a / 2) (b / 2)))

pub scaled : (a k : ℕ) → a * 2 ^ suc k ≡ a * 2 ^ k * 2
scaled a k =
    omega (arith, ap (λ x. a * x) (pow-suc 2 k), mul_assoc a 2 (2 ^ k), mul_right_comm a 2 (2 ^ k))

pub differ-lt : (x y : ℕ) → x < 2 → y < 2 → differ x y < 2
differ-lt zero zero p q = omega arith
differ-lt zero (suc y) p q = omega arith
differ-lt (suc x) zero p q = omega arith
differ-lt (suc zero) (suc zero) p q = omega arith
differ-lt (suc zero) (suc (suc y)) p q = absurd (omega arith)
differ-lt (suc (suc x)) (suc y) p q = absurd (omega arith)

pow_pos : (k : ℕ) → 0 < 2 ^ k
pow_pos zero = omega arith
pow_pos (suc k) = omega (arith, pow-suc 2 k, pow_pos k)

mod-double : (x k : ℕ) → x % 2 ^ suc k ≡ x / 2 % 2 ^ k * 2 + x % 2
mod-double x k =
    let p : 2 ^ suc k ≡ 2 ^ k * 2 = omega (arith, pow-suc 2 k) in
    let lt : x / 2 % 2 ^ k < 2 ^ k = mod-lt (x / 2) (pow_pos k) in
    let rest : x / 2 % 2 ^ k * 2 + x % 2 < 2 ^ suc k = omega arith in
    let whole : x ≡ x / 2 % 2 ^ k * 2 + x % 2 + x / 2 / 2 ^ k * 2 ^ suc k =
      omega (arith, mod-add-div' (x / 2) (2 ^ k), scaled (x / 2 / 2 ^ k) k) in
    ap (λ y. y % 2 ^ suc k) whole
    ∙ add-mul-mod_self_right (x / 2 % 2 ^ k * 2 + x % 2) (x / 2 / 2 ^ k) (2 ^ suc k)
    ∙ mod-eq_of_lt rest

-- The low digits of an exclusive or.
pub bit_xor-mod : (k a b : ℕ) → bit_xor a b % 2 ^ k ≡ bit_xor (a % 2 ^ k) (b % 2 ^ k) % 2 ^ k
bit_xor-mod zero a b = omega arith
bit_xor-mod (suc k) a b =
    let p = 2 ^ k in
    let c = bit_xor a b in
    let d = bit_xor (a % 2 ^ suc k) (b % 2 ^ suc k) in
    let ha = mod-double a k in
    let hb = mod-double b k in
    let hc = mod-double c k in
    let hd = mod-double d k in
    let low = differ-lt (a % 2) (b % 2) (omega arith) (omega arith) in
    let half_c : c / 2 ≡ bit_xor (a / 2) (b / 2) = omega (arith, bit_xor_halves a b) in
    let last_c : c % 2 ≡ differ (a % 2) (b % 2) = omega (arith, bit_xor_halves a b) in
    let half_a : a % 2 ^ suc k / 2 ≡ a / 2 % p = omega (arith, ha) in
    let half_b : b % 2 ^ suc k / 2 ≡ b / 2 % p = omega (arith, hb) in
    let last_a : a % 2 ^ suc k % 2 ≡ a % 2 = omega (arith, ha) in
    let last_b : b % 2 ^ suc k % 2 ≡ b % 2 = omega (arith, hb) in
    let split : d ≡ bit_xor (a / 2 % p) (b / 2 % p) * 2 + differ (a % 2) (b % 2) =
      bit_xor_halves (a % 2 ^ suc k) (b % 2 ^ suc k)
      ∙ ap₂ (λ x y. x * 2 + y) (ap₂ bit_xor half_a half_b) (ap₂ differ last_a last_b) in
    let half_d : d / 2 ≡ bit_xor (a / 2 % p) (b / 2 % p) = omega (arith, split) in
    let last_d : d % 2 ≡ differ (a % 2) (b % 2) = omega (arith, split) in
    hc
    ∙ ap₂ (λ x y. x % p * 2 + y) half_c last_c
    ∙ ap (λ x. x * 2 + differ (a % 2) (b % 2)) (bit_xor-mod k (a / 2) (b / 2))
    ∙ sym (ap₂ (λ x y. x % p * 2 + y) half_d last_d)
    ∙ sym hd
