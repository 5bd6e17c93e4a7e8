-- ===== src/Cpu/Flags.antt =====
-- `do_add`, `do_sub` and the condition codes, flag by flag, against arithmetic.
use edi_emulator.Prelude.{
  ℕ, ◌+◌, ◌/◌, ◌%◌, ◌≤◌, ◌<◌, ◌≡◌, refl, ap, ◌∙◌, arith, Bool, true, false, not, ◌==◌, ltb, leb,
  ◌&&◌, if◌then◌else◌, bit_of, has_bit,
}
use edi_emulator.Cpu.Sr
use edi_emulator.Cpu.State.{Cpu, flag, set_flag, put_bit}
use edi_emulator.Cpu.Ea.{Size, byte, word, long, modulus}
use edi_emulator.Cpu.Alu.{is_negative, set_z, do_add}
use edi_emulator.Cpu.AluLaws.{put_c, put_v, put_z, put_n, put_x, add_carry, add_overflow, biased}

-- The four flags that are written before Z.
abbrev pub four : ℕ → Bool → Bool → Bool → Bool → ℕ
four w c x v n = put_bit (put_bit (put_bit (put_bit w 0 c) 4 x) 1 v) 3 n

pub four_lem :
    (w : ℕ) (c x v n : Bool)
    → (has_bit (four w c x v n) 0 ≡ c)
      × (has_bit (four w c x v n) 1 ≡ v)
      × (has_bit (four w c x v n) 2 ≡ has_bit w 2)
      × (has_bit (four w c x v n) 3 ≡ n)
      × (has_bit (four w c x v n) 4 ≡ x)
four_lem w c x v n =
    let w1 = put_bit w 0 c in
    let w2 = put_bit w1 4 x in
    let w3 = put_bit w2 1 v in
    (
      (put_n w3 n).0 ∙ (put_v w2 v).0 ∙ (put_x w1 x).0 ∙ (put_c w c).0,
      (put_n w3 n).1 ∙ (put_v w2 v).1,
      (put_n w3 n).2 ∙ (put_v w2 v).2 ∙ (put_x w1 x).2 ∙ (put_c w c).2,
      (put_n w3 n).3,
      (put_n w3 n).4 ∙ (put_v w2 v).4 ∙ (put_x w1 x).4,
    )

-- Without X.
abbrev pub three : ℕ → Bool → Bool → Bool → ℕ
three w c v n = put_bit (put_bit (put_bit w 0 c) 1 v) 3 n

pub three_lem :
    (w : ℕ) (c v n : Bool)
    → (has_bit (three w c v n) 0 ≡ c)
      × (has_bit (three w c v n) 1 ≡ v)
      × (has_bit (three w c v n) 2 ≡ has_bit w 2)
      × (has_bit (three w c v n) 3 ≡ n)
      × (has_bit (three w c v n) 4 ≡ has_bit w 4)
three_lem w c v n =
    let w1 = put_bit w 0 c in
    let w2 = put_bit w1 1 v in
    (
      (put_n w2 n).0 ∙ (put_v w1 v).0 ∙ (put_c w c).0,
      (put_n w2 n).1 ∙ (put_v w1 v).1,
      (put_n w2 n).2 ∙ (put_v w1 v).2 ∙ (put_c w c).2,
      (put_n w2 n).3,
      (put_n w2 n).4 ∙ (put_v w1 v).4 ∙ (put_c w c).4,
    )

-- Z is the test of the result, or, in the extended forms, can only be cleared.
pub record IsZSet (extend is_zero : Bool) (p q : Cpu) : Type 0 where
  pub z_flag : flag q Sr.z ≡ (if extend then flag p Sr.z && is_zero else is_zero)
  pub c_kept : flag q Sr.c ≡ flag p Sr.c
  pub v_kept : flag q Sr.v ≡ flag p Sr.v
  pub n_kept : flag q Sr.n ≡ flag p Sr.n
  pub x_kept : flag q Sr.x ≡ flag p Sr.x

and_true : (b : Bool) → b ≡ (b && true)
and_true b = ground arith

and_false : (b : Bool) → false ≡ (b && false)
and_false b = ground arith

only_cleared : (p : Cpu) (b : Bool) → IsZSet true b p (if b then p else set_flag p Sr.z false)
unfolding set_flag
only_cleared p true = record {
  z_flag = and_true (flag p Sr.z);
  c_kept = refl;
  v_kept = refl;
  n_kept = refl;
  x_kept = refl;
}
only_cleared p false =
    let z = put_z p.sr false in
    record {
      z_flag = z.2 ∙ and_false (flag p Sr.z);
      c_kept = z.0;
      v_kept = z.1;
      n_kept = z.3;
      x_kept = z.4;
    }

pub set_z_lem : (p : Cpu) (extend : Bool) (r : ℕ) → IsZSet extend (r == 0) p (set_z p extend r)
unfolding set_z set_flag
set_z_lem p false r =
    let z = put_z p.sr (r == 0) in
    record { z_flag = z.2; c_kept = z.0; v_kept = z.1; n_kept = z.3; x_kept = z.4 }
set_z_lem p true r = only_cleared p (r == 0)

pub negative_half :
    (size : Size) (r : ℕ) → r < modulus size → is_negative size r ≡ leb (modulus size / 2) r
negative_half byte r h = ground arith
negative_half word r h = ground arith
negative_half long r h = ground arith

pub mod-lt_modulus : (size : Size) (a : ℕ) → a % modulus size < modulus size
mod-lt_modulus byte a = omega arith
mod-lt_modulus word a = omega arith
mod-lt_modulus long a = omega arith

pub bit_of-le : (b : Bool) → bit_of b ≤ 1
bit_of-le b = ground arith

-- The value `v` with the signed value `biased - m / 2` in the signed range of `size`, shifted by
-- `m` so that no difference is negative.
abbrev pub in_signed_range : Size → ℕ → Bool
in_signed_range size t = leb (modulus size / 2) t && ltb t (modulus size / 2 + modulus size)

-- The result and the flags of `d + s + x`.
pub record IsSum (size : Size) (extend : Bool) (d s x : ℕ) (p q : Cpu) (r : ℕ) : Type 0 where
  pub result : r ≡ (d + s + x) % modulus size
  pub carry : flag q Sr.c ≡ leb (modulus size) (d + s + x)
  pub extended : flag q Sr.x ≡ leb (modulus size) (d + s + x)
  pub overflow : flag q Sr.v ≡ not (in_signed_range size (biased size d + biased size s + x))
  pub negative : flag q Sr.n ≡ leb (modulus size / 2) r
  pub is_zero : flag q Sr.z ≡ (if extend then flag p Sr.z && (r == 0) else r == 0)

-- Addition, at every operand size, with and without the extend flag as carry in: the result is
-- the sum modulo the size, C and X are its unsigned overflow, V is the overflow of the signed
-- sum, N the sign of the result, and Z tests the result for zero (in the extended form it stays
-- set only if it was).
pub do_add-IsSum :
    (p : Cpu) (dst src : ℕ) (size : Size) (extend : Bool)
    → let (q, r) = do_add p dst src size extend in
      IsSum size extend
        (dst % modulus size)
        (src % modulus size)
        (bit_of (extend && flag p Sr.x))
        p
        q
        r
unfolding do_add set_flag
do_add-IsSum p dst src size extend =
    let d = dst % modulus size in
    let s = src % modulus size in
    let x = bit_of (extend && flag p Sr.x) in
    let hd = mod-lt_modulus size dst in
    let hs = mod-lt_modulus size src in
    let hx = bit_of-le (extend && flag p Sr.x) in
    let q = do_add p dst src size extend in
    let r = q.1 in
    let f = four_lem p.sr _ _ _ _ in
    let z = set_z_lem _ extend r in
    record {
      result = refl;
      carry = z.c_kept ∙ f.0 ∙ add_carry d s x hx size hd hs;
      extended = z.x_kept ∙ f.4 ∙ add_carry d s x hx size hd hs;
      overflow = z.v_kept ∙ f.1 ∙ add_overflow d s x hx size hd hs;
      negative = z.n_kept ∙ f.3 ∙ negative_half size r (mod-lt_modulus size (d + s + x));
      is_zero = z.z_flag ∙ ap (λ b. if extend then b && (r == 0) else r == 0) f.2;
    }
