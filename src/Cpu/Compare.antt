-- ===== src/Cpu/Compare.antt =====
-- Subtraction, and the condition codes after a comparison as the orders that they stand for.
use edi_emulator.Prelude.{
  ℕ, ◌+◌, ◌-◌, ◌/◌, ◌%◌, ◌≤◌, ◌<◌, ◌≡◌, ap, ◌∙◌, arith, Bool, true, false, not, ◌==◌, ◌<=>◌, ltb,
  leb, ◌&&◌, ◌||◌, if◌then◌else◌, bit_of,
}
use mathlib.Core.Path.{ap₂}
use edi_emulator.Cpu.Sr
use edi_emulator.Cpu.State.{Cpu, flag, set_flag}
use edi_emulator.Cpu.Ea.{Size, byte, word, long, modulus}
use edi_emulator.Cpu.Alu.{do_sub, do_cmp, condition}
use edi_emulator.Cpu.AluLaws.{sub_borrow, sub_overflow, biased, difference_word}
use edi_emulator.Cpu.Flags.{
  four_lem, three_lem, set_z_lem, negative_half, mod-lt_modulus, bit_of-le,
}

-- The signed difference of two biased values, with the borrow, lies in the signed range.
abbrev pub fits_signed : Size → ℕ → ℕ → ℕ → Bool
fits_signed size d s x =
    leb (biased size s + x) (biased size d + modulus size / 2)
    && ltb (biased size d) (biased size s + x + modulus size / 2)

-- The result and the flags of `d - s - x`.
pub record IsDifference (size : Size) (extend write_x : Bool) (d s x : ℕ) (p q : Cpu) (r : ℕ)
    : Type 0 where
  pub result : r ≡ (d + modulus size - s - x) % modulus size
  pub borrow : flag q Sr.c ≡ ltb d (s + x)
  pub extended : flag q Sr.x ≡ (if write_x then ltb d (s + x) else flag p Sr.x)
  pub overflow : flag q Sr.v ≡ not (fits_signed size d s x)
  pub negative : flag q Sr.n ≡ leb (modulus size / 2) r
  pub is_zero : flag q Sr.z ≡ (if extend then flag p Sr.z && (r == 0) else r == 0)

difference_mod :
    (size : Size) (d s x : ℕ)
    → d < modulus size
    → s < modulus size
    → (bound : x ≤ 1) → difference_word d s x bound size ≡ (d + modulus size - s - x) % modulus size
difference_mod byte d s x h k l = omega arith
difference_mod word d s x h k l = omega arith
difference_mod long d s x h k l = omega arith

-- Subtraction, at every operand size, with and without the extend flag as borrow in: the result
-- is the difference modulo the size, C is the unsigned borrow, X equals it or is kept as asked, V
-- is the overflow of the signed difference, N the sign of the result, and Z tests the result for
-- zero (in the extended form it stays set only if it was).
pub do_sub-IsDifference :
    (p : Cpu) (dst src : ℕ) (size : Size) (extend write_x : Bool)
    → let (q, r) = do_sub p dst src size extend write_x in
      IsDifference size extend write_x
        (dst % modulus size)
        (src % modulus size)
        (bit_of (extend && flag p Sr.x))
        p
        q
        r
unfolding do_sub set_flag
do_sub-IsDifference p dst src size extend true =
    let d = dst % modulus size in
    let s = src % modulus size in
    let x = bit_of (extend && flag p Sr.x) in
    let hd = mod-lt_modulus size dst in
    let hs = mod-lt_modulus size src in
    let hx = bit_of-le (extend && flag p Sr.x) in
    let r = (do_sub p dst src size extend true).1 in
    let f = four_lem p.sr _ _ _ _ in
    let z = set_z_lem _ extend r in
    record {
      result = difference_mod size d s x hd hs hx;
      borrow = z.c_kept ∙ f.0 ∙ sub_borrow d s x hx size hd hs;
      extended = z.x_kept ∙ f.4 ∙ sub_borrow d s x hx size hd hs;
      overflow = z.v_kept ∙ f.1 ∙ sub_overflow d s x hx size hd hs;
      negative = z.n_kept ∙ f.3 ∙ negative_half size r (mod-lt_modulus size _);
      is_zero = z.z_flag ∙ ap (λ b. if extend then b && (r == 0) else r == 0) f.2;
    }
do_sub-IsDifference p dst src size extend false =
    let d = dst % modulus size in
    let s = src % modulus size in
    let x = bit_of (extend && flag p Sr.x) in
    let hd = mod-lt_modulus size dst in
    let hs = mod-lt_modulus size src in
    let hx = bit_of-le (extend && flag p Sr.x) in
    let r = (do_sub p dst src size extend false).1 in
    let f = three_lem p.sr _ _ _ in
    let z = set_z_lem _ extend r in
    record {
      result = difference_mod size d s x hd hs hx;
      borrow = z.c_kept ∙ f.0 ∙ sub_borrow d s x hx size hd hs;
      extended = z.x_kept ∙ f.4;
      overflow = z.v_kept ∙ f.1 ∙ sub_overflow d s x hx size hd hs;
      negative = z.n_kept ∙ f.3 ∙ negative_half size r (mod-lt_modulus size _);
      is_zero = z.z_flag ∙ ap (λ b. if extend then b && (r == 0) else r == 0) f.2;
    }

-- What the flags of a difference say of its operands.
pub record IsOrder (size : Size) (d s : ℕ) (q : Cpu) : Type 0 where
  pub hi : condition q 2 ≡ ltb s d
  pub ls : condition q 3 ≡ leb d s
  pub cc : condition q 4 ≡ leb s d
  pub cs : condition q 5 ≡ ltb d s
  pub ne : condition q 6 ≡ not (d == s)
  pub eq : condition q 7 ≡ (d == s)
  pub ge : condition q 12 ≡ leb (biased size s) (biased size d)
  pub lt : condition q 13 ≡ ltb (biased size d) (biased size s)
  pub gt : condition q 14 ≡ ltb (biased size s) (biased size d)
  pub le : condition q 15 ≡ leb (biased size d) (biased size s)

zero_difference :
    (size : Size) (d s : ℕ)
    → d < modulus size
    → s < modulus size
    → ((d + modulus size - s - 0) % modulus size == 0) ≡ (d == s)
zero_difference byte d s h k = ground arith
zero_difference word d s h k = ground arith
zero_difference long d s h k = ground arith

sign_difference :
    (size : Size) (d s : ℕ)
    → d < modulus size
    → s < modulus size
    → (leb (modulus size / 2) ((d + modulus size - s - 0) % modulus size)
        <=> not (fits_signed size d s 0))
      ≡ leb (biased size s) (biased size d)
sign_difference byte d s h k = ground arith
sign_difference word d s h k = ground arith
sign_difference long d s h k = ground arith

equal_biased :
    (size : Size) (d s : ℕ)
    → d < modulus size
    → s < modulus size
    → (d == s) ≡ (biased size d == biased size s)
equal_biased byte d s h k = ground arith
equal_biased word d s h k = ground arith
equal_biased long d s h k = ground arith

-- The orders as tests of one another.
ltb-leb : (a b : ℕ) → not (leb a b) ≡ ltb b a
ltb-leb a b = ground arith

leb-ltb : (a b : ℕ) → not (ltb a b) ≡ leb b a
leb-ltb a b = ground arith

greater : (a b : ℕ) → (not (a == b) && leb b a) ≡ ltb b a
greater a b = ground arith

at_most : (a b : ℕ) → ((a == b) || not (leb b a)) ≡ leb a b
at_most a b = ground arith

below_or_equal : (a b : ℕ) → (ltb a b || (a == b)) ≡ leb a b
below_or_equal a b = ground arith

above : (a b : ℕ) → (not (ltb a b) && not (a == b)) ≡ ltb b a
above a b = ground arith

-- After a comparison of `dst` with `src`, at every operand size, the condition codes are the
-- orders of the operands: HI, LS, CC and CS of the unsigned values, GE, LT, GT and LE of the
-- signed ones (of the values biased by half the range), NE and EQ their equality.
pub do_cmp-IsOrder :
    (p : Cpu) (dst src : ℕ) (size : Size)
    → IsOrder size (dst % modulus size) (src % modulus size) (do_cmp p dst src size)
unfolding do_cmp condition
do_cmp-IsOrder p dst src size =
    let d = dst % modulus size in
    let s = src % modulus size in
    let hd = mod-lt_modulus size dst in
    let hs = mod-lt_modulus size src in
    let q = do_cmp p dst src size in
    let f = do_sub-IsDifference p dst src size false false in
    let plain : s + 0 ≡ s = omega arith in
    let c : flag q Sr.c ≡ ltb d s = f.borrow ∙ ap (ltb d) plain in
    let z : flag q Sr.z ≡ (d == s) =
      f.is_zero ∙ ap (λ r. r == 0) f.result ∙ zero_difference size d s hd hs in
    let nv : (flag q Sr.n <=> flag q Sr.v) ≡ leb (biased size s) (biased size d) =
      ap₂ ◌<=>◌ (f.negative ∙ ap (leb (modulus size / 2)) f.result) f.overflow
      ∙ sign_difference size d s hd hs in
    let zb = z ∙ equal_biased size d s hd hs in
    record {
      hi = ap₂ (λ a b. not a && not b) c z ∙ above d s;
      ls = ap₂ ◌||◌ c z ∙ below_or_equal d s;
      cc = ap not c ∙ leb-ltb d s;
      cs = c;
      ne = ap not z;
      eq = z;
      ge = nv;
      lt = ap not nv ∙ ltb-leb (biased size s) (biased size d);
      gt = ap₂ (λ a b. not a && b) zb nv ∙ greater (biased size d) (biased size s);
      le = ap₂ (λ a b. a || not b) zb nv ∙ at_most (biased size d) (biased size s);
    }
