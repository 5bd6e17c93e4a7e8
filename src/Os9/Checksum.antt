-- ===== src/Os9/Checksum.antt =====
-- crates/cdi-os9/src/module.rs: the header parity and the CRC of a module, described on their own.
use edi_emulator.Prelude.{
  ℕ, zero, suc, ◌+◌, ◌*◌, ◌%◌, ◌^◌, ◌≤◌, ◌<◌, ◌≡◌, refl, sym, ap, ◌∙◌, arith, bit_xor, Bool, true,
  false, List, [], ◌∷◌, get_or, get_or-drop, take, drop, has_bit, if◌then◌else◌, u32,
}
use mathlib.Core.Path.{ap₂}
use edi_emulator.Prelude.Bits.{bit_xor-mod}
use edi_emulator.Prelude.{◌↔◌, ◌==◌}
use edi_emulator.Os9.{header_parity_ok, be16, xor_words, crc24_bit, crc24_bits, crc24_bytes, crc24}

-- The exclusive or of the `n` words from an offset on.
abbrev pub xor_of : ℕ → List ℕ → ℕ → ℕ
xor_of zero image off = 0
xor_of (suc n) image off = bit_xor (xor_of n image off) (be16 image (off + 2 * n))

xor_words-last :
    (n : ℕ) (h : List ℕ) (off acc : ℕ)
    → xor_words (suc n) h off acc ≡ bit_xor (xor_words n h off acc) (be16 h (off + 2 * n))
unfolding xor_words
xor_words-last zero h off acc =
    let e : off ≡ off + 2 * 0 = omega arith in ap (λ i. bit_xor acc (be16 h i)) e
xor_words-last (suc n) h off acc =
    let e : off + 2 + 2 * n ≡ off + 2 * suc n = omega arith in
    xor_words-last n h (off + 2) (bit_xor acc (be16 h off))
    ∙ ap (λ i. bit_xor (xor_words (suc n) h off acc) (be16 h i)) e

get_or-window :
    (n i off : ℕ) (image : List ℕ)
    → i < n
    → get_or (take n (drop off image)) i 0 ≡ get_or image (off + i) 0
get_or-window n i off image h = get_or-take n i (drop off image) h ∙ get_or-drop off i image 0
  where
    get_or-take : (n i : ℕ) (l : List ℕ) → i < n → get_or (take n l) i 0 ≡ get_or l i 0
    get_or-take zero i l h = absurd (omega arith)
    get_or-take (suc n) i [] h = refl
    get_or-take (suc n) zero (x ∷ l) h = refl
    get_or-take (suc n) (suc i) (x ∷ l) h = get_or-take n i l (omega arith)

-- The words of a header are those of the image.
xor_words-xor_of :
    (n off : ℕ) (image : List ℕ)
    → n ≤ 24
    → xor_words n (take 48 (drop off image)) 0 0 ≡ xor_of n image off
unfolding xor_words
xor_words-xor_of zero off image h = refl
xor_words-xor_of (suc n) off image h =
    let low = get_or-window 48 (0 + 2 * n + 1) off image (omega arith) in
    let high = get_or-window 48 (0 + 2 * n) off image (omega arith) in
    let e : off + (0 + 2 * n) ≡ off + 2 * n = omega arith in
    let f : off + (0 + 2 * n + 1) ≡ off + 2 * n + 1 = omega arith in
    xor_words-last n (take 48 (drop off image)) 0 0
    ∙ ap₂ bit_xor (xor_words-xor_of n off image (omega arith)) (
        ap₂ (λ x y. x * 2 ^ 8 + y) (high ∙ ap (λ i. get_or image i 0) e)
          (low ∙ ap (λ i. get_or image i 0) f))

pub header_parity_iff :
    (image : List ℕ) (off : ℕ)
    → (header_parity_ok (take 48 (drop off image)) ≡ true) ↔ (xor_of 24 image off ≡ 0xffff)
unfolding header_parity_ok
header_parity_iff image off =
    let words = xor_words 24 (take 48 (drop off image)) 0 0 in
    let same : words ≡ xor_of 24 image off = xor_words-xor_of 24 off image (omega arith) in
    (λ h. sym same ∙ all_ones words h, λ h. is_all_ones words (same ∙ h))
  where
    all_ones : (n : ℕ) → (n == 0xffff) ≡ true → n ≡ 0xffff
    all_ones n h = ground arith

    is_all_ones : (n : ℕ) → n ≡ 0xffff → (n == 0xffff) ≡ true
    is_all_ones n h = ground arith

-- A round of the CRC with the polynomial 0x800063 on a register of 24 bits.
abbrev pub crc_round : ℕ → ℕ
crc_round r = (if has_bit r 23 then bit_xor (r * 2) 0x80_0063 else r * 2) % 2 ^ 24

abbrev pub crc_rounds : ℕ → ℕ → ℕ
crc_rounds zero r = r
crc_rounds (suc n) r = crc_rounds n (crc_round r)

-- The register after some bytes, each entering at the top.
abbrev pub crc_of : List ℕ → ℕ → ℕ
crc_of [] r = r
crc_of (b ∷ bs) r = crc_of bs (crc_rounds 8 (bit_xor r (b * 2 ^ 16) % 2 ^ 24))

-- A round, whatever the bits are that the source's register has above 24.
crc24_bit-crc_round : (acc : ℕ) → crc24_bit acc % 2 ^ 24 ≡ crc_round (acc % 2 ^ 24)
crc24_bit-crc_round acc =
    let r = acc % 2 ^ 24 in
    let shifted = u32 (acc * 2) in
    let low : shifted % 2 ^ 24 ≡ r * 2 % 2 ^ 24 = omega arith in
    let same : has_bit shifted 24 ≡ has_bit r 23 = ground arith in
    let set_case : bit_xor shifted 0x80_0063 % 2 ^ 24 ≡ bit_xor (r * 2) 0x80_0063 % 2 ^ 24 =
      bit_xor-mod 24 shifted 0x80_0063
      ∙ ap (λ x. bit_xor x (0x80_0063 % 2 ^ 24) % 2 ^ 24) low
      ∙ sym (bit_xor-mod 24 (r * 2) 0x80_0063) in
    both (has_bit shifted 24) (bit_xor shifted 0x80_0063) shifted (bit_xor (r * 2) 0x80_0063)
      (r * 2) set_case low
    ∙ ap (λ b. (if b then bit_xor (r * 2) 0x80_0063 else r * 2) % 2 ^ 24) same
  where
    both :
        (b : Bool) (x y z w : ℕ)
        → x % 2 ^ 24 ≡ z % 2 ^ 24
        → y % 2 ^ 24 ≡ w % 2 ^ 24
        → (if b then x else y) % 2 ^ 24 ≡ (if b then z else w) % 2 ^ 24
    both true x y z w h k = h
    both false x y z w h k = k

crc24_bits-crc_rounds : (n acc : ℕ) → crc24_bits n acc % 2 ^ 24 ≡ crc_rounds n (acc % 2 ^ 24)
crc24_bits-crc_rounds zero acc = refl
crc24_bits-crc_rounds (suc n) acc =
    crc24_bits-crc_rounds n (crc24_bit acc) ∙ ap (crc_rounds n) (crc24_bit-crc_round acc)

crc24_bytes-crc_of : (bs : List ℕ) (acc : ℕ) → crc24_bytes bs acc ≡ crc_of bs acc
unfolding crc24_bytes
crc24_bytes-crc_of [] acc = refl
crc24_bytes-crc_of (b ∷ bs) acc =
    crc24_bytes-crc_of bs (crc24_bits 8 (bit_xor acc (b * 2 ^ 16)) % 2 ^ 24)
    ∙ ap (crc_of bs) (crc24_bits-crc_rounds 8 (bit_xor acc (b * 2 ^ 16)))

-- The checksum of the source begins with ones.
pub crc24-crc_of : (bs : List ℕ) → crc24 bs ≡ crc_of bs 0xff_ffff
unfolding crc24
crc24-crc_of bs = crc24_bytes-crc_of bs 0xff_ffff
