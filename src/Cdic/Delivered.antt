-- ===== src/Cdic/Delivered.antt =====
-- crates/cdi-core/src/cdic.rs: what a delivered sector leaves in the shared RAM.
use edi_emulator.Prelude.{
  ℕ, zero, suc, ◌+◌, ◌*◌, ◌/◌, ◌^◌, ◌<◌, ◌≤◌, ◌≡◌, ◌⊎◌, inl, inr, refl, sym, arith, ap, ◌∙◌, List,
  [], ◌∷◌, ◌++◌, length, length-append, get_or, take, drop, u8,
}
use edi_emulator.Cdic.Sector.{put_words, words_of}

-- Words put from an index on, within the RAM, leave every other byte as it is.
pub put_words-outside :
    (ws : List ℕ) (idx b : ℕ) (ram : ℕ → ℕ)
    → idx * 2 + 2 * length ws ≤ 0x4000
    → (b < idx * 2) ⊎ (idx * 2 + 2 * length ws ≤ b)
    → put_words idx ws ram b ≡ ram b
unfolding put_words
put_words-outside [] idx b ram h o = refl
put_words-outside (w ∷ ws) idx b ram h (inl o) =
    put_words-outside ws (idx + 1) b _ (omega arith) (inl (omega arith)) ∙ ground arith
put_words-outside (w ∷ ws) idx b ram h (inr o) =
    put_words-outside ws (idx + 1) b _ (omega arith) (inr (omega arith)) ∙ ground arith

-- And the words stand there, high byte first.
put_words-inside :
    (ws : List ℕ) (idx i : ℕ) (ram : ℕ → ℕ)
    → idx * 2 + 2 * length ws ≤ 0x4000
    → i < length ws
    → (put_words idx ws ram (idx * 2 + 2 * i) ≡ u8 (get_or ws i 0 / 2 ^ 8))
      × (put_words idx ws ram (idx * 2 + 2 * i + 1) ≡ u8 (get_or ws i 0))
unfolding put_words
put_words-inside [] idx i ram h l = absurd (omega arith)
put_words-inside (w ∷ ws) idx zero ram h l = (
  put_words-outside ws (idx + 1) (idx * 2 + 2 * 0) _ (omega arith) (inl (omega arith))
      ∙ ground arith,
  put_words-outside ws (idx + 1) (idx * 2 + 2 * 0 + 1) _ (omega arith) (inl (omega arith))
      ∙ ground arith,
)
put_words-inside (w ∷ ws) idx (suc i) ram h l =
    let ih =
      put_words-inside ws (idx + 1) i (put_words idx (w ∷ []) ram) (omega arith) (omega arith) in
    let even : idx * 2 + 2 * suc i ≡ (idx + 1) * 2 + 2 * i = omega arith in
    (
      ap (put_words idx (w ∷ ws) ram) even ∙ ih.0,
      ap (λ n. put_words idx (w ∷ ws) ram (n + 1)) even ∙ ih.1,
    )

pub put_words-append :
    (ws vs : List ℕ) (idx : ℕ) (ram : ℕ → ℕ)
    → put_words idx (ws ++ vs) ram ≡ put_words (idx + length ws) vs (put_words idx ws ram)
unfolding put_words
put_words-append [] vs idx ram = ap (λ n. put_words n vs ram) (omega arith)
put_words-append (w ∷ ws) vs idx ram =
    put_words-append ws vs (idx + 1) (put_words idx (w ∷ []) ram)
    ∙ ap (λ n. put_words n vs (put_words idx (w ∷ ws) ram)) (omega arith)

-- A list of bytes cut after an even number of them has the words of its parts.
abbrev IsCut : ℕ → Type 0
IsCut n = (xs : List ℕ) → words_of (take n xs) ++ words_of (drop n xs) ≡ words_of xs

IsCut-suc : (n : ℕ) → IsCut n → IsCut (suc (suc n))
unfolding words_of
IsCut-suc n h [] = refl
IsCut-suc n h (a ∷ []) = refl
IsCut-suc n h (a ∷ b ∷ xs) = ap (λ ws. (a * 2 ^ 8 + b) ∷ ws) (h xs)

pub IsCut-eight : IsCut 8
unfolding words_of
IsCut-eight = IsCut-suc 6 (IsCut-suc 4 (IsCut-suc 2 (IsCut-suc 0 (λ xs. refl))))

pub length-words_of : (xs : List ℕ) → length (words_of xs) ≡ length xs / 2
unfolding words_of
length-words_of [] = refl
length-words_of (a ∷ []) = refl
length-words_of (a ∷ b ∷ xs) = ap suc (length-words_of xs) ∙ omega arith

-- Bytes are below 256.
unfoldable pub AreBytes : List ℕ → Type 0
AreBytes xs = (i : ℕ) → get_or xs i 0 < 256

get_or-words_of :
    (xs : List ℕ) (i : ℕ)
    → AreBytes xs
    → i < length xs / 2
    → (u8 (get_or (words_of xs) i 0 / 2 ^ 8) ≡ get_or xs (2 * i) 0)
      × (u8 (get_or (words_of xs) i 0) ≡ get_or xs (2 * i + 1) 0)
unfolding words_of AreBytes
get_or-words_of [] i h l = absurd (omega arith)
get_or-words_of (a ∷ []) i h l = absurd (omega arith)
get_or-words_of (a ∷ b ∷ xs) zero h l =
    let first : a < 256 = h 0 in let second : b < 256 = h 1 in (omega arith, omega arith)
get_or-words_of (a ∷ b ∷ xs) (suc i) h l =
    let ih = get_or-words_of xs i (λ k. h (suc (suc k))) (omega arith) in
    let even : suc (suc (2 * i)) ≡ 2 * suc i = omega arith in
    let odd : suc (suc (2 * i + 1)) ≡ 2 * suc i + 1 = omega arith in
    (ih.0 ∙ ap (λ n. get_or (a ∷ b ∷ xs) n 0) even, ih.1 ∙ ap (λ n. get_or (a ∷ b ∷ xs) n 0) odd)

get_or-append_left :
    (xs ys : List ℕ) (i : ℕ) → i < length xs → get_or (xs ++ ys) i 0 ≡ get_or xs i 0
get_or-append_left [] ys i h = absurd (omega arith)
get_or-append_left (x ∷ xs) ys zero h = refl
get_or-append_left (x ∷ xs) ys (suc i) h = get_or-append_left xs ys i (omega arith)

get_or-append_right : (xs ys : List ℕ) (i : ℕ) → get_or (xs ++ ys) (length xs + i) 0 ≡ get_or ys i 0
get_or-append_right [] ys i = ap (λ n. get_or ys n 0) (omega arith)
get_or-append_right (x ∷ xs) ys i =
    let next : suc (length xs) + i ≡ suc (length xs + i) = omega arith in
    ap (λ n. get_or (x ∷ xs ++ ys) n 0) next ∙ get_or-append_right xs ys i

-- A sector without its sync, and Q behind it, from `base` on.
pub record IsImage (base : ℕ) (bytes q : List ℕ) (ram : ℕ → ℕ) : Type 0 where
  pub high : (i : ℕ) → i < 1_170 → ram (base + 2 * i) ≡ get_or bytes (2 * i) 0
  pub low : (i : ℕ) → i < 1_170 → ram (base + 2 * i + 1) ≡ get_or bytes (2 * i + 1) 0
  pub subcode : (i : ℕ) → i < 12 → ram (base + 2_340 + 2 * i + 1) ≡ get_or q i 0

pub put_words-IsImage :
    (idx : ℕ) (bytes q : List ℕ) (ram : ℕ → ℕ)
    → idx * 2 + 2_364 ≤ 0x4000
    → length bytes ≡ 2_340
    → length q ≡ 12
    → AreBytes bytes
    → AreBytes q
    → IsImage (idx * 2) bytes q (put_words idx (words_of bytes ++ q) ram)
unfolding AreBytes
put_words-IsImage idx bytes q ram h lb lq hb hq =
    let words = words_of bytes in
    let lw : length words ≡ 1_170 = length-words_of bytes ∙ ap (λ n. n / 2) lb in
    let total : length (words ++ q) ≡ 1_182 = length-append words q ∙ omega arith in
    let inside = λ (i : ℕ) (l : i < 1_182).
      put_words-inside (words ++ q) idx i ram (omega arith) (omega arith) in
    let word = λ (i : ℕ) (l : i < 1_170). get_or-append_left words q i (omega arith) in
    let byte = λ (i : ℕ) (l : i < 1_170). get_or-words_of bytes i hb (omega arith) in
    let last =
      λ (i : ℕ). ap (λ n. get_or (words ++ q) (n + i) 0) (sym lw) ∙ get_or-append_right words q i in
    record {
      high = λ i l. (inside i (omega arith)).0 ∙ ap (λ w. u8 (w / 2 ^ 8)) (word i l) ∙ (byte i l).0;
      low = λ i l. (inside i (omega arith)).1 ∙ ap u8 (word i l) ∙ (byte i l).1;
      subcode = λ i l.
          let small : get_or q i 0 < 256 = hq i in
          ap (put_words idx (words ++ q) ram) (omega arith)
          ∙ (inside (1_170 + i) (omega arith)).1
          ∙ ap u8 (last i)
          ∙ omega arith;
    }
