-- ===== src/Cdic/Stored.antt =====
-- crates/cdi-core/src/cdic.rs: `deliver_sector`, what it writes to the sector buffers in the RAM.
use edi_emulator.Prelude.{
  ℕ, ◌+◌, ◌*◌, ◌/◌, ◌<◌, ◌≤◌, ◌≡◌, ◌⊎◌, inl, inr, sym, arith, ap, ◌∙◌, Bool, true, false, List,
  ◌++◌, length, length-append, length-drop, length-take, drop-drop, get_or-drop, min, get_or, take,
  drop,
}
use mathlib.Core.List.{append_assoc}
use edi_emulator.Cdic.Sector.{put_words, words_of, delivered_ram}
use edi_emulator.Cdic.Delivered.{
  put_words-outside, put_words-append, IsCut-eight, length-words_of, AreBytes, IsImage,
  put_words-IsImage,
}

-- An address outside the 2364 bytes from `base` on.
abbrev pub IsOutside : ℕ → ℕ → Type 0
IsOutside base b = (b < base) ⊎ (base + 2_364 ≤ b)

data_ram :
    (slot : ℕ) (buffer q : List ℕ) (ram : ℕ → ℕ)
    → 2_352 ≤ length buffer
    → delivered_ram false slot buffer q ram
      ≡ put_words (slot * 0x0500) (words_of (drop 12 buffer) ++ q) ram
unfolding delivered_ram
data_ram slot buffer q ram h =
    let front = words_of (take 8 (drop 12 buffer)) in
    let back = words_of (drop 20 buffer) in
    let four : length front ≡ 4 =
      length-words_of (take 8 (drop 12 buffer))
      ∙ ap (λ n. n / 2) (length-take 8 (drop 12 buffer))
      ∙ ap (λ n. min 8 n / 2) (length-drop 12 buffer)
      ∙ omega arith in
    let whole : front ++ back ≡ words_of (drop 12 buffer) =
      ap (λ xs. front ++ words_of xs) (sym (drop-drop 8 12 buffer))
      ∙ IsCut-eight (drop 12 buffer) in
    ap (λ n. put_words (slot * 0x0500 + n) (back ++ q) (put_words (slot * 0x0500) front ram))
      (sym four)
    ∙ sym (put_words-append front (back ++ q) (slot * 0x0500) ram)
    ∙ ap (λ ws. put_words (slot * 0x0500) ws ram)
        (sym (append_assoc front back q) ∙ ap (λ ws. ws ++ q) whole)

-- The two buffers of each kind.
pub record IsStored (realtime_audio : Bool) (slot : ℕ) (buffer q : List ℕ) (before after : ℕ → ℕ)
    : Type 0 where
  pub data_image : realtime_audio ≡ false → IsImage (slot * 0x0a00) (drop 12 buffer) q after
  pub audio_image :
      realtime_audio ≡ true → IsImage (0x2800 + slot * 0x0a00) (drop 12 buffer) q after
  pub others :
      (b : ℕ)
      → IsOutside (slot * 0x0a00) b
      → IsOutside (0x2800 + slot * 0x0a00) b
      → after b ≡ before b

outside-put :
    (base idx b : ℕ) (ws : List ℕ) (ram : ℕ → ℕ)
    → idx * 2 ≡ base
    → base + 2_364 ≤ 0x4000
    → length ws ≤ 1_182
    → IsOutside base b
    → put_words idx ws ram b ≡ ram b
outside-put base idx b ws ram e h l (inl o) =
    put_words-outside ws idx b ram (omega arith) (inl (omega arith))
outside-put base idx b ws ram e h l (inr o) =
    put_words-outside ws idx b ram (omega arith) (inr (omega arith))

module _ (slot : ℕ) (buffer q : List ℕ) (ram : ℕ → ℕ) (small : slot < 2)
    (sized : length buffer ≡ 2_352) (twelve : length q ≡ 12) (bytes : AreBytes buffer)
    (q_bytes : AreBytes q) where
  body_bytes : AreBytes (drop 12 buffer)
  unfolding AreBytes
  body_bytes i =
      let e = get_or-drop 12 i buffer 0 in
      let h : get_or buffer (12 + i) 0 < 256 = bytes (12 + i) in omega arith

  body_length : length (drop 12 buffer) ≡ 2_340
  body_length = length-drop 12 buffer ∙ omega arith

  words_length : length (words_of (drop 12 buffer) ++ q) ≤ 1_182
  words_length =
      let a = length-append (words_of (drop 12 buffer)) q in
      let w = length-words_of (drop 12 buffer) in let b = body_length in omega arith

  header_length : length (words_of (take 8 (drop 12 buffer))) ≤ 1_182
  header_length =
      let w = length-words_of (take 8 (drop 12 buffer)) in
      let t = length-take 8 (drop 12 buffer) in omega arith

  image :
      (base idx : ℕ) (r : ℕ → ℕ)
      → idx * 2 ≡ base
      → base + 2_364 ≤ 0x4000
      → IsImage base (drop 12 buffer) q (put_words idx (words_of (drop 12 buffer) ++ q) r)
  image base idx r e h = rw (sym e) (
      put_words-IsImage idx (drop 12 buffer) q r (omega arith) body_length twelve body_bytes
        q_bytes)

  data-IsStored : IsStored false slot buffer q ram (delivered_ram false slot buffer q ram)
  data-IsStored =
      let e = data_ram slot buffer q ram (omega arith) in
      record {
        data_image =
            λ _. rw e (image (slot * 0x0a00) (slot * 0x0500) ram (omega arith) (omega arith));
        audio_image = λ a. absurd (ground arith);
        others = λ b o p.
            ap (λ (f : ℕ → ℕ). f b) e
            ∙ outside-put (slot * 0x0a00) (slot * 0x0500) b (words_of (drop 12 buffer) ++ q) ram
                (omega arith) (omega arith) words_length o;
      }

  audio-IsStored : IsStored true slot buffer q ram (delivered_ram true slot buffer q ram)
  unfolding delivered_ram
  audio-IsStored =
      let base = 0x2800 + slot * 0x0a00 in
      let header = words_of (take 8 (drop 12 buffer)) in
      let with_header = put_words (slot * 0x0500) header ram in
      record {
        data_image = λ a. absurd (ground arith);
        audio_image = λ _. image base (base / 2) with_header (omega arith) (omega arith);
        others = λ b o p.
            outside-put base (base / 2) b (words_of (drop 12 buffer) ++ q) with_header (omega arith)
              (omega arith) words_length p
            ∙ outside-put (slot * 0x0a00) (slot * 0x0500) b header ram (omega arith) (omega arith)
                header_length o;
      }

  pub delivered_ram-IsStored :
      (a : Bool) → IsStored a slot buffer q ram (delivered_ram a slot buffer q ram)
  delivered_ram-IsStored true = audio-IsStored
  delivered_ram-IsStored false = data-IsStored
