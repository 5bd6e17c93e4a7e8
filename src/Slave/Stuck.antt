-- ===== src/Slave/Stuck.antt =====
-- crates/cdi-core/src/slave.rs: the display command of channel 2 that is completed on channel 2.
use edi_emulator.Prelude.{
  ℕ, ◌+◌, ◌≤◌, ◌<◌, ◌≡◌, refl, ap, ◌∙◌, arith, min, not, suc, leb, ◌==◌, ◌&&◌, if_both, if_true,
  if_false, List, [], ◌∷◌, set, get_or, get_or-set_ne, get_or-set_self, length, replicate,
}
use edi_emulator.Slave.{SlaveHle}
use edi_emulator.Slave.Aligned.{IsValid}
use edi_emulator.Slave.Port.{
  between, store, write, write_mouse, write_lcd, write_ch2, write_ch3, finish_ch2, start_ch2,
}

-- A list of writes, each a channel and a byte.
unfoldable pub write_all : List (ℕ × ℕ) → SlaveHle → SlaveHle
write_all [] s = s
write_all ((channel, byte) ∷ ws) s = write_all ws (write s channel byte)

-- Bytes that are all written to channel 2.
unfoldable pub to_channel2 : List ℕ → List (ℕ × ℕ)
to_channel2 [] = []
to_channel2 (b ∷ bs) = (2, b) ∷ to_channel2 bs

-- Within a display command: the input buffer and how much of it is used.
unfoldable pub display : SlaveHle → List ℕ → ℕ → SlaveHle
display s buf n = record s { in_buf = buf; in_index = n; in_count = 17 }

heads :
    (buf : List ℕ) (n b : ℕ)
    → 1 ≤ n
    → get_or buf 0 0 ≡ 0xf0
    → get_or (set buf (min n 16) b) 0 0 ≡ 0xf0
heads buf n b h e = get_or-set_ne buf (min n 16) 0 b 0 (λ z. omega arith) ∙ e

filling :
    (s : SlaveHle) (buf : List ℕ) (n b : ℕ)
    → 1 ≤ n
    → n < 16
    → s.transport_parameter_bytes ≡ 0
    → write (display s buf n) 2 b ≡ display s (set buf (min n 16) b) (n + 1)
unfolding write store write_ch2 display
filling s buf n b h l t = ground arith

finished :
    (s : SlaveHle) (buf : List ℕ) (first : ℕ)
    → get_or buf 0 0 ≡ first
    → first ≡ 0xf0
    → finish_ch2 (display s buf 17) ≡ display s (0xf0 ∷ replicate 16 0) 17
unfolding finish_ch2 display
finished s buf first e f =
    if_false (λ t. t ≡ display s (0xf0 ∷ replicate 16 0) 17) (between 0xc0 0xcf (get_or buf 0 0)) _
      _ (ground arith)
      (if_true (λ t. t ≡ display s (0xf0 ∷ replicate 16 0) 17) (get_or buf 0 0 == 0xf0) _ _
        (ground arith) (ap (λ x. display s (x ∷ replicate 16 0) 17) (e ∙ f)))

filled :
    (s : SlaveHle) (buf : List ℕ) (b : ℕ)
    → get_or buf 0 0 ≡ 0xf0
    → s.transport_parameter_bytes ≡ 0
    → write (display s buf 16) 2 b ≡ display s (0xf0 ∷ replicate 16 0) 17
unfolding write store write_ch2 display
filled s buf b e t =
    if_false (λ u. u ≡ display s (0xf0 ∷ replicate 16 0) 17)
      (not (s.transport_parameter_bytes == 0)) _ _ (ground arith)
      (finished s (set buf 16 b) 0xf0 (heads buf 16 b (omega arith) e) refl)

-- Past its end, a display command takes every byte of every channel.
stuck :
    (s : SlaveHle) (buf : List ℕ) (n channel b : ℕ)
    → 17 ≤ n
    → get_or buf 0 0 ≡ 0xf0
    → s.transport_parameter_bytes ≡ 0
    → write (display s buf n) channel b ≡ display s (set buf (min n 16) b) (n + 1)
unfolding write store display write_mouse write_lcd write_ch2 write_ch3
stuck s buf n channel b h e t =
    let first = heads buf n b (omega arith) e in
    let P : SlaveHle → Type 0 = λ u. u ≡ display s (set buf (min n 16) b) (n + 1) in
    if_false P (channel == 1 && n == 0) _ _ (ground arith) (
      if_both P (channel == 0) _ _ (ground (arith, first)) (
        if_both P (channel == 1) _ _ (ground arith) (
          if_both P (channel == 2) _ _ (ground arith)
            (if_both P (channel == 3) _ _ (ground arith) refl))))

fills :
    (s : SlaveHle) (buf bytes : List ℕ) (n : ℕ)
    → 1 ≤ n
    → suc (length bytes) + n ≡ 17
    → get_or buf 0 0 ≡ 0xf0
    → s.transport_parameter_bytes ≡ 0
    → (b : ℕ)
    → write_all (to_channel2 (b ∷ bytes)) (display s buf n) ≡ display s (0xf0 ∷ replicate 16 0) 17
unfolding write_all to_channel2
fills s buf [] n h l e t b =
    ap (λ k. write (display s buf k) 2 b) (omega arith) ∙ filled s buf b e t
fills s buf (c ∷ bytes) n h l e t b =
    ap (write_all (to_channel2 (c ∷ bytes))) (filling s buf n b h (omega arith) t)
    ∙ fills s (set buf (min n 16) b) bytes (n + 1) (omega arith) (omega arith) (heads buf n b h e) t
        c

stays :
    (s : SlaveHle) (buf : List ℕ) (n : ℕ) (ws : List (ℕ × ℕ))
    → 17 ≤ n
    → get_or buf 0 0 ≡ 0xf0
    → s.transport_parameter_bytes ≡ 0
    → (rest : List ℕ) × (write_all ws (display s buf n) ≡ display s rest (n + length ws))
unfolding write_all
stays s buf n [] h e t = (buf, ap (display s buf) (omega arith))
stays s buf n ((channel, b) ∷ ws) h e t =
    let more =
      stays s (set buf (min n 16) b) (n + 1) ws (omega arith) (heads buf n b (omega arith) e) t in
    (
      more.0,
      ap (write_all ws) (stuck s buf n channel b h e t)
          ∙ more.1
          ∙ ap (display s more.0) (omega arith),
    )

begins :
    (s : SlaveHle)
    → s.in_index ≡ 0
    → s.transport_parameter_bytes ≡ 0
    → write s 2 0xf0 ≡ display s (set s.in_buf 0 0xf0) 1
unfolding write store write_ch2 start_ch2 display
begins s i t =
    if_false (λ u. u ≡ display s (set s.in_buf 0 0xf0) 1) (not (s.transport_parameter_bytes == 0)) _
      _ (ground arith)
      (if_false (λ u. u ≡ display s (set s.in_buf 0 0xf0) 1) (leb 2 (s.in_index + 1)) _ _
        (ground arith) (ap (λ k. display s (set s.in_buf (min k 16) 0xf0) (k + 1)) i))

-- Between commands, the display command 0xf0 with its sixteen bytes all written to channel 2 leaves
-- a state in which every later write, to any channel, only moves on in the input buffer.
pub write_all-stuck :
    (s : SlaveHle) (bytes : List ℕ) (later : List (ℕ × ℕ))
    → IsValid s
    → s.in_index ≡ 0
    → s.transport_parameter_bytes ≡ 0
    → length bytes ≡ 16
    → (rest : List ℕ) × (write_all later (write_all (to_channel2 (0xf0 ∷ bytes)) s)
        ≡ display s rest (17 + length later))
unfolding write_all to_channel2
write_all-stuck s [] later v i t l = absurd (ground arith)
write_all-stuck s (b ∷ bytes) later v i t l =
    let end = stays s (0xf0 ∷ replicate 16 0) 17 later (omega arith) refl t in
    let head = get_or-set_self s.in_buf 0 0xf0 0 (rw (v.fits.input_length) (omega arith)) in
    (
      end.0,
      ap (λ u. write_all later (write_all (to_channel2 (b ∷ bytes)) u)) (begins s i t)
          ∙ ap (write_all later)
              (fills s (set s.in_buf 0 0xf0) bytes 1 (omega arith) (omega arith) head t b)
          ∙ end.1,
    )
