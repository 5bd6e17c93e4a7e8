-- ===== src/Cdic/SeekTime.antt =====
-- crates/cdi-core/src/cdic.rs: the time of a read command and the sector that it looks for.
use edi_emulator.Prelude.{
  ℕ, ◌+◌, ◌-◌, ◌*◌, ◌/◌, ◌%◌, ◌^◌, ◌≤◌, ◌<◌, ◌≡◌, refl, arith, ap, ◌∙◌, if_false, false, ◌==◌, [],
  ◌∷◌, u8, has_bit,
}
use edi_emulator.Cdic.{Cdic, DiscMode, idle, mode1, mode2, cdda, toc}
use edi_emulator.Cdic.Transport.{from_bcd, clear_for, lba_from_time, init_disc_read}
use edi_emulator.Cdic.Subcode.{bcd8, msf_bcd, expected_msf_bcd}

from_bcd-bcd8 : (n : ℕ) → n < 100 → from_bcd (bcd8 n) ≡ n
from_bcd-bcd8 n h = omega arith

-- The time register with the three BCD bytes of a position.
abbrev pub time_of : ℕ → ℕ → ℕ → ℕ → ℕ
time_of m s f low = bcd8 m * 2 ^ 24 + bcd8 s * 2 ^ 16 + bcd8 f * 2 ^ 8 + low

msf_bcd-frames :
    (m s f n : ℕ)
    → m < 100
    → s < 60
    → f < 75
    → n ≡ (m * 60 + s) * 75 + f
    → msf_bcd n ≡ bcd8 m ∷ bcd8 s ∷ bcd8 f ∷ []
msf_bcd-frames m s f n hm hs hf e =
    let minutes : n / 4500 ≡ m = omega arith in
    let seconds : n / 75 % 60 ≡ s = omega arith in
    let frames : n % 75 ≡ f = omega arith in rw (minutes, seconds, frames) refl

lba-time_of :
    (c : Cdic) (m s f low : ℕ)
    → m < 100
    → s < 60
    → f < 75
    → low < 256
    → c.time ≡ time_of m s f low
    → lba_from_time c ≡ (m * 60 + s) * 75 + f - 150
unfolding lba_from_time
lba-time_of c m s f low hm hs hf hl e =
    let minutes : u8 (c.time / 2 ^ 24) ≡ bcd8 m = omega arith in
    let seconds : u8 (c.time / 2 ^ 16) ≡ bcd8 s = omega arith in
    let frames : u8 (c.time / 2 ^ 8) ≡ bcd8 f = omega arith in
    let small : (u8 (c.time / 2 ^ 8) / 2 ^ 7 % 2 == 1) ≡ false = ground arith in
    let m_back : from_bcd (u8 (c.time / 2 ^ 24)) ≡ m = ap from_bcd minutes ∙ from_bcd-bcd8 m hm in
    let s_back : from_bcd (u8 (c.time / 2 ^ 16)) ≡ s =
      ap from_bcd seconds ∙ from_bcd-bcd8 s (omega arith) in
    let f_back : from_bcd (u8 (c.time / 2 ^ 8)) ≡ f =
      ap from_bcd frames ∙ from_bcd-bcd8 f (omega arith) in
    if_false (λ n. n - 150 ≡ (m * 60 + s) * 75 + f - 150) (has_bit (u8 (c.time / 2 ^ 8)) 7) _ _
      small (rw (m_back, s_back, f_back) refl)

clear_for-curr_lba : (mode : DiscMode) (c : Cdic) → (clear_for mode c).curr_lba ≡ c.curr_lba
clear_for-curr_lba idle c = refl
clear_for-curr_lba mode1 c = refl
clear_for-curr_lba mode2 c = refl
clear_for-curr_lba cdda c = refl
clear_for-curr_lba toc c = refl

-- A command that starts a read at minute m, second s and frame f, in BCD and from 0:02:00 on, makes
-- the sector with that address in its header the one that is looked for.
pub expected_msf_bcd-init_disc_read :
    (c : Cdic) (mode : DiscMode) (m s f low : ℕ)
    → m < 100
    → s < 60
    → f < 75
    → low < 256
    → 150 ≤ (m * 60 + s) * 75 + f
    → c.time ≡ time_of m s f low
    → expected_msf_bcd (init_disc_read c mode) ≡ bcd8 m ∷ bcd8 s ∷ bcd8 f ∷ []
unfolding expected_msf_bcd init_disc_read
expected_msf_bcd-init_disc_read c mode m s f low hm hs hf hl late e =
    let lba = lba-time_of c m s f low hm hs hf hl e in
    msf_bcd-frames m s f ((init_disc_read c mode).curr_lba + 150) hm hs hf
      (ap (λ n. n + 150) (clear_for-curr_lba mode _ ∙ lba) ∙ omega arith)
