-- ===== src/Cdic/Mailbox.antt =====
-- crates/cdi-core/src/cdic.rs: the mailbox registers through the CPU's byte accesses.
use edi_emulator.Prelude.{ℕ, ◌+◌, ◌*◌, ◌%◌, ◌^◌, ◌<◌, ◌≡◌, ◌≢◌, refl, sym, arith, ap, ◌∙◌, List}
use edi_emulator.Cdic.{
  Cdic, ram_read8, ram_write8, ram_read16, set_mailbox, mailbox_register,
  load_mailbox_word_from_ram,
}
use edi_emulator.Cdic.Registers.{read16, write8}

pub data IsOffset : ℕ → Type 0 where
  at_command : IsOffset 0x3c00
  at_time_upper : IsOffset 0x3c02
  at_time_lower : IsOffset 0x3c04
  at_file : IsOffset 0x3c06
  at_channel_upper : IsOffset 0x3c08
  at_channel_lower : IsOffset 0x3c0a
  at_audio_channel : IsOffset 0x3c0c

set_mailbox-same :
    (c : Cdic) (offset w : ℕ)
    → IsOffset offset
    → w < 2 ^ 16
    → mailbox_register (set_mailbox c offset w) offset ≡ w
unfolding mailbox_register set_mailbox
set_mailbox-same c _ w at_command h = refl
set_mailbox-same c _ w at_time_upper h = omega arith
set_mailbox-same c _ w at_time_lower h = omega arith
set_mailbox-same c _ w at_file h = refl
set_mailbox-same c _ w at_channel_upper h = omega arith
set_mailbox-same c _ w at_channel_lower h = omega arith
set_mailbox-same c _ w at_audio_channel h = refl

set_mailbox-other :
    (c : Cdic) (offset other w : ℕ)
    → IsOffset offset
    → IsOffset other
    → offset ≢ other
    → w < 2 ^ 16
    → mailbox_register (set_mailbox c offset w) other ≡ mailbox_register c other
unfolding mailbox_register set_mailbox
set_mailbox-other c _ other w at_command p n h = ground arith
set_mailbox-other c _ other w at_time_upper p n h = ground arith
set_mailbox-other c _ other w at_time_lower p n h = ground arith
set_mailbox-other c _ other w at_file p n h = ground arith
set_mailbox-other c _ other w at_channel_upper p n h = ground arith
set_mailbox-other c _ other w at_channel_lower p n h = ground arith
set_mailbox-other c _ _ w at_audio_channel at_audio_channel n h = absurd (n refl)
set_mailbox-other c _ _ w at_audio_channel at_command n h = refl
set_mailbox-other c _ _ w at_audio_channel at_time_upper n h = refl
set_mailbox-other c _ _ w at_audio_channel at_time_lower n h = refl
set_mailbox-other c _ _ w at_audio_channel at_file n h = refl
set_mailbox-other c _ _ w at_audio_channel at_channel_upper n h = refl
set_mailbox-other c _ _ w at_audio_channel at_channel_lower n h = refl

set_mailbox-ram : (c : Cdic) (offset w : ℕ) → (set_mailbox c offset w).ram ≡ c.ram
unfolding set_mailbox
set_mailbox-ram c offset w = ground arith

in_range : (offset : ℕ) → IsOffset offset → offset < 0x3fff
in_range _ at_command = omega arith
in_range _ at_time_upper = omega arith
in_range _ at_time_lower = omega arith
in_range _ at_file = omega arith
in_range _ at_channel_upper = omega arith
in_range _ at_channel_lower = omega arith
in_range _ at_audio_channel = omega arith

-- The state after both bytes of a word are written.
abbrev pub write_word : (List ℕ → ℕ → ℕ → ℕ × ℕ) → Cdic → ℕ → ℕ → ℕ → Cdic
write_word mix c offset hi lo = (write8 mix (write8 mix c offset hi).0 (offset + 1) lo).0

first_byte :
    (mix : List ℕ → ℕ → ℕ → ℕ × ℕ) (c : Cdic) (offset hi : ℕ)
    → IsOffset offset
    → (write8 mix c offset hi).0 ≡ load_mailbox_word_from_ram (ram_write8 c offset hi) offset
unfolding write8
first_byte mix c _ hi at_command = refl
first_byte mix c _ hi at_time_upper = refl
first_byte mix c _ hi at_time_lower = refl
first_byte mix c _ hi at_file = refl
first_byte mix c _ hi at_channel_upper = refl
first_byte mix c _ hi at_channel_lower = refl
first_byte mix c _ hi at_audio_channel = refl

second_byte :
    (mix : List ℕ → ℕ → ℕ → ℕ × ℕ) (c : Cdic) (offset lo : ℕ)
    → IsOffset offset
    → (write8 mix c (offset + 1) lo).0
      ≡ load_mailbox_word_from_ram (ram_write8 c (offset + 1) lo) offset
unfolding write8
second_byte mix c _ lo at_command = refl
second_byte mix c _ lo at_time_upper = refl
second_byte mix c _ lo at_time_lower = refl
second_byte mix c _ lo at_file = refl
second_byte mix c _ lo at_channel_upper = refl
second_byte mix c _ lo at_channel_lower = refl
second_byte mix c _ lo at_audio_channel = refl

-- The word in the RAM after both bytes.
word_in_ram :
    (mix : List ℕ → ℕ → ℕ → ℕ × ℕ) (c : Cdic) (offset hi lo : ℕ)
    → IsOffset offset
    → ram_read16 (ram_write8 (write8 mix c offset hi).0 (offset + 1) lo) offset ≡ hi * 2 ^ 8 + lo
unfolding ram_read16 ram_write8 ram_read8 load_mailbox_word_from_ram
word_in_ram mix c offset hi lo o =
    let q = (write8 mix c offset hi).0 in
    let stored = ram_write8 c offset hi in
    let same : q.ram ≡ stored.ram =
      ap (λ (d : Cdic). d.ram) (first_byte mix c offset hi o)
      ∙ set_mailbox-ram stored offset (ram_read16 stored offset) in
    let high : q.ram (offset % 0x4000) ≡ hi =
      ap (λ (f : ℕ → ℕ). f (offset % 0x4000)) same ∙ ground arith in
    let l : offset < 0x3fff = in_range offset o in ground arith

read_register :
    (c : Cdic) (offset : ℕ) → IsOffset offset → (read16 c offset).1 ≡ mailbox_register c offset
unfolding read16
read_register c _ at_command = refl
read_register c _ at_time_upper = refl
read_register c _ at_time_lower = refl
read_register c _ at_file = refl
read_register c _ at_channel_upper = refl
read_register c _ at_channel_lower = refl
read_register c _ at_audio_channel = refl

kept_by_ram :
    (c : Cdic) (a v offset : ℕ)
    → mailbox_register (ram_write8 c a v) offset ≡ mailbox_register c offset
unfolding ram_write8 mailbox_register
kept_by_ram c a v offset = refl

-- The RAM holds bytes.
unfoldable pub HoldsBytes : Cdic → Type 0
HoldsBytes c = (a : ℕ) → c.ram a < 256

word_small :
    (c : Cdic) (offset hi : ℕ)
    → IsOffset offset
    → HoldsBytes c
    → hi < 256
    → ram_read16 (ram_write8 c offset hi) offset < 2 ^ 16
unfolding HoldsBytes ram_read16 ram_write8 ram_read8
word_small c offset hi o h l =
    let low : c.ram ((offset + 1) % 0x4000) < 256 = h ((offset + 1) % 0x4000) in
    let r : offset < 0x3fff = in_range offset o in ground arith

-- The other registers after one byte.
first_byte-other :
    (c : Cdic) (a v offset other : ℕ)
    → IsOffset offset
    → IsOffset other
    → offset ≢ other
    → ram_read16 (ram_write8 c a v) offset < 2 ^ 16
    → mailbox_register (load_mailbox_word_from_ram (ram_write8 c a v) offset) other
      ≡ mailbox_register c other
unfolding load_mailbox_word_from_ram
first_byte-other c a v offset other o p n w =
    set_mailbox-other (ram_write8 c a v) offset other (ram_read16 (ram_write8 c a v) offset) o p n w
    ∙ kept_by_ram c a v other

-- Two bytes below 256 written to a mailbox register, the even address first, read back as their
-- word, and every other mailbox register keeps its value, where the RAM holds bytes.
pub read16-write_word :
    (mix : List ℕ → ℕ → ℕ → ℕ × ℕ) (c : Cdic) (offset other hi lo : ℕ)
    → IsOffset offset
    → IsOffset other
    → HoldsBytes c
    → hi < 256
    → lo < 256
    → ((read16 (write_word mix c offset hi lo) offset).1 ≡ hi * 2 ^ 8 + lo)
      × (offset ≢ other → (read16 (write_word mix c offset hi lo) other).1 ≡ (read16 c other).1)
unfolding load_mailbox_word_from_ram
read16-write_word mix c offset other hi lo o p b h l =
    let q = (write8 mix c offset hi).0 in
    let word = word_in_ram mix c offset hi lo o in
    let after = second_byte mix q offset lo o in
    let stored = ram_write8 q (offset + 1) lo in
    let small : ram_read16 stored offset < 2 ^ 16 = omega arith in
    (
      read_register (write_word mix c offset hi lo) offset o
          ∙ ap (λ (d : Cdic). mailbox_register d offset) after
          ∙ set_mailbox-same stored offset (ram_read16 stored offset) o small
          ∙ word,
      λ n.
          read_register (write_word mix c offset hi lo) other p
          ∙ ap (λ (d : Cdic). mailbox_register d other) after
          ∙ first_byte-other q (offset + 1) lo offset other o p n small
          ∙ ap (λ (d : Cdic). mailbox_register d other) (first_byte mix c offset hi o)
          ∙ first_byte-other c offset hi offset other o p n (word_small c offset hi o b h)
          ∙ sym (read_register c other p),
    )
