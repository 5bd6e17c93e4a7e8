-- ===== src/Cdic/DataBuffer.antt =====
-- crates/cdi-core/src/cdic.rs: `deliver_sector`, the slot that it chooses in the data buffer register.
use edi_emulator.Prelude.{
  ℕ, ◌+◌, ◌*◌, ◌/◌, ◌%◌, ◌<◌, ◌≤◌, ◌≡◌, refl, arith, Bool, true, false, if◌then◌else◌, ◌-◌, zero,
  suc, has_bit, set_bit, clear_bit,
}
use Prim.Native.Nat.{differ, bit_xor}
use edi_emulator.Prelude.Bits.{bit_xor_halves}
use edi_emulator.Cdic.{Cdic}
use edi_emulator.Cdic.Sector.{next_data_buffer}

-- A register without the bits 0, 2 and 14.
abbrev pub other_bits : ℕ → ℕ
other_bits x = clear_bit (clear_bit (clear_bit x 0) 2) 14

-- The toggle of a register's lowest bit.
differ-one : (x : ℕ) → x < 2 → differ x 1 ≡ 1 - x
differ-one zero h = refl
differ-one (suc zero) h = refl
differ-one (suc (suc x)) h = absurd (omega arith)

differ-none : (x : ℕ) → x < 2 → differ x 0 ≡ x
differ-none zero h = refl
differ-none (suc zero) h = refl
differ-none (suc (suc x)) h = absurd (omega arith)

bit_xor-zero : (n x : ℕ) → x ≤ n → bit_xor x 0 ≡ x
bit_xor-zero zero x h = let e : x ≡ 0 = omega arith in rw e refl
bit_xor-zero (suc n) x h =
    let last : differ (x % 2) 0 ≡ x % 2 = differ-none (x % 2) (omega arith) in
    omega (arith, bit_xor_halves x 0, bit_xor-zero n (x / 2) (omega arith))

pub bit_xor-one : (x : ℕ) → bit_xor x 1 ≡ x / 2 * 2 + (1 - x % 2)
bit_xor-one x = omega (
  arith,
  bit_xor_halves x 1,
  bit_xor-zero (x / 2) (x / 2) (omega arith),
  differ-one (x % 2) (omega arith),
)

-- What the data buffer register names after a delivery.
pub record IsNamed (audio : Bool) (slot before after : ℕ) : Type 0 where
  pub slot_named : after % 2 ≡ slot
  pub kind_named : has_bit after 2 ≡ audio
  pub data_ready : has_bit after 14 ≡ true
  pub register_kept : other_bits after ≡ other_bits before

toggled :
    (x y : ℕ)
    → y ≡ x / 2 * 2 + (1 - x % 2)
    → IsNamed false (1 - x % 2) x (set_bit (clear_bit y 2) 14)
toggled x y e = record {
  slot_named = ground arith;
  kind_named = ground arith;
  data_ready = ground arith;
  register_kept = ground arith;
}

pointed :
    (x slot : ℕ) → slot < 2 → IsNamed true slot x (set_bit (set_bit (clear_bit x 0) 2 + slot) 14)
pointed x slot h = record {
  slot_named = ground arith;
  kind_named = ground arith;
  data_ready = ground arith;
  register_kept = ground arith;
}

pub next_data_buffer-IsNamed :
    (c : Cdic) (audio : Bool)
    → c.realtime_audio_next_write < 2
    → IsNamed audio
        (if audio then c.realtime_audio_next_write else 1 - c.data_buffer % 2)
        c.data_buffer
        (set_bit (next_data_buffer c audio) 14)
unfolding next_data_buffer
next_data_buffer-IsNamed c true h = pointed c.data_buffer c.realtime_audio_next_write h
next_data_buffer-IsNamed c false h =
    toggled c.data_buffer (bit_xor c.data_buffer 1) (bit_xor-one c.data_buffer)

pub next_data_buffer-slot :
    (c : Cdic) (audio : Bool)
    → c.realtime_audio_next_write < 2
    → next_data_buffer c audio % 2
      ≡ (if audio then c.realtime_audio_next_write else 1 - c.data_buffer % 2)
next_data_buffer-slot c audio h =
    let named = (next_data_buffer-IsNamed c audio h).slot_named in omega arith
