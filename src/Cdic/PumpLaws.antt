-- ===== src/Cdic/PumpLaws.antt =====
-- crates/cdi-core/src/cdic.rs: when the pumps run, and the drive while it delivers nothing.
use edi_emulator.Prelude.{
  ℕ, zero, suc, ◌+◌, ◌*◌, ◌^◌, ◌<◌, ◌≤◌, ◌≡◌, ◌≢◌, ◌⊎◌, inl, inr, refl, arith, ap, ◌∙◌, false, leb,
  List, Option, u64, le_or_gt,
}
use edi_emulator.Prelude.Paced.{paced, iterate, iterate-add}
use edi_emulator.Disc.Image.{DiscImage}
use edi_emulator.Cdic.{Cdic}
use edi_emulator.Cdic.Audio.{audio_tick}
use edi_emulator.Cdic.Pump.{
  with_sector_accum, with_audio_accum, pump_hz, sector_tick, tick, cycles_until_next_event,
}

paced-short :
    {S : Type 0} (accum : S → ℕ) (with_accum : ℕ → S → S) (step : S → S) (period fuel : ℕ) (s : S)
    → accum s < period
    → paced accum with_accum step period (suc fuel) s ≡ s
unfolding paced
paced-short accum with_accum step period fuel s h =
    let e : leb period (accum s) ≡ false = ground arith in rw (e, paced) refl

-- The counts after cycles in which no pump runs.
abbrev pub counted : Cdic → ℕ → Cdic
counted c cycles = record c {
  sector_accum = c.sector_accum + cycles * pump_hz;
  audio_accum = c.audio_accum + cycles * pump_hz;
}

-- The state at a tick of the drive: the ticks, the spin-up count and the position.
abbrev pub at_tick : Cdic → ℕ → ℕ → ℕ → Cdic
at_tick c ticks spin lba = record c {
  sector_ticks = ticks;
  disc_spinup_counter = spin;
  curr_lba = lba;
}

module _ (mix : List ℕ → ℕ → ℕ → ℕ × ℕ) {F : Type 0} (read_at : F → ℕ → Option (List ℕ))
    (disc : Option (DiscImage F)) where
  tick-short :
      (c : Cdic) (cycles : ℕ)
      → c.clock_hz < 2 ^ 64
      → c.sector_accum + cycles * pump_hz < c.clock_hz
      → c.audio_accum + cycles * pump_hz < c.clock_hz
      → tick mix read_at c cycles disc ≡ counted c cycles
  unfolding tick
  tick-short c cycles w s a =
      let se : u64 (c.sector_accum + cycles * pump_hz) ≡ c.sector_accum + cycles * pump_hz =
        omega arith in
      let ae : u64 (c.audio_accum + cycles * pump_hz) ≡ c.audio_accum + cycles * pump_hz =
        omega arith in
      let sectors = with_sector_accum (u64 (c.sector_accum + cycles * pump_hz)) c in
      let audio : Cdic → Cdic = λ (q : Cdic).
        let n = u64 (q.audio_accum + cycles * pump_hz) in
        paced (λ (r : Cdic). r.audio_accum) with_audio_accum (audio_tick mix) c.clock_hz (suc n)
          (with_audio_accum n q) in
      ap audio (
        paced-short (λ (r : Cdic). r.sector_accum) with_sector_accum (sector_tick mix read_at disc)
          c.clock_hz (u64 (c.sector_accum + cycles * pump_hz)) sectors (omega arith))
      ∙ paced-short (λ (r : Cdic). r.audio_accum) with_audio_accum (audio_tick mix) c.clock_hz
          (u64 (c.audio_accum + cycles * pump_hz))
          (with_audio_accum (u64 (c.audio_accum + cycles * pump_hz)) sectors) (omega arith)
      ∙ ap (λ n. with_audio_accum (u64 (c.audio_accum + cycles * pump_hz)) (with_sector_accum n c))
          se
      ∙ ap (λ n. with_audio_accum n (with_sector_accum (c.sector_accum + cycles * pump_hz) c)) ae

  spin_tick :
      (c : Cdic) (ticks spin lba : ℕ)
      → c.disc_command ≢ 0
      → ticks + 1 < 2 ^ 64
      → sector_tick mix read_at disc (at_tick c ticks (suc spin) lba)
        ≡ at_tick c (ticks + 1) spin lba
  unfolding sector_tick
  spin_tick c ticks spin lba h w = ground arith

  held_tick :
      (c : Cdic) (ticks lba : ℕ)
      → c.disc_command ≢ 0
      → c.disc_read_enabled ≡ false
      → ticks + 1 < 2 ^ 64
      → lba + 1 < 2 ^ 32
      → sector_tick mix read_at disc (at_tick c ticks 0 lba) ≡ at_tick c (ticks + 1) 0 (lba + 1)
  unfolding sector_tick
  held_tick c ticks lba h e w l = ground arith

  spin_ticks :
      (n : ℕ) (c : Cdic) (ticks lba : ℕ)
      → c.disc_command ≢ 0
      → ticks + n < 2 ^ 64
      → iterate n (sector_tick mix read_at disc) (at_tick c ticks n lba)
        ≡ at_tick c (ticks + n) 0 lba
  unfolding iterate
  spin_ticks zero c ticks lba h w = ap (λ t. at_tick c t 0 lba) (omega arith)
  spin_ticks (suc n) c ticks lba h w =
      ap (iterate n (sector_tick mix read_at disc)) (spin_tick c ticks n lba h (omega arith))
      ∙ spin_ticks n c (ticks + 1) lba h (omega arith)
      ∙ ap (λ t. at_tick c t 0 lba) (omega arith)

  held_ticks :
      (n : ℕ) (c : Cdic) (ticks lba : ℕ)
      → c.disc_command ≢ 0
      → c.disc_read_enabled ≡ false
      → ticks + n < 2 ^ 64
      → lba + n < 2 ^ 32
      → iterate n (sector_tick mix read_at disc) (at_tick c ticks 0 lba)
        ≡ at_tick c (ticks + n) 0 (lba + n)
  unfolding iterate
  held_ticks zero c ticks lba h e w l =
      ap (λ t. at_tick c t 0 lba) (omega arith) ∙ ap (at_tick c (ticks + 0) 0) (omega arith)
  held_ticks (suc n) c ticks lba h e w l =
      ap (iterate n (sector_tick mix read_at disc))
        (held_tick c ticks lba h e (omega arith) (omega arith))
      ∙ held_ticks n c (ticks + 1) (lba + 1) h e (omega arith) (omega arith)
      ∙ ap (λ t. at_tick c t 0 (lba + 1 + n)) (omega arith)
      ∙ ap (at_tick c (ticks + suc n) 0) (omega arith)

-- While the delivery of an active read is off, the ticks first count the spin-up down, and then move
-- the position on by a sector each; nothing else changes, as long as neither counter overflows.
pub sector_tick-held :
    (mix : List ℕ → ℕ → ℕ → ℕ × ℕ) {F : Type 0} (read_at : F → ℕ → Option (List ℕ))
    (disc : Option (DiscImage F)) (c : Cdic) (n : ℕ)
    → c.disc_command ≢ 0
    → c.disc_read_enabled ≡ false
    → c.sector_ticks + (c.disc_spinup_counter + n) < 2 ^ 64
    → c.curr_lba + n < 2 ^ 32
    → iterate (c.disc_spinup_counter + n) (sector_tick mix read_at disc) c
      ≡ at_tick c (c.sector_ticks + c.disc_spinup_counter + n) 0 (c.curr_lba + n)
sector_tick-held mix read_at disc c n h e w l =
    iterate-add c.disc_spinup_counter n (sector_tick mix read_at disc) c
    ∙ ap (iterate n (sector_tick mix read_at disc)) (
        spin_ticks mix read_at disc c.disc_spinup_counter c c.sector_ticks c.curr_lba h
          (omega arith))
    ∙ held_ticks mix read_at disc n c (c.sector_ticks + c.disc_spinup_counter) c.curr_lba h e
        (omega arith) l

-- With both counts below the clock rate, a tick shorter than the announced deadline only counts its
-- cycles, and at the deadline one of the pumps is due.
pub tick-cycles_until :
    (mix : List ℕ → ℕ → ℕ → ℕ × ℕ) {F : Type 0} (read_at : F → ℕ → Option (List ℕ))
    (disc : Option (DiscImage F)) (c : Cdic) (cycles : ℕ)
    → c.clock_hz < 2 ^ 64
    → c.sector_accum < c.clock_hz
    → c.audio_accum < c.clock_hz
    → cycles < cycles_until_next_event c
    → (tick mix read_at c cycles disc ≡ counted c cycles)
      × ((c.clock_hz ≤ c.sector_accum + cycles_until_next_event c * pump_hz)
          ⊎ (c.clock_hz ≤ c.audio_accum + cycles_until_next_event c * pump_hz))
unfolding cycles_until_next_event
tick-cycles_until mix read_at disc c cycles w s a h = (
  tick-short mix read_at disc c cycles w (omega arith) (omega arith),
  elim (le_or_gt c.sector_accum c.audio_accum) [
    | inl o ↦ inr (omega arith)
    | inr o ↦ inl (omega arith)
  ],
)
