-- ===== src/Keyboard/Identify.antt =====
-- crates/cdi-core/src/keyboard.rs: recognition. The host negates RTS long enough and asserts it.
use edi_emulator.Prelude.{
  ℕ, ◌+◌, ◌*◌, ◌/◌, ◌<◌, ◌≤◌, ◌≡◌, refl, ap, if_false, if_true, inl, inr, le_or_gt, ◌&&◌, ◌∙◌,
  arith, true, false, not, leb, ◌<=>◌, if◌then◌else◌, List, [], ◌∷◌, none, some, u64,
}
use mathlib.Core.Path.{ap₂}
use edi_emulator.Keyboard.{
  KeyboardKMode, character_cycles, bit_cycles, recognition_low_cycles, set_rts, rts_rise,
  queue_identification, k_mode_id, u64_max,
}
use edi_emulator.Keyboard.Line.{send, tick-waited, tick-heard, tick}

leb-true : (a b : ℕ) → a ≤ b → true ≡ leb a b
leb-true a b h = ground arith

leb-false : (a b : ℕ) → b < a → false ≡ leb a b
leb-false a b h = ground arith

-- What a recognition asks of the keyboard before it: attached, addressed, and with its power-on
-- identification done.
pub record IsIdle (k : KeyboardKMode) : Type 0 where
  pub attached : k.attached ≡ true
  pub asserted : k.rts_asserted ≡ true
  pub quiet : k.power_on_countdown ≡ none
  pub no_id : k.power_on_id_pending ≡ false

-- RTS negated for `low` cycles and asserted again.
unfoldable pub recognise : KeyboardKMode → ℕ → KeyboardKMode
unfolding set_rts tick
recognise k low = set_rts (tick (set_rts k false) low []).0 true

module _ (k : KeyboardKMode) (idle : IsIdle k) where
  -- The keyboard with RTS negated, and after `n` cycles of it.
  negated : ℕ → KeyboardKMode
  negated n = record k {
    rts_asserted = false;
    pending = [];
    tx_countdown = none;
    rts_low_cycles = n;
  }

  set_rts-negated : set_rts k false ≡ negated 0
  unfolding set_rts negated
  set_rts-negated =
      if_false (λ r. r ≡ negated 0) (false <=> k.rts_asserted) _ _
        (ap (λ b. false <=> b) idle.asserted)
        (if_false (λ r. r ≡ negated 0) (not k.attached) _ _ (ap not idle.attached) refl)

  tick-negated : (low : ℕ) → low ≤ u64_max → (tick (negated 0) low []).0 ≡ negated low
  unfolding negated
  tick-negated low h =
      ap (λ (r : KeyboardKMode × List ℕ). r.0)
        (tick-waited (negated 0) idle.quiet low [] idle.attached refl)
      ∙ ap negated (omega arith)

  asserted : ℕ → KeyboardKMode
  asserted n = record (negated n) { rts_asserted = true }

  set_rts-asserted : (n : ℕ) → set_rts (negated n) true ≡ rts_rise (asserted n)
  unfolding set_rts negated asserted
  set_rts-asserted n =
      if_false (λ r. r ≡ rts_rise (asserted n)) (not k.attached) _ _ (ap not idle.attached) refl

  recognise-asserted : (low : ℕ) → low ≤ u64_max → recognise k low ≡ rts_rise (asserted low)
  unfolding recognise
  recognise-asserted low h =
      ap (λ q. set_rts (tick q low []).0 true) set_rts-negated
      ∙ ap (λ q. set_rts q true) (tick-negated low h)
      ∙ set_rts-asserted low

  delay : ℕ
  delay = u64 (bit_cycles k + character_cycles k)

  recognised : ℕ → KeyboardKMode
  recognised low =
      queue_identification
        (record (asserted low) { power_on_countdown = none; power_on_id_pending = false }) delay

  long_low : (low : ℕ) → recognition_low_cycles k ≤ low → rts_rise (asserted low) ≡ recognised low
  unfolding rts_rise recognised delay asserted negated recognition_low_cycles character_cycles
      bit_cycles
  long_low low h =
      if_false (λ r. r ≡ recognised low) k.power_on_id_pending _ _ idle.no_id
        (if_true (λ r. r ≡ recognised low) (leb (recognition_low_cycles k) low) _ _ (ground arith)
          refl)

  short_low : (low : ℕ) → low < recognition_low_cycles k → rts_rise (asserted low) ≡ asserted low
  unfolding rts_rise asserted negated recognition_low_cycles
  short_low low h =
      if_false (λ r. r ≡ asserted low) k.power_on_id_pending _ _ idle.no_id
        (if_false (λ r. r ≡ asserted low) (leb (recognition_low_cycles k) low) _ _ (ground arith)
          refl)

  send-one :
      (ch n d : ℕ)
      → (send ch n (some d) (k_mode_id ∷ [])).sent ≡ (if leb d n then k_mode_id ∷ [] else [])
  unfolding send
  send-one ch n d = ground arith

  -- The two times, in whole cycles.
  low_time : k.clock_hz ≤ u64_max → recognition_low_cycles k ≡ (k.clock_hz + 999) / 1_000 * 10
  unfolding recognition_low_cycles
  low_time h = ground arith

  delay_time :
      k.clock_hz ≤ u64_max
      → u64 (bit_cycles k + character_cycles k) ≡ (k.clock_hz + 1_199) / 1_200 * 11
  unfolding bit_cycles character_cycles
  delay_time h = ground arith

  sent_after : ℕ → ℕ → ℕ → ℕ → List ℕ
  sent_after least delay low n = if leb least low && leb delay n then 0xcb ∷ [] else []

  sent_from_cycles :
      (low n : ℕ)
      → low ≤ u64_max
      → (tick (recognise k low) n []).1
        ≡ sent_after (recognition_low_cycles k) (u64 (bit_cycles k + character_cycles k)) low n
  unfolding recognised queue_identification asserted negated delay send sent_after
  sent_from_cycles low n m = elim (le_or_gt (recognition_low_cycles k) low) [
    | inl h ↦
        let q = recognised low in
        let d = u64 (bit_cycles k + character_cycles k) in
        ap (λ r. (tick r n []).1) (recognise-asserted low m ∙ long_low low h)
        ∙ ap (λ (r : KeyboardKMode × List ℕ). r.1) (tick-heard q refl n [] idle.attached refl)
        ∙ send-one (character_cycles q) n d
        ∙ ap (λ b. if b && leb d n then k_mode_id ∷ [] else [])
            (leb-true (recognition_low_cycles k) low h)
    | inr h ↦
        let d = u64 (bit_cycles k + character_cycles k) in
        ap (λ r. (tick r n []).1) (recognise-asserted low m ∙ short_low low h)
        ∙ ap (λ (r : KeyboardKMode × List ℕ). r.1)
            (tick-heard (asserted low) idle.quiet n [] idle.attached refl)
        ∙ ap (λ b. if b && leb d n then k_mode_id ∷ [] else [])
            (leb-false (recognition_low_cycles k) low h)
  ]

  -- The identification of an attached, addressed keyboard whose power-on identification is done and
  -- whose clock rate is a 64-bit number: if RTS is negated for `low` cycles and asserted for `n`, the
  -- characters sent are the single 0xcb when `low` is at least ten milliseconds, each rounded up to
  -- whole cycles, and `n` at least eleven bits at 1200 baud, each rounded up to whole cycles, and none
  -- otherwise.
  pub recognise-sent :
      (low n : ℕ)
      → low ≤ u64_max
      → k.clock_hz ≤ u64_max
      → (tick (recognise k low) n []).1 ≡ (
          if leb ((k.clock_hz + 999) / 1_000 * 10) low && leb ((k.clock_hz + 1_199) / 1_200 * 11) n
          then 0xcb ∷ []
          else [])
  unfolding sent_after
  recognise-sent low n m h =
      sent_from_cycles low n m ∙ ap₂ (λ x y. sent_after x y low n) (low_time h) (delay_time h)
