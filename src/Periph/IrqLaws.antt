-- ===== src/Periph/IrqLaws.antt =====
-- What the acknowledge cycle owes to the CPU: the vector of the source that asked, and progress.
use edi_emulator.Prelude.{
  ℕ, ◌+◌, ◌≤◌, ◌<◌, ◌≡◌, refl, arith, Bool, true, false, ◌==◌, ◌&&◌, if◌then◌else◌, has_bit,
  clear_bit, field, bit_of, ◌≢◌, Bool-cases, inl, inr, ◌⊎◌,
}
use edi_emulator.Periph.{Peripherals}
use edi_emulator.Periph.Dma.{dma_interrupt_level}
use edi_emulator.Periph.IrqLevels.{LatchedAt, pending-LatchedAt}
use edi_emulator.Periph.Irq.{
  external_level, pending_ipl, external_pin, dma_requests, clear_latched, iack,
}

-- How many latched requests there are, of INT1, INT2, the timer and the UART's two.
unfoldable pub latched : Peripherals → ℕ
latched p =
    bit_of (has_bit p.lir 7)
    + bit_of (has_bit p.lir 3)
    + bit_of p.timer_int
    + bit_of p.uart_rx_int
    + bit_of p.uart_tx_int

lir_bits :
    (x : ℕ)
    → (has_bit (clear_bit x 7) 7 ≡ false)
      × (has_bit (clear_bit x 7) 3 ≡ has_bit x 3)
      × (has_bit (clear_bit x 3) 3 ≡ false)
      × (has_bit (clear_bit x 3) 7 ≡ has_bit x 7)
lir_bits x = (ground arith, ground arith, ground arith, ground arith)

-- The first of five tests that holds selects its branch.
first_branch {ℓ} :
    {A : Type ℓ} (P : A → Type 0) (t1 t2 t3 t4 t5 : Bool) (x1 x2 x3 x4 x5 y : A)
    → (t1 ≡ true → P x1)
    → (t2 ≡ true → P x2)
    → (t3 ≡ true → P x3)
    → (t4 ≡ true → P x4)
    → (t5 ≡ true → P x5)
    → (t1 ≡ true) ⊎ ((t2 ≡ true) ⊎ ((t3 ≡ true) ⊎ ((t4 ≡ true) ⊎ (t5 ≡ true))))
    → P (
        if t1
        then x1
        else if t2
        then x2
        else if t3
        then x3
        else if t4
        then x4
        else if t5
        then x5
        else y)
first_branch P true t2 t3 t4 t5 x1 x2 x3 x4 x5 y p1 p2 p3 p4 p5 h = p1 refl
first_branch P false true t3 t4 t5 x1 x2 x3 x4 x5 y p1 p2 p3 p4 p5 h = p2 refl
first_branch P false false true t4 t5 x1 x2 x3 x4 x5 y p1 p2 p3 p4 p5 h = p3 refl
first_branch P false false false true t5 x1 x2 x3 x4 x5 y p1 p2 p3 p4 p5 h = p4 refl
first_branch P false false false false true x1 x2 x3 x4 x5 y p1 p2 p3 p4 p5 h = p5 refl
first_branch P false false false false false x1 x2 x3 x4 x5 y p1 p2 p3 p4 p5 h =
    absurd (ground arith)

and_left : (a b : Bool) → (a && b) ≡ true → a ≡ true
and_left true b h = refl
and_left false b h = h

-- `p` with one latched request gone, one whose own level is `level`.
pub data Acknowledged (p : Peripherals) (level : ℕ) : Peripherals → Type 0 where
  int1 :
      has_bit p.lir 7 ≡ true
      → field p.lir 4 3 ≡ level
      → Acknowledged p level (record p { lir = clear_bit p.lir 7 })
  int2 :
      has_bit p.lir 3 ≡ true
      → field p.lir 0 3 ≡ level
      → Acknowledged p level (record p { lir = clear_bit p.lir 3 })
  timer :
      p.timer_int ≡ true
      → field p.picr1 0 3 ≡ level
      → Acknowledged p level (record p { timer_int = false })
  uart_rx :
      p.uart_rx_int ≡ true
      → field p.picr2 4 3 ≡ level
      → Acknowledged p level (record p { uart_rx_int = false })
  uart_tx :
      p.uart_tx_int ≡ true
      → field p.picr2 0 3 ≡ level
      → Acknowledged p level (record p { uart_tx_int = false })

-- One latched request fewer.
abbrev Fewer : Peripherals → Peripherals → Type 0
Fewer p q = latched q + 1 ≡ latched p

same_level : (a : Bool) (level f : ℕ) → (a && level == f) ≡ true → f ≡ level
same_level true level f h = ground arith
same_level false level f h = absurd (ground arith)

module _ (p : Peripherals) where
  Fewer-int1 : has_bit p.lir 7 ≡ true → Fewer p (record p { lir = clear_bit p.lir 7 })
  unfolding latched
  Fewer-int1 h = rw (h, (lir_bits p.lir).0, (lir_bits p.lir).1) (omega arith)

  Fewer-int2 : has_bit p.lir 3 ≡ true → Fewer p (record p { lir = clear_bit p.lir 3 })
  unfolding latched
  Fewer-int2 h = rw (h, (lir_bits p.lir).2, (lir_bits p.lir).3) (omega arith)

  Fewer-timer : p.timer_int ≡ true → Fewer p (record p { timer_int = false })
  unfolding latched
  Fewer-timer h = rw h (omega arith)

  Fewer-rx : p.uart_rx_int ≡ true → Fewer p (record p { uart_rx_int = false })
  unfolding latched
  Fewer-rx h = rw h (omega arith)

  Fewer-tx : p.uart_tx_int ≡ true → Fewer p (record p { uart_tx_int = false })
  unfolding latched
  Fewer-tx h = rw h (omega arith)

  Acknowledged-Fewer : (level : ℕ) (q : Peripherals) → Acknowledged p level q → Fewer p q
  Acknowledged-Fewer level _ (int1 h e) = Fewer-int1 h
  Acknowledged-Fewer level _ (int2 h e) = Fewer-int2 h
  Acknowledged-Fewer level _ (timer h e) = Fewer-timer h
  Acknowledged-Fewer level _ (uart_rx h e) = Fewer-rx h
  Acknowledged-Fewer level _ (uart_tx h e) = Fewer-tx h

  clear_latched-Acknowledged :
      (level : ℕ) → LatchedAt p level → Acknowledged p level (clear_latched p level)
  unfolding clear_latched
  clear_latched-Acknowledged level h =
      first_branch (Acknowledged p level) (has_bit p.lir 7 && level == field p.lir 4 3)
        (has_bit p.lir 3 && level == field p.lir 0 3) (p.timer_int && level == field p.picr1 0 3)
        (p.uart_rx_int && level == field p.picr2 4 3) (p.uart_tx_int && level == field p.picr2 0 3)
        _ _ _ _ _ p (λ e. int1 (and_left _ _ e) (same_level _ level _ e))
        (λ e. int2 (and_left _ _ e) (same_level _ level _ e))
        (λ e. timer (and_left _ _ e) (same_level _ level _ e))
        (λ e. uart_rx (and_left _ _ e) (same_level _ level _ e))
        (λ e. uart_tx (and_left _ _ e) (same_level _ level _ e)) h

external_pin-true :
    (p : Peripherals) (level : ℕ)
    → external_level p ≡ level
    → 0 < level
    → external_pin p level ≡ true
unfolding external_level external_pin
external_pin-true p level h k = ground arith

external_pin-false :
    (p : Peripherals) (level : ℕ)
    → external_level p ≤ level
    → external_level p ≢ level
    → external_pin p level ≡ false
unfolding external_level external_pin
external_pin-false p level h k = ground arith

external_level-le_pending : (p : Peripherals) → external_level p ≤ pending_ipl p
unfolding pending_ipl
external_level-le_pending p = omega arith

-- A pin or a DMA channel asks for exactly `level`.
abbrev pub Autovectored : Peripherals → ℕ → Type 0
Autovectored p level =
    (external_level p ≡ level)
    ⊎ ((dma_interrupt_level p 0x00 ≡ level) ⊎ (dma_interrupt_level p 0x40 ≡ level))

dma_requests-true :
    (p : Peripherals) (level : ℕ)
    → (dma_interrupt_level p 0x00 ≡ level) ⊎ (dma_interrupt_level p 0x40 ≡ level)
    → 0 < level
    → dma_requests p level ≡ true
unfolding dma_requests
dma_requests-true p level h k = ground arith

dma_requests-false :
    (p : Peripherals) (level : ℕ)
    → dma_interrupt_level p 0x00 ≢ level
    → dma_interrupt_level p 0x40 ≢ level
    → dma_requests p level ≡ false
unfolding dma_requests
dma_requests-false p level h k = ground arith

-- The acknowledge of a pending level. If a pin or a DMA channel asks for it, the vector is the
-- autovector `24 + level` and nothing is cleared. If none does, the vector is `0x38 + level` and the
-- state changes in one place: one latched request (INT1, INT2, the timer or one of the UART's two)
-- that asked for exactly this level is cleared, and one request fewer is latched.
pub iack-pending_ipl :
    (p : Peripherals)
    → 0 < pending_ipl p
    → (Autovectored p (pending_ipl p) → iack p (pending_ipl p) ≡ (p, 24 + pending_ipl p))
      × (¬ Autovectored p (pending_ipl p)
          → ((iack p (pending_ipl p)).1 ≡ 0x38 + pending_ipl p)
            × Acknowledged p (pending_ipl p) (iack p (pending_ipl p)).0
            × (latched (iack p (pending_ipl p)).0 + 1 ≡ latched p))
unfolding iack
iack-pending_ipl p h = (
  λ a. elim a [
    | inl e ↦ rw (external_pin-true p (pending_ipl p) e h)
    | inr d ↦ elim (Bool-cases (external_pin p (pending_ipl p))) [
      | inl e ↦ rw e
      | inr e ↦ rw (e, dma_requests-true p (pending_ipl p) d h)
    ]
  ],
  λ n.
      let pin =
        external_pin-false p (pending_ipl p) (external_level-le_pending p) (λ e. n (inl e)) in
      let dma =
        dma_requests-false p (pending_ipl p) (λ e. n (inr (inl e))) (λ e. n (inr (inr e))) in
      let at =
        pending-LatchedAt p (pending_ipl p) refl h (λ e. n (inl e)) (λ e. n (inr (inl e)))
          (λ e. n (inr (inr e))) in
      let gone = clear_latched-Acknowledged p (pending_ipl p) at in
      (
        rw (pin, dma),
        rw (pin, dma) gone,
        rw (pin, dma) (Acknowledged-Fewer p (pending_ipl p) (clear_latched p (pending_ipl p)) gone),
      ),
)
