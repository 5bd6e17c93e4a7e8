-- ===== src/Periph/IrqLevels.antt =====
-- crates/cdi-scc68070/src/periph.rs: `pending_ipl`, the level that the sources ask for together.
use edi_emulator.Prelude.{
  ℕ, ◌≤◌, ◌<◌, max, ◌≡◌, arith, Bool, true, false, ◌==◌, ◌&&◌, if◌then◌else◌, has_bit, field, ◌≢◌,
  inl, inr, ◌⊎◌,
}
use edi_emulator.Periph.{Peripherals}
use edi_emulator.Periph.Dma.{dma_interrupt_level}
use edi_emulator.Periph.Irq.{
  external_level, int1_level, int2_level, timer_level, uart_rx_level, uart_tx_level, pending_ipl,
}

dma_level-le : (p : Peripherals) (base : ℕ) → dma_interrupt_level p base ≤ 7
unfolding dma_interrupt_level
dma_level-le p base = ground arith

latched_level-le : (b : Bool) (x k : ℕ) → (if b then field x k 3 else 0) ≤ 7
latched_level-le true x k = omega arith
latched_level-le false x k = omega arith

external_level-le : (p : Peripherals) → external_level p ≤ 7
unfolding external_level
external_level-le p = ground arith

-- The level that the CPU sees is a 3-bit number.
pub pending_ipl-le : (p : Peripherals) → pending_ipl p ≤ 7
unfolding pending_ipl int1_level int2_level timer_level uart_rx_level uart_tx_level
pending_ipl-le p = omega (
  arith,
  external_level-le p,
  latched_level-le (has_bit p.lir 7) p.lir 4,
  latched_level-le (has_bit p.lir 3) p.lir 0,
  latched_level-le p.timer_int p.picr1 0,
  latched_level-le p.uart_rx_int p.picr2 4,
  latched_level-le p.uart_tx_int p.picr2 0,
  dma_level-le p 0x00,
  dma_level-le p 0x40,
)

-- Some latched source requests exactly `level`, in the order of the acknowledge chain.
abbrev pub LatchedAt : Peripherals → ℕ → Type 0
LatchedAt p level =
    ((has_bit p.lir 7 && level == field p.lir 4 3) ≡ true)
    ⊎ (((has_bit p.lir 3 && level == field p.lir 0 3) ≡ true)
        ⊎ (((p.timer_int && level == field p.picr1 0 3) ≡ true)
            ⊎ (((p.uart_rx_int && level == field p.picr2 4 3) ≡ true)
                ⊎ ((p.uart_tx_int && level == field p.picr2 0 3) ≡ true))))

max_cases : (a b n : ℕ) → max a b ≡ n → (a ≡ n) ⊎ (b ≡ n)
max_cases a b n h = omega arith

requested : (b : Bool) (f n : ℕ) → (if b then f else 0) ≡ n → 0 < n → (b && n == f) ≡ true
requested true f n h k = ground arith
requested false f n h k = absurd (omega arith)

-- A pending level that neither a pin nor a DMA channel asks for is a latched source's.
pub pending-LatchedAt :
    (p : Peripherals) (level : ℕ)
    → pending_ipl p ≡ level
    → 0 < level
    → external_level p ≢ level
    → dma_interrupt_level p 0x00 ≢ level
    → dma_interrupt_level p 0x40 ≢ level
    → LatchedAt p level
unfolding pending_ipl int1_level int2_level timer_level uart_rx_level uart_tx_level
pending-LatchedAt p n h k e d0 d1 = elim (max_cases _ (dma_interrupt_level p 0x40) n h) [
  | inr q ↦ absurd (d1 q)
  | inl h1 ↦ elim (max_cases _ (dma_interrupt_level p 0x00) n h1) [
    | inr q ↦ absurd (d0 q)
    | inl h2 ↦ elim (max_cases _ _ n h2) [
      | inr q ↦ inr (inr (inr (inr (requested _ _ n q k))))
      | inl h3 ↦ elim (max_cases _ _ n h3) [
        | inr q ↦ inr (inr (inr (inl (requested _ _ n q k))))
        | inl h4 ↦ elim (max_cases _ _ n h4) [
          | inr q ↦ inr (inr (inl (requested _ _ n q k)))
          | inl h5 ↦ elim (max_cases _ _ n h5) [
            | inr q ↦ inr (inl (requested _ _ n q k))
            | inl h6 ↦ elim (max_cases _ _ n h6) [
              | inr q ↦ inl (requested _ _ n q k)
              | inl q ↦ absurd (e q)
            ]
          ]
        ]
      ]
    ]
  ]
]
