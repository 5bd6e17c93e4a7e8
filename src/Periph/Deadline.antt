-- ===== src/Periph/Deadline.antt =====
-- `cycles_until_next_event` is exact: before it nothing that the guest can notice as an event
-- happens, and an idle UART leaves the timer's overflow to happen on it.
use edi_emulator.Prelude.{
  ℕ, zero, suc, ◌+◌, ◌-◌, ◌*◌, ◌/◌, ◌%◌, ◌^◌, ◌<◌, min, ◌≡◌, refl, ap, ◌∙◌, arith, true, false,
  set_bit, ◌⊎◌, inl, inr,
}
use mathlib.Core.Path.{ap₂}
use edi_emulator.Prelude.Paced.{iterate, iterate-add}
use edi_emulator.Periph.{Peripherals}
use edi_emulator.Periph.Valid.{IsValid}
use edi_emulator.Periph.Clock.{
  timer_step, uart_step, transmit, receive, with_timer_accum, with_tx_accum, tick_timer, tick_uart,
  tick, cycles_until_next_event, u64_max, uart_active,
}
use edi_emulator.Periph.ClockLaws.{tick_timer-iterate, tick_uart-iterate_of}

-- Timer steps without an overflow only count.
count_up :
    (n : ℕ) (p : Peripherals)
    → p.timer0 + n < 65536
    → iterate n timer_step p ≡ record p { timer0 = p.timer0 + n }
unfolding iterate timer_step
count_up zero p h = ground arith
count_up (suc n) p h =
    let next : (p.timer0 + 1) % 2 ^ 16 ≡ p.timer0 + 1 = omega arith in
    let step : timer_step p ≡ record p { timer0 = p.timer0 + 1 } = ground arith in
    let total : p.timer0 + 1 + n ≡ p.timer0 + suc n = omega arith in
    ap (iterate n timer_step) step
    ∙ count_up n (record p { timer0 = p.timer0 + 1 }) (omega arith)
    ∙ ap (λ t. record p { timer0 = t }) total

-- An idle UART does nothing.
idle-step : (p : Peripherals) → uart_active p ≡ false → uart_step p ≡ p
unfolding uart_step transmit receive uart_active
idle-step p h = ground arith

idle-iterate : (n : ℕ) (p : Peripherals) → uart_active p ≡ false → iterate n uart_step p ≡ p
unfolding iterate
idle-iterate zero p h = refl
idle-iterate (suc n) p h = ap (iterate n uart_step) (idle-step p h) ∙ idle-iterate n p h

-- The state that has only counted `c` cycles.
pub waited : Peripherals → ℕ → Peripherals
waited p c = record p {
  timer0 = p.timer0 + (p.timer_accum + c) / 96;
  timer_accum = (p.timer_accum + c) % 96;
  tx_accum = (p.tx_accum + c) % 1200;
}

module _ (p : Peripherals) (v : IsValid p) (c : ℕ) where
  timer_before :
      c < cycles_until_next_event p → (p.timer0 + (p.timer_accum + c) / 96 < 65536) × (c < 2 ^ 63)
  unfolding cycles_until_next_event
  timer_before h =
      let facts : (p.timer0 < 65536) × (p.timer_accum < 96) = (v.timer0_lt, v.timer_accum_lt) in
      ground arith

  uart_before :
      c < cycles_until_next_event p → (uart_active p ≡ false) ⊎ ((p.tx_accum + c) / 1200 ≡ 0)
  unfolding cycles_until_next_event
  uart_before h = let fact = v.tx_accum_lt in let fact' = v.timer_accum_lt in ground arith

  uart_quiet :
      (s : Peripherals)
      → s.tx_accum ≡ p.tx_accum
      → uart_active s ≡ uart_active p
      → c < cycles_until_next_event p
      → c < 2 ^ 63
      → tick_uart s c ≡ with_tx_accum ((p.tx_accum + c) % 1200) s
  unfolding iterate
  uart_quiet s e f h k =
      tick_uart-iterate_of s c p.tx_accum e (omega (arith, v.tx_accum_lt))
      ∙ ap (with_tx_accum ((p.tx_accum + c) % 1200)) (elim (uart_before h) [
        | inl idle ↦ idle-iterate ((p.tx_accum + c) / 1200) s (f ∙ idle)
        | inr none_due ↦ rw none_due
      ])

  -- Before the deadline a tick changes nothing but the three counters: no interrupt request, no
  -- status bit, no overflow and no byte of either queue.
  pub tick-waited : c < cycles_until_next_event p → tick p c ≡ waited p c
  unfolding tick waited uart_active
  tick-waited h =
      let before = timer_before h in
      let timer : tick_timer p c ≡ record p {
        timer0 = p.timer0 + (p.timer_accum + c) / 96;
        timer_accum = (p.timer_accum + c) % 96;
      } =
        tick_timer-iterate p c (omega (arith, v.timer_accum_lt, before.1))
        ∙ ap (with_timer_accum ((p.timer_accum + c) % 96))
            (count_up ((p.timer_accum + c) / 96) p before.0) in
      ap (λ s. tick_uart s c) timer ∙ uart_quiet _ refl refl h before.1

-- The timer's state after an overflow.
abbrev overflowed : Peripherals → Peripherals
overflowed p = record p {
  timer0 = p.reload;
  timer0_overflows = min (p.timer0_overflows + 1) u64_max;
  tsr = set_bit p.tsr 7;
  timer_int = true;
}

count_to_overflow :
    (n : ℕ) (p : Peripherals) → p.timer0 + n ≡ 65535 → iterate (n + 1) timer_step p ≡ overflowed p
unfolding iterate timer_step
count_to_overflow n p h =
    let full : record p { timer0 = p.timer0 + n } ≡ record p { timer0 = 65535 } =
      ap (λ t. record p { timer0 = t }) h in
    iterate-add n 1 timer_step p ∙ ap timer_step (count_up n p (omega arith) ∙ full)

module _ (p : Peripherals) (v : IsValid p) (idle : uart_active p ≡ false) where
  deadline_exact : p.timer_accum + cycles_until_next_event p ≡ (65535 - p.timer0 + 1) * 96
  unfolding cycles_until_next_event
  deadline_exact =
      let facts : (p.timer0 < 65536) × (p.timer_accum < 96) = (v.timer0_lt, v.timer_accum_lt) in
      ground arith

-- With an idle UART a tick by exactly the deadline ends on timer 0's overflow: the counter is
-- reloaded, the overflow is counted and flagged in TSR, the timer requests its interrupt, and
-- no cycle is left over.
pub tick-cycles_until_next_event :
    (p : Peripherals)
    → IsValid p
    → uart_active p ≡ false
    → tick p (cycles_until_next_event p) ≡ record p {
      timer0 = p.reload;
      timer0_overflows = min (p.timer0_overflows + 1) u64_max;
      tsr = set_bit p.tsr 7;
      timer_int = true;
      timer_accum = 0;
      tx_accum = (p.tx_accum + cycles_until_next_event p) % 1200;
    }
unfolding tick uart_active
tick-cycles_until_next_event p v idle =
    let c = cycles_until_next_event p in
    let e = deadline_exact p v idle in
    let n = 65535 - p.timer0 in
    let quot : (p.timer_accum + c) / 96 ≡ n + 1 = omega (arith, e) in
    let rem : (p.timer_accum + c) % 96 ≡ 0 = omega (arith, e) in
    let timer : tick_timer p c ≡ record (overflowed p) { timer_accum = 0 } =
      tick_timer-iterate p c (omega (arith, e))
      ∙ ap₂ (λ r q. with_timer_accum r (iterate q timer_step p)) rem quot
      ∙ ap (with_timer_accum 0) (count_to_overflow n p (omega (arith, v.timer0_lt))) in
    ap (λ s. tick_uart s c) timer
    ∙ tick_uart-iterate_of (record (overflowed p) { timer_accum = 0 }) c p.tx_accum refl
        (omega (arith, e, v.tx_accum_lt))
    ∙ ap (with_tx_accum ((p.tx_accum + c) % 1200)) (idle-iterate ((p.tx_accum + c) / 1200) _ idle)
