-- ===== src/Periph/Portions.antt =====
-- A span of CPU cycles may be given to the peripherals in portions: the machine cuts each
-- instruction at the next event (`cycles_until_next_event`), and this shows that the cut is free.
use edi_emulator.Prelude.{ℕ, ◌+◌, ◌/◌, ◌%◌, ◌^◌, ◌<◌, ◌≡◌, refl, sym, ap, ◌∙◌, arith}
use edi_emulator.Prelude.Paced.{iterate, iterate_comm, iterate_inv, paced-twice}
use edi_emulator.Periph.{Peripherals}
use edi_emulator.Periph.Clock.{
  timer_step, uart_step, with_timer_accum, with_tx_accum, tick_timer, tick_uart, tick,
}
use edi_emulator.Periph.ClockLaws.{
  timer-IsPaced, uart-IsPaced, tick_timer-iterate, tick_uart-iterate, tick_timer-iterate_of,
  tick_uart-iterate_of, uart_step-timer_step, uart_step-with_timer_accum, timer_step-with_tx_accum,
  timer_step-tx_accum, uart_step-timer_accum,
}

-- One closed form for both parts.
timer_span : ℕ → ℕ → Peripherals → Peripherals
timer_span q r p = with_timer_accum r (iterate q timer_step p)

uart_span : ℕ → ℕ → Peripherals → Peripherals
uart_span q r p = with_tx_accum r (iterate q uart_step p)

iterate_uart-timer_accum :
    (n : ℕ) (p : Peripherals) → (iterate n uart_step p).timer_accum ≡ p.timer_accum
iterate_uart-timer_accum n p =
    iterate_inv (λ s. s.timer_accum ≡ p.timer_accum) n uart_step
      (λ s h. uart_step-timer_accum s ∙ h) p refl

iterate_timer-tx_accum : (n : ℕ) (p : Peripherals) → (iterate n timer_step p).tx_accum ≡ p.tx_accum
iterate_timer-tx_accum n p =
    iterate_inv (λ s. s.tx_accum ≡ p.tx_accum) n timer_step (λ s h. timer_step-tx_accum s ∙ h) p
      refl

uart_step-timer_span :
    (q r : ℕ) (p : Peripherals) → uart_step (timer_span q r p) ≡ timer_span q r (uart_step p)
unfolding timer_span
uart_step-timer_span q r p =
    uart_step-with_timer_accum r (iterate q timer_step p)
    ∙ ap (with_timer_accum r)
        (sym (iterate_comm q timer_step uart_step (λ s. sym (uart_step-timer_step s)) p))

timer_span-with_tx_accum :
    (q r n : ℕ) (p : Peripherals)
    → timer_span q r (with_tx_accum n p) ≡ with_tx_accum n (timer_span q r p)
unfolding timer_span
timer_span-with_tx_accum q r n p =
    ap (with_timer_accum r)
      (iterate_comm q timer_step (with_tx_accum n) (timer_step-with_tx_accum n) p)

uart_span-timer_span :
    (q r q' r' : ℕ) (p : Peripherals)
    → timer_span q r (uart_span q' r' p) ≡ uart_span q' r' (timer_span q r p)
unfolding uart_span
uart_span-timer_span q r q' r' p =
    timer_span-with_tx_accum q r r' (iterate q' uart_step p)
    ∙ ap (with_tx_accum r')
        (sym (iterate_comm q' uart_step (timer_span q r) (uart_step-timer_span q r) p))

uart_span-timer_accum : (q r : ℕ) (p : Peripherals) → (uart_span q r p).timer_accum ≡ p.timer_accum
unfolding uart_span
uart_span-timer_accum q r p = iterate_uart-timer_accum q p

timer_span-tx_accum : (q r : ℕ) (p : Peripherals) → (timer_span q r p).tx_accum ≡ p.tx_accum
unfolding timer_span
timer_span-tx_accum q r p = iterate_timer-tx_accum q p

tick_timer_span :
    (s : Peripherals) (c n : ℕ)
    → s.timer_accum ≡ n
    → n + c < 2 ^ 64
    → tick_timer s c ≡ timer_span ((n + c) / 96) ((n + c) % 96) s
unfolding timer_span
tick_timer_span s c n e h = tick_timer-iterate_of s c n e h

tick_uart_span :
    (s : Peripherals) (c n : ℕ)
    → s.tx_accum ≡ n
    → n + c < 2 ^ 64
    → tick_uart s c ≡ uart_span ((n + c) / 1200) ((n + c) % 1200) s
unfolding uart_span
tick_uart_span s c n e h = tick_uart-iterate_of s c n e h

tick_timer_fits :
    (p : Peripherals) (a b : ℕ)
    → p.timer_accum + a + b < 2 ^ 64
    → (tick_timer p a).timer_accum + b < 2 ^ 64
tick_timer_fits p a b h = rw (tick_timer-iterate p a (omega arith)) (omega arith)

module _ (p : Peripherals) (a b : ℕ) where
  timer_twice :
      p.timer_accum + a + b < 2 ^ 64 → tick_timer (tick_timer p a) b ≡ tick_timer p (a + b)
  timer_twice h =
      let n = p.timer_accum in
      let r = (n + a) % 96 in
      let quot : (n + a) / 96 + (r + b) / 96 ≡ (n + (a + b)) / 96 = omega arith in
      let rem : (r + b) % 96 ≡ (n + (a + b)) % 96 = omega arith in
      rw (tick_timer-iterate p a (omega arith)) (
        tick_timer-iterate (with_timer_accum r (iterate ((n + a) / 96) timer_step p)) b
          (omega arith)
        ∙ paced-twice timer-IsPaced ((n + a) / 96) ((r + b) / 96) r ((r + b) % 96) p
        ∙ (rw (quot, rem) (sym (tick_timer-iterate p (a + b) (omega arith)))))

  uart_twice : p.tx_accum + a + b < 2 ^ 64 → tick_uart (tick_uart p a) b ≡ tick_uart p (a + b)
  uart_twice h =
      let n = p.tx_accum in
      let r = (n + a) % 1200 in
      let quot : (n + a) / 1200 + (r + b) / 1200 ≡ (n + (a + b)) / 1200 = omega arith in
      let rem : (r + b) % 1200 ≡ (n + (a + b)) % 1200 = omega arith in
      rw (tick_uart-iterate p a (omega arith)) (
        tick_uart-iterate (with_tx_accum r (iterate ((n + a) / 1200) uart_step p)) b (omega arith)
        ∙ paced-twice uart-IsPaced ((n + a) / 1200) ((r + b) / 1200) r ((r + b) % 1200) p
        ∙ (rw (quot, rem) (sym (tick_uart-iterate p (a + b) (omega arith)))))

  timer_after_uart :
      p.timer_accum + b < 2 ^ 64
      → p.tx_accum + a < 2 ^ 64
      → tick_timer (tick_uart p a) b ≡ tick_uart (tick_timer p b) a
  timer_after_uart h k =
      let q = (p.tx_accum + a) / 1200 in
      let r = (p.tx_accum + a) % 1200 in
      let q' = (p.timer_accum + b) / 96 in
      let r' = (p.timer_accum + b) % 96 in
      ap (λ s. tick_timer s b) (tick_uart_span p a p.tx_accum refl k)
      ∙ tick_timer_span (uart_span q r p) b p.timer_accum (uart_span-timer_accum q r p) h
      ∙ uart_span-timer_span q' r' q r p
      ∙ sym (tick_uart_span (timer_span q' r' p) a p.tx_accum (timer_span-tx_accum q' r' p) k)
      ∙ sym (ap (λ s. tick_uart s a) (tick_timer_span p b p.timer_accum refl h))

-- Ticking twice is ticking once by the sum, on the whole state: timer, interrupt requests, UART
-- queues and transmitted bytes, as long as the two 64-bit cycle counters do not wrap.
pub tick-tick :
    (p : Peripherals) (a b : ℕ)
    → p.timer_accum + a + b < 2 ^ 64
    → p.tx_accum + a + b < 2 ^ 64
    → tick (tick p a) b ≡ tick p (a + b)
unfolding tick
tick-tick p a b h k =
    let same : (tick_timer p a).tx_accum ≡ p.tx_accum =
      ap (λ s. s.tx_accum) (tick_timer_span p a p.timer_accum refl (omega arith))
      ∙ timer_span-tx_accum _ _ p in
    ap (λ s. tick_uart s b)
      (timer_after_uart (tick_timer p a) a b (tick_timer_fits p a b h) (rw same (omega arith)))
    ∙ ap (λ s. tick_uart (tick_uart s a) b) (timer_twice p a b h)
    ∙ uart_twice (tick_timer p (a + b)) a b (
        rw
          (ap (λ s. s.tx_accum) (tick_timer_span p (a + b) p.timer_accum refl (omega arith))
            ∙ timer_span-tx_accum _ _ p)
          k)
