-- ===== src/Periph/ClockLaws.antt =====
-- What `tick` computes: each clocked part makes one step for every whole period, and a span of
-- cycles can be given in portions, as the machine's scheduler does.
use edi_emulator.Prelude.{ℕ, suc, ◌+◌, ◌/◌, ◌%◌, ◌^◌, ◌<◌, ◌≡◌, refl, ap, ◌∙◌, arith}
use edi_emulator.Prelude.Paced.{iterate, iterate_comm, IsPaced, paced-iterate}
use edi_emulator.Periph.{Peripherals}
use edi_emulator.Periph.Clock.{
  timer_step, uart_step, transmit, receive, timer_count, uart_count, with_timer_accum,
  with_tx_accum, tick_timer, tick_uart,
}

pub timer-IsPaced : IsPaced timer_count with_timer_accum timer_step
unfolding timer_step
timer-IsPaced = record {
  read = λ n p. refl;
  same = λ p. refl;
  last = λ m n p. refl;
  kept = λ p. ground arith;
  comm = λ n p. ground arith;
}

transmit-kept : (p : Peripherals) → (transmit p).tx_accum ≡ p.tx_accum
unfolding transmit
transmit-kept p = ground arith

transmit_comm :
    (n : ℕ) (p : Peripherals) → transmit (with_tx_accum n p) ≡ with_tx_accum n (transmit p)
unfolding transmit
transmit_comm n p = ground arith

receive-kept : (p : Peripherals) → (receive p).tx_accum ≡ p.tx_accum
unfolding receive
receive-kept p = ground arith

receive_comm : (n : ℕ) (p : Peripherals) → receive (with_tx_accum n p) ≡ with_tx_accum n (receive p)
unfolding receive
receive_comm n p = ground arith

pub uart-IsPaced : IsPaced uart_count with_tx_accum uart_step
unfolding uart_step
uart-IsPaced = record {
  read = λ n p. refl;
  same = λ p. refl;
  last = λ m n p. refl;
  kept = λ p. receive-kept (transmit p) ∙ transmit-kept p;
  comm = λ n p. ap receive (transmit_comm n p) ∙ receive_comm n (transmit p);
}

-- The closed forms of the two loops, while the 64-bit counters do not wrap.
pub tick_timer-iterate :
    (p : Peripherals) (c : ℕ)
    → p.timer_accum + c < 2 ^ 64
    → tick_timer p c
      ≡ with_timer_accum
          ((p.timer_accum + c) % 96)
          (iterate ((p.timer_accum + c) / 96) timer_step p)
unfolding tick_timer
tick_timer-iterate p c h =
    let no_wrap : (p.timer_accum + c) % 2 ^ 64 ≡ p.timer_accum + c = omega arith in
    rw no_wrap (
      paced-iterate timer-IsPaced 96 (suc ((p.timer_accum + c) / 96)) ((p.timer_accum + c) / 96)
        ((p.timer_accum + c) % 96) (with_timer_accum (p.timer_accum + c) p) (omega arith)
        (omega arith) (omega arith)
      ∙ ap (with_timer_accum ((p.timer_accum + c) % 96)) (
          iterate_comm ((p.timer_accum + c) / 96) timer_step (with_timer_accum (p.timer_accum + c))
            (timer-IsPaced.comm (p.timer_accum + c)) p))

pub tick_uart-iterate :
    (p : Peripherals) (c : ℕ)
    → p.tx_accum + c < 2 ^ 64
    → tick_uart p c
      ≡ with_tx_accum ((p.tx_accum + c) % 1200) (iterate ((p.tx_accum + c) / 1200) uart_step p)
unfolding tick_uart
tick_uart-iterate p c h =
    let no_wrap : (p.tx_accum + c) % 2 ^ 64 ≡ p.tx_accum + c = omega arith in
    rw no_wrap (
      paced-iterate uart-IsPaced 1200 (suc ((p.tx_accum + c) / 1200)) ((p.tx_accum + c) / 1200)
        ((p.tx_accum + c) % 1200) (with_tx_accum (p.tx_accum + c) p) (omega arith) (omega arith)
        (omega arith)
      ∙ ap (with_tx_accum ((p.tx_accum + c) % 1200)) (
          iterate_comm ((p.tx_accum + c) / 1200) uart_step (with_tx_accum (p.tx_accum + c))
            (uart-IsPaced.comm (p.tx_accum + c)) p))

-- The timer and the UART touch disjoint fields.
transmit-timer_step : (p : Peripherals) → transmit (timer_step p) ≡ timer_step (transmit p)
unfolding transmit timer_step
transmit-timer_step p = ground arith

receive-timer_step : (p : Peripherals) → receive (timer_step p) ≡ timer_step (receive p)
unfolding receive timer_step
receive-timer_step p = ground arith

pub uart_step-timer_step : (p : Peripherals) → uart_step (timer_step p) ≡ timer_step (uart_step p)
unfolding uart_step
uart_step-timer_step p = ap receive (transmit-timer_step p) ∙ receive-timer_step (transmit p)

transmit-with_timer_accum :
    (n : ℕ) (p : Peripherals) → transmit (with_timer_accum n p) ≡ with_timer_accum n (transmit p)
unfolding transmit
transmit-with_timer_accum n p = ground arith

receive-with_timer_accum :
    (n : ℕ) (p : Peripherals) → receive (with_timer_accum n p) ≡ with_timer_accum n (receive p)
unfolding receive
receive-with_timer_accum n p = ground arith

pub uart_step-with_timer_accum :
    (n : ℕ) (p : Peripherals) → uart_step (with_timer_accum n p) ≡ with_timer_accum n (uart_step p)
unfolding uart_step
uart_step-with_timer_accum n p =
    ap receive (transmit-with_timer_accum n p) ∙ receive-with_timer_accum n (transmit p)

pub timer_step-with_tx_accum :
    (n : ℕ) (p : Peripherals) → timer_step (with_tx_accum n p) ≡ with_tx_accum n (timer_step p)
unfolding timer_step
timer_step-with_tx_accum n p = ground arith

pub timer_step-tx_accum : (p : Peripherals) → (timer_step p).tx_accum ≡ p.tx_accum
unfolding timer_step
timer_step-tx_accum p = ground arith

pub uart_step-timer_accum : (p : Peripherals) → (uart_step p).timer_accum ≡ p.timer_accum
unfolding uart_step transmit receive
uart_step-timer_accum p = ground arith

-- The same, for a state whose counter is known by an equation.
pub tick_timer-iterate_of :
    (s : Peripherals) (c n : ℕ)
    → s.timer_accum ≡ n
    → n + c < 2 ^ 64
    → tick_timer s c ≡ with_timer_accum ((n + c) % 96) (iterate ((n + c) / 96) timer_step s)
tick_timer-iterate_of s c n e h = rw (← e) (tick_timer-iterate s c (rw e h))

pub tick_uart-iterate_of :
    (s : Peripherals) (c n : ℕ)
    → s.tx_accum ≡ n
    → n + c < 2 ^ 64
    → tick_uart s c ≡ with_tx_accum ((n + c) % 1200) (iterate ((n + c) / 1200) uart_step s)
tick_uart-iterate_of s c n e h = rw (← e) (tick_uart-iterate s c (rw e h))
