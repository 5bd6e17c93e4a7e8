-- ===== src/Periph/Serial.antt =====
-- The UART loses and invents no byte: what the guest writes leaves in order, and what a device
-- sends is read in order.
use edi_emulator.Prelude.{
  ℕ, zero, suc, ◌+◌, ◌/◌, ◌%◌, ◌^◌, ◌<◌, ◌≡◌, refl, sym, ap, ◌∙◌, true, ◌==◌, if◌then◌else◌,
  if_both, if_true, List, [], ◌∷◌, ◌++◌, take, drop, set_bit, u16,
}
use mathlib.Core.Path.{ap₂}
use mathlib.Core.List.{append-nil, append_assoc}
use edi_emulator.Prelude.Paced.{iterate}
use edi_emulator.Periph.{Peripherals}
use edi_emulator.Periph.Clock.{
  send_first, present_first, is_empty, timer_step, uart_step, transmit, receive, with_timer_accum,
  tick_uart, tick,
}
use edi_emulator.Periph.ClockLaws.{tick_timer-iterate, tick_uart-iterate_of}

-- The transmitter's two queues after `n` pacing intervals.
record IsSent (p : Peripherals) (n : ℕ) (q : Peripherals) : Type 0 where
  out : q.tx_out ≡ p.tx_out ++ take n p.tx_fifo
  left : q.tx_fifo ≡ drop n p.tx_fifo
  enabled : q.uart_tx_enabled ≡ true

send_first-out :
    (l : List ℕ) (p : Peripherals) → p.tx_fifo ≡ l → (send_first l p).tx_out ≡ p.tx_out ++ take 1 l
unfolding send_first
send_first-out [] p e = sym (append-nil p.tx_out)
send_first-out (b ∷ bs) p e = refl

send_first-left :
    (l : List ℕ) (p : Peripherals) → p.tx_fifo ≡ l → (send_first l p).tx_fifo ≡ drop 1 l
unfolding send_first
send_first-left [] p e = e
send_first-left (b ∷ bs) p e = refl

send_first-enabled :
    (l : List ℕ) (p : Peripherals) → (send_first l p).uart_tx_enabled ≡ p.uart_tx_enabled
unfolding send_first
send_first-enabled [] p = refl
send_first-enabled (b ∷ bs) p = refl

transmit-IsSent : (p : Peripherals) → p.uart_tx_enabled ≡ true → IsSent p 1 (transmit p)
unfolding transmit
transmit-IsSent p h =
    let r = record p { usr = set_bit p.usr 2; uart_tx_int = true } in
    let q = send_first p.tx_fifo r in
    let sent : IsSent p 1 q = record {
      out = send_first-out p.tx_fifo r refl;
      left = send_first-left p.tx_fifo r refl;
      enabled = send_first-enabled p.tx_fifo r ∙ h;
    } in
    if_true (IsSent p 1) p.uart_tx_enabled
      (if is_empty q.tx_fifo then record q { usr = set_bit q.usr 3 } else q) p h
      (if_both (IsSent p 1) (is_empty q.tx_fifo) (record q { usr = set_bit q.usr 3 }) q
        (record { out = sent.out; left = sent.left; enabled = sent.enabled }) sent)

present_first-tx :
    (l : List ℕ) (p : Peripherals)
    → ((present_first l p).tx_out ≡ p.tx_out)
      × ((present_first l p).tx_fifo ≡ p.tx_fifo)
      × ((present_first l p).uart_tx_enabled ≡ p.uart_tx_enabled)
unfolding present_first
present_first-tx [] p = (refl, refl, refl)
present_first-tx (b ∷ bs) p = (refl, refl, refl)

receive-IsSent : (p : Peripherals) (n : ℕ) (q : Peripherals) → IsSent p n q → IsSent p n (receive q)
unfolding receive
receive-IsSent p n q s =
    let keep = present_first-tx q.rx_queue q in
    if_both (IsSent p n) q.uart_rx_enabled (present_first q.rx_queue q) q
      (record { out = keep.0 ∙ s.out; left = keep.1 ∙ s.left; enabled = keep.2 ∙ s.enabled }) s

take-suc : (n : ℕ) (l : List ℕ) → take 1 l ++ take n (drop 1 l) ≡ take (suc n) l
take-suc n (x ∷ xs) = refl
take-suc zero [] = refl
take-suc (suc n) [] = refl

drop-suc : (n : ℕ) (l : List ℕ) → drop n (drop 1 l) ≡ drop (suc n) l
drop-suc n (x ∷ xs) = refl
drop-suc zero [] = refl
drop-suc (suc n) [] = refl

IsSent-suc : (p q r : Peripherals) (n : ℕ) → IsSent p 1 q → IsSent q n r → IsSent p (suc n) r
IsSent-suc p q r n s t = record {
  out =
      t.out
      ∙ (rw (s.out, s.left)
          (append_assoc p.tx_out (take 1 p.tx_fifo) (take n (drop 1 p.tx_fifo))
            ∙ ap (λ l. p.tx_out ++ l) (take-suc n p.tx_fifo)));
  left = t.left ∙ (rw s.left (drop-suc n p.tx_fifo));
  enabled = t.enabled;
}

iterate-IsSent :
    (n : ℕ) (p : Peripherals) → p.uart_tx_enabled ≡ true → IsSent p n (iterate n uart_step p)
unfolding iterate uart_step
iterate-IsSent zero p h = record { out = sym (append-nil p.tx_out); left = refl; enabled = h }
iterate-IsSent (suc n) p h =
    let one = receive-IsSent p 1 (transmit p) (transmit-IsSent p h) in
    IsSent-suc p (uart_step p) _ n one (iterate-IsSent n (uart_step p) one.enabled)

timer_step-tx :
    (p : Peripherals)
    → ((timer_step p).tx_out ≡ p.tx_out)
      × ((timer_step p).tx_fifo ≡ p.tx_fifo)
      × ((timer_step p).uart_tx_enabled ≡ p.uart_tx_enabled)
      × ((timer_step p).tx_accum ≡ p.tx_accum)
unfolding timer_step
timer_step-tx p =
    if_both
      (λ (q : Peripherals).
        (q.tx_out ≡ p.tx_out)
        × (q.tx_fifo ≡ p.tx_fifo)
        × (q.uart_tx_enabled ≡ p.uart_tx_enabled)
        × (q.tx_accum ≡ p.tx_accum))
      (u16 (p.timer0 + 1) == 0) _ _ (refl, refl, refl, refl) (refl, refl, refl, refl)

iterate_timer-tx :
    (n : ℕ) (p : Peripherals)
    → let q = iterate n timer_step p in
      (q.tx_out ≡ p.tx_out)
      × (q.tx_fifo ≡ p.tx_fifo)
      × (q.uart_tx_enabled ≡ p.uart_tx_enabled)
      × (q.tx_accum ≡ p.tx_accum)
unfolding iterate
iterate_timer-tx zero p = (refl, refl, refl, refl)
iterate_timer-tx (suc n) p =
    let s = timer_step-tx p in
    let r = iterate_timer-tx n (timer_step p) in (r.0 ∙ s.0, r.1 ∙ s.1, r.2 ∙ s.2, r.3 ∙ s.3)

-- With the transmitter enabled, a tick of `c` cycles moves exactly the first
-- `(tx_accum + c) / 1200` queued bytes, or all if there are fewer, to the output, in their order,
-- and leaves the rest queued (while the two 64-bit counters do not wrap).
pub tick-tx_out :
    (p : Peripherals) (c : ℕ)
    → p.uart_tx_enabled ≡ true
    → p.timer_accum + c < 2 ^ 64
    → p.tx_accum + c < 2 ^ 64
    → let n = (p.tx_accum + c) / 1200 in
      ((tick p c).tx_out ≡ p.tx_out ++ take n p.tx_fifo) × ((tick p c).tx_fifo ≡ drop n p.tx_fifo)
unfolding tick
tick-tx_out p c h k m =
    let n = (p.tx_accum + c) / 1200 in
    let q =
      with_timer_accum ((p.timer_accum + c) % 96)
        (iterate ((p.timer_accum + c) / 96) timer_step p) in
    let t = iterate_timer-tx ((p.timer_accum + c) / 96) p in
    let sent = iterate-IsSent n q (t.2 ∙ h) in
    let e =
      ap (λ s. tick_uart s c) (tick_timer-iterate p c k)
      ∙ tick_uart-iterate_of q c p.tx_accum t.3 m in
    (
      ap (λ s. s.tx_out) e ∙ sent.out ∙ ap₂ (λ o f. o ++ take n f) t.0 t.1,
      ap (λ s. s.tx_fifo) e ∙ sent.left ∙ ap (drop n) t.1,
    )
