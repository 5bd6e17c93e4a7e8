-- ===== src/Keyboard/Line.antt =====
-- crates/cdi-core/src/keyboard.rs: `tick` and `cycles_until_next_event`, and what the serial line
-- owes its scheduler: time may be cut anywhere, and nothing is sent before the announced cycle.
use edi_emulator.Prelude.{
  ℕ, ◌+◌, ◌-◌, ◌<◌, ◌≤◌, min, max, ◌≡◌, refl, sym, ap, ◌∙◌, arith, true, false, not, ltb, leb,
  if◌then◌else◌, List, [], ◌∷◌, ◌++◌, Option, none, some, inl, inr, Bool-cases, le_or_gt, if_true,
  if_false,
}
use mathlib.Core.List.{append_assoc}
use edi_emulator.Keyboard.{KeyboardKMode, bit_cycles, character_cycles, k_mode_id, u64_max, or_else}

-- `pending.front().map(|_| character_cycles())`
abbrev pub next_countdown : ℕ → List ℕ → Option ℕ
next_countdown ch [] = none
next_countdown ch (b ∷ bs) = some ch

-- The transmit loop of `tick`, on (countdown, pending, characters sent). A round takes a pending
-- character, or finds none and ends the loop.
pub record Wire : Type 0 where
  pub countdown : Option ℕ
  pub queue : List ℕ
  pub sent : List ℕ

unfoldable pub send : ℕ → ℕ → Option ℕ → List ℕ → Wire
send ch remaining none q = record { countdown = none; queue = q; sent = [] }
send ch remaining (some c) [] = record {
  countdown = if ltb remaining c then some (c - remaining) else none;
  queue = [];
  sent = [];
}
send ch remaining (some c) (b ∷ bs) =
    let rest = send ch (remaining - c) (next_countdown ch bs) bs in
    if ltb remaining c
    then record { countdown = some (c - remaining); queue = b ∷ bs; sent = [] }
    else record rest { sent = b ∷ rest.sent }

-- The power-on countdown of `tick`.
unfoldable pub power_on : Option ℕ → ℕ → KeyboardKMode → List ℕ → KeyboardKMode × List ℕ
power_on none cycles k out = (k, out)
power_on (some countdown) cycles k out =
    if leb countdown cycles
    then if k.rts_asserted
      then (record k { power_on_countdown = none }, out ++ k_mode_id ∷ [])
      else (record k { power_on_countdown = none; power_on_id_pending = true }, out)
    else (record k { power_on_countdown = some (countdown - cycles) }, out)

unfoldable pub tick_line : KeyboardKMode → ℕ → List ℕ → KeyboardKMode × List ℕ
unfolding send character_cycles
tick_line k cycles out =
    let w = send (character_cycles k) cycles k.tx_countdown k.pending in
    if not k.rts_asserted
    then (record k { rts_low_cycles = min (k.rts_low_cycles + cycles) u64_max }, out)
    else (record k { tx_countdown = w.countdown; pending = w.queue }, out ++ w.sent)

unfoldable pub tick : KeyboardKMode → ℕ → List ℕ → KeyboardKMode × List ℕ
unfolding power_on tick_line
tick k cycles out =
    let r = power_on k.power_on_countdown cycles k out in
    if not k.attached then (k, out) else tick_line r.0 cycles r.1

unfoldable pub cycles_until_next_event : KeyboardKMode → ℕ
cycles_until_next_event k =
    let power_on = or_else k.power_on_countdown u64_max in
    if not k.attached
    then u64_max
    else if k.rts_asserted
    then max (min (or_else k.tx_countdown u64_max) power_on) 1
    else max power_on 1

abbrev pub next : Wire → Wire → Wire
next w v = record v { sent = w.sent ++ v.sent }

early : List ℕ → ℕ → Wire
early q c = record { countdown = some c; queue = q; sent = [] }

later : ℕ → Wire → Wire
later b w = record w { sent = b ∷ w.sent }

send-early :
    (ch r c x : ℕ) (q : List ℕ) → r < c → send ch r (some c) (x ∷ q) ≡ early (x ∷ q) (c - r)
unfolding send early
send-early ch r c x q h = if_true (λ w. w ≡ early (x ∷ q) (c - r)) (ltb r c) _ _ (ground arith) refl

send-late :
    (ch r c x : ℕ) (q : List ℕ)
    → c ≤ r
    → send ch r (some c) (x ∷ q) ≡ later x (send ch (r - c) (next_countdown ch q) q)
unfolding send later
send-late ch r c x q h =
    if_false (λ w. w ≡ later x (send ch (r - c) (next_countdown ch q) q)) (ltb r c) _ _
      (ground arith) refl

-- The two runs, from the result of the first.
resume : ℕ → ℕ → Wire → Wire
resume ch b w = next w (send ch b w.countdown w.queue)

send-early_add :
    (ch a b c x : ℕ) (q : List ℕ)
    → a < c
    → send ch (a + b) (some c) (x ∷ q) ≡ resume ch b (early (x ∷ q) (c - a))
unfolding resume early later
send-early_add ch a b c x q h = elim (le_or_gt (c - a) b) [
  | inl g ↦
      let e : a + b - c ≡ b - (c - a) = omega arith in
      send-late ch (a + b) c x q (omega arith)
      ∙ ap (λ n. later x (send ch n (next_countdown ch q) q)) e
      ∙ sym (ap (next (early (x ∷ q) (c - a))) (send-late ch b (c - a) x q g))
  | inr g ↦
      let e : c - (a + b) ≡ c - a - b = omega arith in
      send-early ch (a + b) c x q (omega arith)
      ∙ ap (early (x ∷ q)) e
      ∙ sym (ap (next (early (x ∷ q) (c - a))) (send-early ch b (c - a) x q g))
]

-- The loop run for `a + b` cycles is the loop run for `a` and, on what that leaves, for `b`.
send-add :
    (ch a b : ℕ) (c : Option ℕ) (q : List ℕ) → send ch (a + b) c q ≡ resume ch b (send ch a c q)
unfolding send resume later
send-add ch a b none q = refl
send-add ch a b (some c) [] = ground arith
send-add ch a b (some c) (x ∷ q) = elim (le_or_gt c a) [
  | inl h ↦
      let e : a + b - c ≡ a - c + b = omega arith in
      send-late ch (a + b) c x q (omega arith)
      ∙ ap (λ n. later x (send ch n (next_countdown ch q) q)) e
      ∙ ap (later x) (send-add ch (a - c) b (next_countdown ch q) q)
      ∙ sym (ap (resume ch b) (send-late ch a c x q h))
  | inr h ↦ send-early_add ch a b c x q h ∙ sym (ap (resume ch b) (send-early ch a c x q h))
]

-- `tick` past the power-on identification, by the level of RTS.
abbrev pub heard : KeyboardKMode → Wire → List ℕ → KeyboardKMode × List ℕ
heard k w out = (record k { tx_countdown = w.countdown; pending = w.queue }, out ++ w.sent)

abbrev pub waited : KeyboardKMode → ℕ → List ℕ → KeyboardKMode × List ℕ
waited k cycles out = (record k { rts_low_cycles = min (k.rts_low_cycles + cycles) u64_max }, out)

module _ (k : KeyboardKMode) (quiet : k.power_on_countdown ≡ none) where
  quiet-power_on : (n : ℕ) (out : List ℕ) → power_on k.power_on_countdown n k out ≡ (k, out)
  unfolding power_on
  quiet-power_on n out = ap (λ c. power_on c n k out) quiet

  tick-detached : (n : ℕ) (out : List ℕ) → k.attached ≡ false → tick k n out ≡ (k, out)
  unfolding tick
  tick-detached n out h = if_true (λ r. r ≡ (k, out)) (not k.attached) _ _ (ap not h) refl

  tick-tick_line : (n : ℕ) (out : List ℕ) → k.attached ≡ true → tick k n out ≡ tick_line k n out
  unfolding tick
  tick-tick_line n out h =
      if_false (λ r. r ≡ tick_line k n out) (not k.attached) _ _ (ap not h)
        (ap (λ (r : KeyboardKMode × List ℕ). tick_line r.0 n r.1) (quiet-power_on n out))

  pub tick-heard :
      (n : ℕ) (out : List ℕ)
      → k.attached ≡ true
      → k.rts_asserted ≡ true
      → tick k n out ≡ heard k (send (character_cycles k) n k.tx_countdown k.pending) out
  unfolding tick_line
  tick-heard n out h g =
      tick-tick_line n out h
      ∙ if_false (λ r. r ≡ heard k (send (character_cycles k) n k.tx_countdown k.pending) out)
          (not k.rts_asserted) _ _ (ap not g) refl

  pub tick-waited :
      (n : ℕ) (out : List ℕ)
      → k.attached ≡ true
      → k.rts_asserted ≡ false
      → tick k n out ≡ waited k n out
  unfolding tick_line
  tick-waited n out h g =
      tick-tick_line n out h
      ∙ if_true (λ r. r ≡ waited k n out) (not k.rts_asserted) _ _ (ap not g) refl

tick-tick_heard :
    (k : KeyboardKMode) (a b : ℕ) (out : List ℕ)
    → k.power_on_countdown ≡ none
    → k.attached ≡ true
    → k.rts_asserted ≡ true
    → tick (tick k a out).0 b (tick k a out).1 ≡ tick k (a + b) out
unfolding resume character_cycles bit_cycles
tick-tick_heard k a b out q h g =
    let ch = character_cycles k in
    let w = send ch a k.tx_countdown k.pending in
    let v = send ch b w.countdown w.queue in
    ap (λ (r : KeyboardKMode × List ℕ). tick r.0 b r.1) (tick-heard k q a out h g)
    ∙ tick-heard (heard k w out).0 q b (heard k w out).1 h g
    ∙ ap (λ o. (record k { tx_countdown = v.countdown; pending = v.queue }, o))
        (append_assoc out w.sent v.sent)
    ∙ sym (
        tick-heard k q (a + b) out h g
        ∙ ap (λ x. heard k x out) (send-add ch a b k.tx_countdown k.pending))

tick-tick_waited :
    (k : KeyboardKMode) (a b : ℕ) (out : List ℕ)
    → k.power_on_countdown ≡ none
    → k.attached ≡ true
    → k.rts_asserted ≡ false
    → tick (tick k a out).0 b (tick k a out).1 ≡ tick k (a + b) out
tick-tick_waited k a b out q h g =
    let e : min (min (k.rts_low_cycles + a) u64_max + b) u64_max
        ≡ min (k.rts_low_cycles + (a + b)) u64_max =
      omega arith in
    ap (λ (r : KeyboardKMode × List ℕ). tick r.0 b r.1) (tick-waited k q a out h g)
    ∙ tick-waited (waited k a out).0 q b out h g
    ∙ ap (λ n. (record k { rts_low_cycles = n }, out)) e
    ∙ sym (tick-waited k q (a + b) out h g)

-- Past the power-on identification, ticking for `a` cycles and then for `b` is ticking for
-- `a + b`: the keyboard and the characters on the line are the same, in the same order, wherever
-- the time is cut.
pub tick-tick_quiet :
    (k : KeyboardKMode) (a b : ℕ) (out : List ℕ)
    → k.power_on_countdown ≡ none
    → tick (tick k a out).0 b (tick k a out).1 ≡ tick k (a + b) out
tick-tick_quiet k a b out q = elim (Bool-cases k.attached) [
  | inl h ↦ elim (Bool-cases k.rts_asserted) [
    | inl g ↦ tick-tick_heard k a b out q h g
    | inr g ↦ tick-tick_waited k a b out q h g
  ]
  | inr h ↦
      ap (λ (r : KeyboardKMode × List ℕ). tick r.0 b r.1) (tick-detached k q a out h)
      ∙ tick-detached k q b out h
      ∙ sym (tick-detached k q (a + b) out h)
]
