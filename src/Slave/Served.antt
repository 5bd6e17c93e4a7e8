-- ===== src/Slave/Served.antt =====
-- crates/cdi-core/src/slave.rs: the bytes that are due on channel 2, and the service of the channel.
use edi_emulator.Prelude.{
  ℕ, zero, suc, ◌+◌, ◌-◌, ◌<◌, min, ◌≡◌, refl, sym, ap, ◌∙◌, inl, inr, arith, true, false, not,
  ◌||◌, ◌==◌, if◌then◌else◌, if_both, if_true, if_false, Bool-cases, le_or_gt, List, [], ◌∷◌, ◌++◌,
  Option, none, get_or, set, get_or-set_self, length, take, drop,
}
use mathlib.Core.List.{append_assoc}
use edi_emulator.Keyboard.{has_some}
use edi_emulator.Slave.{OutChannel, PendingReadback, SlaveHle, empty_channel}
use edi_emulator.Slave.Channel.{
  channel_at, countdown_at, put_channel, put_countdown, assert_channel_irq, prepare_readback,
  no_readbacks, expose_keyboard, service_keyboard, expose_readback, service_channel2, advance,
}
use edi_emulator.Slave.Aligned.{ChannelOk, AllReplies}

-- The unread bytes of a channel, of the replies that wait, and of the keyboard packets that wait.
abbrev pub unread : OutChannel → List ℕ
unread c = take c.count (drop c.index c.buf)

abbrev pub reply_bytes : List PendingReadback → List ℕ
reply_bytes [] = []
reply_bytes (r ∷ rs) = take r.count r.data_bytes ++ reply_bytes rs

abbrev pub key_bytes : List (List ℕ) → List ℕ
key_bytes [] = []
key_bytes (p ∷ ps) = (get_or p 0 0 ∷ get_or p 1 0 ∷ get_or p 2 0 ∷ []) ++ key_bytes ps

abbrev pub keys_of : SlaveHle → List ℕ
keys_of s = if s.keyboard_events_enabled then key_bytes s.pending_keyboard else []

unfoldable pub stream : SlaveHle → List ℕ
stream s = unread (channel_at s 2) ++ (reply_bytes s.pending_channel2_readbacks ++ keys_of s)

-- Nothing waits behind an empty channel.
unfoldable pub IsLive : SlaveHle → Type 0
IsLive s = (channel_at s 2).count ≡ 0 → (s.pending_channel2_readbacks ≡ []) × (keys_of s ≡ [])

-- The first unread byte, and the channel after it.
drop-get : (i : ℕ) (l : List ℕ) → i < length l → drop i l ≡ get_or l i 0 ∷ drop (suc i) l
drop-get i [] h = absurd (omega arith)
drop-get zero (x ∷ l) h = refl
drop-get (suc i) (x ∷ l) h = drop-get i l (omega arith)

unread-suc :
    (n i : ℕ) (l : List ℕ)
    → i < length l
    → take (suc n) (drop i l) ≡ get_or l i 0 ∷ take n (drop (suc i) l)
unread-suc n i l h = ap (take (suc n)) (drop-get i l h)

-- Without bytes left the channel is the empty one, which has none either.
unread-advance :
    (c : OutChannel)
    → 0 < c.count
    → unread (advance c) ≡ take (c.count - 1) (drop (suc c.index) c.buf)
unfolding advance
unread-advance c h = elim (Bool-cases (c.count - 1 == 0)) [
  | inl e ↦
      let none_left : 0 ≡ c.count - 1 = ground arith in
      if_true (λ (q : OutChannel). unread q ≡ take (c.count - 1) (drop (suc c.index) c.buf))
        (c.count - 1 == 0) _ _ e (ap (λ n. take n (drop (suc c.index) c.buf)) none_left)
  | inr e ↦
      let next : c.index + 1 ≡ suc c.index = omega arith in
      if_false (λ (q : OutChannel). unread q ≡ take (c.count - 1) (drop (suc c.index) c.buf))
        (c.count - 1 == 0) _ _ e (ap (λ i. take (c.count - 1) (drop i c.buf)) next)
]

pub unread-cons :
    (c : OutChannel) (d : Option ℕ)
    → ChannelOk c d
    → 0 < c.count
    → unread c ≡ get_or c.buf (min c.index 3) 0 ∷ unread (advance c)
unread-cons c d ok h =
    let n : c.count ≡ suc (c.count - 1) = omega arith in
    let i : c.index ≡ min c.index 3 = omega (arith, ok.room) in
    ap (λ k. take k (drop c.index c.buf)) n
    ∙ unread-suc (c.count - 1) c.index c.buf (omega (arith, ok.room, ok.width))
    ∙ ap (λ k. get_or c.buf k 0 ∷ take (c.count - 1) (drop (suc c.index) c.buf)) i
    ∙ ap (λ l. get_or c.buf (min c.index 3) 0 ∷ l) (sym (unread-advance c h))

-- What stands in channel 2 after it is written.
pub at_two :
    (cs : List OutChannel) (c : OutChannel)
    → length cs ≡ 4
    → get_or (set cs 2 c) 2 empty_channel ≡ c
at_two cs c h = get_or-set_self cs 2 c empty_channel (omega arith)

not_both : (m n : ℕ) → m ≡ n → m ≡ 0 → 0 < n → ⊥
not_both m n e z h = omega arith

pub record Serviced (s q : SlaveHle) : Type 0 where
  pub same : stream q ≡ stream s
  pub live : IsLive q

expose_keyboard-Serviced :
    (ps : List (List ℕ)) (s : SlaveHle)
    → length s.channels ≡ 4
    → (channel_at s 2).count ≡ 0
    → s.pending_channel2_readbacks ≡ []
    → s.pending_keyboard ≡ ps
    → s.keyboard_events_enabled ≡ true
    → Serviced s (expose_keyboard ps s)
unfolding expose_keyboard put_channel assert_channel_irq stream IsLive
expose_keyboard-Serviced [] s four free no_replies waiting on = record {
  same = refl;
  live = λ _. (
    no_replies,
    if_both (λ l. l ≡ []) s.keyboard_events_enabled (key_bytes s.pending_keyboard) []
        (ap key_bytes waiting) refl,
  );
}
expose_keyboard-Serviced (p ∷ ps) s four free no_replies waiting on =
    let c : OutChannel = record {
      buf = get_or p 0 0 ∷ get_or p 1 0 ∷ get_or p 2 0 ∷ 0 ∷ [];
      index = 0;
      count = 3;
      cmd = 0xa0;
    } in
    let two : get_or (set s.channels 2 c) 2 empty_channel ≡ c = at_two s.channels c four in
    record {
      same =
          ap
            (λ (k : OutChannel).
              unread k
              ++ (reply_bytes s.pending_channel2_readbacks
                  ++ (if s.keyboard_events_enabled then key_bytes ps else [])))
            two
          ∙ ap
              (λ r.
                unread c
                ++ (reply_bytes r ++ (if s.keyboard_events_enabled then key_bytes ps else [])))
              no_replies
          ∙ ap (λ b. unread c ++ (if b then key_bytes ps else [])) on
          ∙ sym (
              ap
                (λ n.
                  take n (drop (channel_at s 2).index (channel_at s 2).buf)
                  ++ (reply_bytes s.pending_channel2_readbacks ++ keys_of s))
                free
              ∙ ap (λ r. reply_bytes r ++ keys_of s) no_replies
              ∙ ap (λ b. if b then key_bytes s.pending_keyboard else []) on
              ∙ ap key_bytes waiting);
      live = λ e. absurd (not_both _ 3 (ap (λ (k : OutChannel). k.count) two) e (omega arith));
    }

service_keyboard-Serviced :
    (s : SlaveHle)
    → length s.channels ≡ 4
    → (channel_at s 2).count ≡ 0
    → s.pending_channel2_readbacks ≡ []
    → Serviced s (service_keyboard s)
unfolding service_keyboard stream IsLive
service_keyboard-Serviced s four free no_replies = elim (Bool-cases s.keyboard_events_enabled) [
  | inl on ↦
      if_false (Serviced s)
        (not s.keyboard_events_enabled
          || not ((channel_at s 2).count == 0)
          || not (no_readbacks s.pending_channel2_readbacks))
        _ _ (open_gate on)
        (expose_keyboard-Serviced s.pending_keyboard s four free no_replies refl on)
  | inr off ↦
      if_true (Serviced s)
        (not s.keyboard_events_enabled
          || not ((channel_at s 2).count == 0)
          || not (no_readbacks s.pending_channel2_readbacks))
        _ _
        (ap
          (λ b.
            not b
            || not ((channel_at s 2).count == 0)
            || not (no_readbacks s.pending_channel2_readbacks))
          off)
        (record {
          same = refl;
          live = λ _. (
            no_replies,
            if_false (λ l. l ≡ []) s.keyboard_events_enabled (key_bytes s.pending_keyboard) [] off
                refl,
          );
        })
]
  where
    open_gate :
        s.keyboard_events_enabled ≡ true
        → (not s.keyboard_events_enabled
            || not ((channel_at s 2).count == 0)
            || not (no_readbacks s.pending_channel2_readbacks))
          ≡ false
    open_gate on =
        ap
          (λ b.
            not b
            || not ((channel_at s 2).count == 0)
            || not (no_readbacks s.pending_channel2_readbacks))
          on
        ∙ ap (λ n. not (n == 0) || not (no_readbacks s.pending_channel2_readbacks)) free
        ∙ ap (λ r. not (no_readbacks r)) no_replies

expose_readback-Serviced :
    (rs : List PendingReadback) (s : SlaveHle)
    → length s.channels ≡ 4
    → (channel_at s 2).count ≡ 0
    → s.pending_channel2_readbacks ≡ rs
    → AllReplies rs
    → Serviced s (expose_readback rs s)
unfolding expose_readback prepare_readback put_channel put_countdown stream IsLive
expose_readback-Serviced [] s four free waiting all = service_keyboard-Serviced s four free waiting
expose_readback-Serviced (r ∷ rs) s four free waiting all =
    let c : OutChannel = record { buf = r.data_bytes; index = 0; count = r.count; cmd = r.cmd } in
    let two : get_or (set s.channels 2 c) 2 empty_channel ≡ c = at_two s.channels c four in
    record {
      same =
          ap (λ (k : OutChannel). unread k ++ (reply_bytes rs ++ keys_of s)) two
          ∙ sym (append_assoc (take r.count r.data_bytes) (reply_bytes rs) (keys_of s))
          ∙ sym (
              ap
                (λ n.
                  take n (drop (channel_at s 2).index (channel_at s 2).buf)
                  ++ (reply_bytes s.pending_channel2_readbacks ++ keys_of s))
                free
              ∙ ap (λ l. reply_bytes l ++ keys_of s) waiting);
      live = λ e.
          absurd (not_both _ r.count (ap (λ (k : OutChannel). k.count) two) e all.0.some_bytes);
    }

-- Serving channel 2 changes nothing of what is going to be read, and leaves nothing waiting behind
-- an empty channel.
pub service_channel2-Serviced :
    (s : SlaveHle)
    → length s.channels ≡ 4
    → AllReplies s.pending_channel2_readbacks
    → ((channel_at s 2).count ≡ 0 → countdown_at s 2 ≡ none)
    → Serviced s (service_channel2 s)
unfolding service_channel2 IsLive
service_channel2-Serviced s four all idle = elim (le_or_gt 1 (channel_at s 2).count) [
  | inl busy ↦
      if_true (Serviced s) (not ((channel_at s 2).count == 0) || has_some (countdown_at s 2)) _ _
        (ground arith) (record { same = refl; live = λ e. absurd (omega arith) })
  | inr free ↦
      let z : (channel_at s 2).count ≡ 0 = omega arith in
      if_false (Serviced s) (not ((channel_at s 2).count == 0) || has_some (countdown_at s 2)) _ _
        (ap (λ n. not (n == 0) || has_some (countdown_at s 2)) z ∙ ap has_some (idle z))
        (expose_readback-Serviced s.pending_channel2_readbacks s four z refl all)
]
