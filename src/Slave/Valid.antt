-- ===== src/Slave/Valid.antt =====
-- crates/cdi-core/src/slave.rs: the invariant of the state, for the channels, their queue and their
-- interrupt line.
use edi_emulator.Slave.Aligned.{
  ChannelOk, IsReply, AllReplies, IsValid, kept, Aligned-get, Aligned-set, Aligned-set_channel,
  Aligned-set_countdown, set_bit-nonzero, refit_channels, refit_line, refit_queues,
}
use edi_emulator.Prelude.{
  ℕ, ◌≤◌, ◌≡◌, refl, sym, ◌∙◌, inl, inr, arith, true, not, ◌||◌, ◌==◌, if_both, if_true, if_false,
  Bool-cases, List, [], ◌∷◌, Option, none, get_or, length-set,
}
use mathlib.Core.Path.{subst}
use edi_emulator.Keyboard.{has_some}
use edi_emulator.Slave.{OutChannel, PendingReadback, SlaveHle}
use edi_emulator.Slave.Channel.{
  channel_at, countdown_at, put_channel, put_countdown, assert_channel_irq, clear_channel_irq,
  prepare_readback, expose_keyboard, service_keyboard, expose_player_control,
  service_player_control, expose_readback, no_readbacks, service_channel2,
}

pub put_channel-IsValid :
    (s : SlaveHle) (i : ℕ) (c : OutChannel)
    → IsValid s
    → ChannelOk c (countdown_at s i)
    → IsValid (put_channel i c s)
unfolding put_channel
put_channel-IsValid s i c v h = kept (
    refit_channels v.fits _ _ (Aligned-set_channel s.channels s.irq_countdowns i c v.fits.aligned h)
      (length-set s.channels i c ∙ v.fits.four))

pub put_countdown-IsValid :
    (s : SlaveHle) (i : ℕ) (d : Option ℕ)
    → IsValid s
    → ChannelOk (channel_at s i) d
    → IsValid (put_countdown i d s)
unfolding put_countdown
put_countdown-IsValid s i d v h = kept (
    refit_channels v.fits _ _
      (Aligned-set_countdown s.channels s.irq_countdowns i d v.fits.aligned h) v.fits.four)

pub prepare_readback-IsValid :
    (s : SlaveHle) (d : Option ℕ) (i n : ℕ) (bytes : List ℕ) (cmd : ℕ)
    → IsValid s
    → ChannelOk (record { buf = bytes; index = 0; count = n; cmd = cmd }) d
    → IsValid (prepare_readback s d i n bytes cmd)
unfolding prepare_readback put_channel put_countdown
prepare_readback-IsValid s d i n bytes cmd v h = kept (
    refit_channels v.fits _ _ (Aligned-set s.channels s.irq_countdowns i _ d v.fits.aligned h)
      (length-set s.channels i _ ∙ v.fits.four))

pub assert_channel_irq-IsValid :
    (s : SlaveHle) (i : ℕ) → IsValid s → IsValid (assert_channel_irq s i)
unfolding assert_channel_irq
assert_channel_irq-IsValid s i v =
    kept (refit_line v.fits true _ (set_bit-nonzero s.irq_pending_channels i))

pub clear_channel_irq-IsValid : (s : SlaveHle) (i : ℕ) → IsValid s → IsValid (clear_channel_irq s i)
unfolding clear_channel_irq
clear_channel_irq-IsValid s i v = kept (refit_line v.fits _ _ refl)

-- A packet that is read without a delay.
pub packet-ChannelOk :
    (a b c d n cmd : ℕ)
    → n ≤ 4
    → ChannelOk (record { buf = a ∷ b ∷ c ∷ d ∷ []; index = 0; count = n; cmd = cmd }) none
packet-ChannelOk a b c d n cmd h = record {
  room = omega arith;
  width = refl;
  idle = λ _. refl;
  keyboard = λ _. refl;
  player = λ _. refl;
}

-- A free channel has no delay.
pub free_lem :
    (s : SlaveHle) (i : ℕ) → IsValid s → (channel_at s i).count ≡ 0 → countdown_at s i ≡ none
free_lem s i v e = (Aligned-get s.channels s.irq_countdowns i v.fits.aligned).idle e

expose_keyboard-IsValid :
    (ps : List (List ℕ)) (s : SlaveHle)
    → IsValid s
    → (channel_at s 2).count ≡ 0
    → IsValid (expose_keyboard ps s)
unfolding expose_keyboard
expose_keyboard-IsValid [] s v e = (kept v.fits)
expose_keyboard-IsValid (p ∷ ps) s v e =
    let c : OutChannel = record {
      buf = get_or p 0 0 ∷ get_or p 1 0 ∷ get_or p 2 0 ∷ 0 ∷ [];
      index = 0;
      count = 3;
      cmd = 0xa0;
    } in
    let q = record s { pending_keyboard = ps } in
    assert_channel_irq-IsValid (put_channel 2 c q) 2 (
      put_channel-IsValid q 2 c (kept v.fits) (
        subst (ChannelOk c) (sym (free_lem s 2 (kept v.fits) e))
          (packet-ChannelOk (get_or p 0 0) (get_or p 1 0) (get_or p 2 0) 0 3 0xa0 (omega arith))))

pub service_keyboard-IsValid : (s : SlaveHle) → IsValid s → IsValid (service_keyboard s)
unfolding service_keyboard
service_keyboard-IsValid s v =
    elim (Bool-cases (
      not s.keyboard_events_enabled
      || not ((channel_at s 2).count == 0)
      || not (no_readbacks s.pending_channel2_readbacks))) [
        | inl h ↦ if_true IsValid _ s _ h (kept v.fits)
        | inr h ↦
            if_false IsValid _ s _ h
              (expose_keyboard-IsValid s.pending_keyboard s (kept v.fits) (ground arith))
      ]

expose_player_control-IsValid :
    (ps : List (ℕ × ℕ)) (s : SlaveHle)
    → IsValid s
    → (channel_at s 1).count ≡ 0
    → IsValid (expose_player_control ps s)
unfolding expose_player_control
expose_player_control-IsValid [] s v e = (kept v.fits)
expose_player_control-IsValid (p ∷ ps) s v e =
    let c : OutChannel = record {
      buf = p.0 ∷ p.1 ∷ 0 ∷ 0 ∷ [];
      index = 0;
      count = 2;
      cmd = 0x87;
    } in
    let q = record s { pending_player_control = ps } in
    assert_channel_irq-IsValid (put_channel 1 c q) 1 (
      put_channel-IsValid q 1 c (kept v.fits) (
        subst (ChannelOk c) (sym (free_lem s 1 (kept v.fits) e))
          (packet-ChannelOk p.0 p.1 0 0 2 0x87 (omega arith))))

pub service_player_control-IsValid : (s : SlaveHle) → IsValid s → IsValid (service_player_control s)
unfolding service_player_control
service_player_control-IsValid s v =
    elim (Bool-cases (not s.player_control_enabled || not ((channel_at s 1).count == 0))) [
      | inl h ↦ if_true IsValid _ s _ h (kept v.fits)
      | inr h ↦
          if_false IsValid _ s _ h
            (expose_player_control-IsValid s.pending_player_control s (kept v.fits) (ground arith))
    ]

-- A status reply on its way out.
pub reply-ChannelOk :
    (r : PendingReadback)
    → IsReply r
    → ChannelOk (record { buf = r.data_bytes; index = 0; count = r.count; cmd = r.cmd }) r.delay
reply-ChannelOk r h = record {
  room = omega (arith, h.room);
  width = h.width;
  idle = λ e. absurd (omega (arith, h.some_bytes));
  keyboard = λ e. absurd (omega (arith, h.query));
  player = λ e. absurd (omega (arith, h.query));
}

expose_readback-IsValid :
    (rs : List PendingReadback) (s : SlaveHle)
    → AllReplies rs
    → IsValid s
    → IsValid (expose_readback rs s)
unfolding expose_readback
expose_readback-IsValid [] s h v = service_keyboard-IsValid s (kept v.fits)
expose_readback-IsValid (r ∷ rs) s h v =
    prepare_readback-IsValid (record s { pending_channel2_readbacks = rs }) r.delay 2 r.count
      r.data_bytes r.cmd (kept (refit_queues v.fits rs s.pending_drive_status h.1 v.fits.drive))
      (reply-ChannelOk r h.0)

pub service_channel2-IsValid : (s : SlaveHle) → IsValid s → IsValid (service_channel2 s)
unfolding service_channel2
service_channel2-IsValid s v =
    if_both IsValid (not ((channel_at s 2).count == 0) || has_some (countdown_at s 2)) _ _
      (kept v.fits)
      (expose_readback-IsValid s.pending_channel2_readbacks s v.fits.replies (kept v.fits))
