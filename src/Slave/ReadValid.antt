-- ===== src/Slave/ReadValid.antt =====
-- crates/cdi-core/src/slave.rs: the invariant under reads, replies and drive notifications.
use edi_emulator.Prelude.{
  ℕ, zero, suc, ◌+◌, ◌-◌, ◌<◌, ◌≡◌, refl, sym, ◌≢◌, inl, inr, arith, Bool, false, not, ◌&&◌, ◌||◌,
  ◌==◌, if◌then◌else◌, if_both, if_true, if_false, le_or_gt, List, [], ◌∷◌, ◌++◌, Option, none,
  some, get_or, set, length,
}
use mathlib.Core.Path.{subst}
use edi_emulator.Keyboard.{has_some}
use edi_emulator.Slave.{
  OutChannel, PendingReadback, SlaveHle, empty_channel, readback_delay, drive_status_packet,
}
use edi_emulator.Slave.Channel.{
  channel_at, countdown_at, put_channel, put_countdown, queue_channel2_readback,
  expose_drive_status, service_drive_status_notification, notify_disc_change, advance, acknowledges,
  service_after_read, read,
}
use edi_emulator.Slave.Aligned.{
  ChannelOk, Aligned-get, IsReply, AllReplies, AllFour, IsValid, kept, empty-ChannelOk,
  refit_queues,
}
use edi_emulator.Slave.Valid.{
  put_channel-IsValid, put_countdown-IsValid, prepare_readback-IsValid, clear_channel_irq-IsValid,
  service_player_control-IsValid, service_channel2-IsValid,
}

pub AllReplies-append :
    (rs : List PendingReadback) (r : PendingReadback)
    → AllReplies rs
    → IsReply r
    → AllReplies (rs ++ r ∷ [])
AllReplies-append [] r h g = (g, tt)
AllReplies-append (q ∷ rs) r h g = (h.0, AllReplies-append rs r h.1 g)

AllFour-append : (ps qs : List (List ℕ)) → AllFour ps → AllFour qs → AllFour (ps ++ qs)
AllFour-append [] qs h g = g
AllFour-append (p ∷ ps) qs h g = (h.0, AllFour-append ps qs h.1 g)

pub queue_channel2_readback-IsValid :
    (s : SlaveHle) (d : Option ℕ) (n : ℕ) (bytes : List ℕ) (cmd : ℕ)
    → IsValid s
    → IsReply (record { delay = d; count = n; data_bytes = bytes; cmd = cmd })
    → IsValid (queue_channel2_readback s d n bytes cmd)
unfolding queue_channel2_readback
queue_channel2_readback-IsValid s d n bytes cmd v r =
    let r' : PendingReadback = record { delay = d; count = n; data_bytes = bytes; cmd = cmd } in
    let rs = s.pending_channel2_readbacks ++ r' ∷ [] in
    service_channel2-IsValid (record s { pending_channel2_readbacks = rs })
      (kept (
        refit_queues v.fits rs s.pending_drive_status
          (AllReplies-append s.pending_channel2_readbacks r' v.fits.replies r) v.fits.drive))

pub drive-ChannelOk :
    (bytes : List ℕ) (d : Option ℕ) (cmd : ℕ)
    → length bytes ≡ 4
    → cmd ≢ 0xa0
    → cmd ≢ 0x87
    → ChannelOk (record { buf = bytes; index = 0; count = 4; cmd = cmd }) d
drive-ChannelOk bytes d cmd e a b = record {
  room = omega arith;
  width = e;
  idle = λ h. absurd (omega arith);
  keyboard = λ h. absurd (a h);
  player = λ h. absurd (b h);
}

expose_drive_status-IsValid :
    (ps : List (List ℕ)) (s : SlaveHle)
    → AllFour ps
    → IsValid s
    → IsValid (expose_drive_status ps s)
unfolding expose_drive_status
expose_drive_status-IsValid [] s h v = (kept v.fits)
expose_drive_status-IsValid (p ∷ ps) s h v =
    prepare_readback-IsValid (record s { pending_drive_status = ps }) (some (readback_delay s)) 3 4
      p 0xb0 (kept (refit_queues v.fits s.pending_channel2_readbacks ps v.fits.replies h.1))
      (drive-ChannelOk p _ 0xb0 h.0 (λ e. absurd (omega arith)) (λ e. absurd (omega arith)))

pub service_drive_status_notification-IsValid :
    (s : SlaveHle) → IsValid s → IsValid (service_drive_status_notification s)
unfolding service_drive_status_notification
service_drive_status_notification-IsValid s v =
    if_both IsValid
      (not s.xbus_interrupt_enable
        || not ((channel_at s 3).count == 0)
        || has_some (countdown_at s 3))
      _ _ (kept v.fits)
      (expose_drive_status-IsValid s.pending_drive_status s v.fits.drive (kept v.fits))

pub notify_disc_change-IsValid :
    (s : SlaveHle) (present replacing : Bool)
    → IsValid s
    → IsValid (notify_disc_change s present replacing)
unfolding notify_disc_change
notify_disc_change-IsValid s present replacing v =
    let packet : List ℕ = 0xb0 ∷ 0x00 ∷ 0x00 ∷ 0x15 ∷ [] in
    let removal = if replacing then packet ∷ [] else [] in
    let changed = record s {
      disc_boot_mode = false;
      disc_present = present;
      pending_drive_status = s.pending_drive_status ++ removal;
    } in
    let first =
      AllFour-append s.pending_drive_status removal v.fits.drive
        (if_both AllFour replacing (packet ∷ []) [] (refl, tt) tt) in
    let both =
      AllFour-append changed.pending_drive_status (drive_status_packet changed ∷ []) first
        (unfold drive_status_packet in (refl, tt)) in
    service_drive_status_notification-IsValid
      (record changed {
        pending_drive_status = changed.pending_drive_status ++ drive_status_packet changed ∷ [];
      })
      (kept (refit_queues v.fits _ _ v.fits.replies both))

pub get_or-set_default {ℓ} :
    {A : Type ℓ} (xs : List A) (i : ℕ) (d : A) → get_or (set xs i d) i d ≡ d
get_or-set_default [] i d = refl
get_or-set_default (x ∷ xs) zero d = refl
get_or-set_default (x ∷ xs) (suc i) d = get_or-set_default xs i d

-- A byte less to read.
advance-ChannelOk :
    (c : OutChannel) (d : Option ℕ) → 0 < c.count → ChannelOk c d → ChannelOk (advance c) none
unfolding advance
advance-ChannelOk c d h ok =
    if_both (λ (q : OutChannel). ChannelOk q none) (c.count - 1 == 0) empty_channel
      (record c { index = c.index + 1; count = c.count - 1 }) (empty-ChannelOk none refl)
      (record {
        room = omega (arith, ok.room);
        width = ok.width;
        idle = λ e. refl;
        keyboard = λ e. refl;
        player = λ e. refl;
      })

no_delay-ChannelOk : (c : OutChannel) (d : Option ℕ) → ChannelOk c d → ChannelOk c none
no_delay-ChannelOk c d ok = record {
  room = ok.room;
  width = ok.width;
  idle = λ e. refl;
  keyboard = λ e. refl;
  player = λ e. refl;
}

service_after_read-IsValid : (i : ℕ) (s : SlaveHle) → IsValid s → IsValid (service_after_read i s)
unfolding service_after_read
service_after_read-IsValid i s v =
    if_both IsValid (i == 1) _ _ (service_player_control-IsValid s (kept v.fits))
      (if_both IsValid (i == 2) _ s (service_channel2-IsValid s (kept v.fits)) (kept v.fits))

pub read-IsValid : (s : SlaveHle) (i : ℕ) → IsValid s → IsValid (read s i).0
unfolding read
read-IsValid s i v =
    let c = channel_at s i in
    let waiting = put_countdown i none s in
    let ok = Aligned-get s.channels s.irq_countdowns i v.fits.aligned in
    let still =
      put_countdown-IsValid s i none (kept v.fits) (no_delay-ChannelOk c (countdown_at s i) ok) in
    elim (le_or_gt 1 c.count) [
      | inl h ↦
          let taken = put_channel i (advance c) waiting in
          let taken_valid : IsValid taken = put_channel-IsValid waiting i (advance c) still (
            unfold put_countdown in
            subst (ChannelOk (advance c)) (sym (get_or-set_default s.irq_countdowns i none))
              (advance-ChannelOk c (countdown_at s i) h ok)) in
          if_false (λ (r : SlaveHle × ℕ). IsValid r.0) (c.count == 0) _ _ (ground arith)
            (service_after_read-IsValid i _ (
              if_both IsValid
                ((c.index == 0 && acknowledges i c.cmd) || has_some (countdown_at s i)) _ taken
                (clear_channel_irq-IsValid taken i taken_valid) taken_valid))
      | inr h ↦
          if_true (λ (r : SlaveHle × ℕ). IsValid r.0) (c.count == 0) _ _ (ground arith)
            (kept v.fits)
    ]
