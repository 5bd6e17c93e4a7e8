-- ===== src/Slave/Stream.antt =====
-- crates/cdi-core/src/slave.rs: channel 2 seen as the bytes that the host is going to read.
use edi_emulator.Slave.Served.{
  unread, reply_bytes, keys_of, stream, IsLive, unread-cons, at_two, service_channel2-Serviced,
}
use edi_emulator.Prelude.{
  ℕ, min, ◌≡◌, sym, ap, ◌∙◌, inl, inr, arith, ◌&&◌, ◌||◌, ◌==◌, if_both, if_true, if_false,
  le_or_gt, List, [], ◌∷◌, ◌++◌, head?, tail, Option, none, get_or, length, length-set, take, drop,
}
use mathlib.Core.List.{append_assoc, append-nil}
use edi_emulator.Keyboard.{has_some, or_else}
use edi_emulator.Slave.{OutChannel, PendingReadback, SlaveHle}
use edi_emulator.Slave.Channel.{
  channel_at, countdown_at, put_channel, put_countdown, clear_channel_irq, queue_channel2_readback,
  advance, acknowledges, service_after_read, read,
}
use edi_emulator.Slave.Aligned.{Aligned-get, IsReply, AllReplies, IsValid}
use edi_emulator.Slave.ReadValid.{get_or-set_default, AllReplies-append}

-- What a read of channel 2 gives: the first byte of the stream, or 0xff, and the rest.
pub record IsNext (s : SlaveHle) (r : SlaveHle × ℕ) : Type 0 where
  pub byte : r.1 ≡ or_else (head? (stream s)) 0xff
  pub rest : stream r.0 ≡ tail (stream s)
  pub live : IsLive r.0

-- The state between the read of a byte and the service of the channel.
record IsTaken (l : List ℕ) (q : SlaveHle) : Type 0 where
  bytes : stream q ≡ l
  four : length q.channels ≡ 4
  all : AllReplies q.pending_channel2_readbacks
  idle : countdown_at q 2 ≡ none

put_channel-IsTaken :
    (s : SlaveHle) (c : OutChannel)
    → IsValid s
    → IsTaken
        (unread c ++ (reply_bytes s.pending_channel2_readbacks ++ keys_of s))
        (put_channel 2 c (put_countdown 2 none s))
unfolding put_channel put_countdown stream
put_channel-IsTaken s c v = record {
  bytes =
      ap (λ (k : OutChannel). unread k ++ (reply_bytes s.pending_channel2_readbacks ++ keys_of s))
        (at_two s.channels c v.fits.four);
  four = length-set s.channels 2 c ∙ v.fits.four;
  all = v.fits.replies;
  idle = get_or-set_default s.irq_countdowns 2 none;
}

cleared-IsTaken : (l : List ℕ) (q : SlaveHle) → IsTaken l q → IsTaken l (clear_channel_irq q 2)
unfolding clear_channel_irq stream
cleared-IsTaken l q t = record { bytes = t.bytes; four = t.four; all = t.all; idle = t.idle }

serviced-IsNext :
    (s : SlaveHle) (b : ℕ) (l : List ℕ) (q : SlaveHle)
    → stream s ≡ b ∷ l
    → IsTaken l q
    → IsNext s (service_after_read 2 q, b)
unfolding service_after_read
serviced-IsNext s b l q e t =
    let served = service_channel2-Serviced q t.four t.all (λ _. t.idle) in
    record {
      byte = sym (ap (λ m. or_else (head? m) 0xff) e);
      rest = served.same ∙ t.bytes ∙ sym (ap tail e);
      live = served.live;
    }

-- Channel 2 is a first-in first-out queue of bytes: on a valid state with nothing waiting behind
-- an empty channel, a read returns the first byte of the unread bytes, the waiting replies and the
-- waiting keyboard packets, in that order, or 0xff if there is none; what is left is the rest, and
-- again nothing waits behind an empty channel.
pub read-IsNext : (s : SlaveHle) → IsValid s → IsLive s → IsNext s (read s 2)
unfolding read
read-IsNext s v live =
    let c = channel_at s 2 in
    let ok = Aligned-get s.channels s.irq_countdowns 2 v.fits.aligned in
    let after = reply_bytes s.pending_channel2_readbacks ++ keys_of s in
    elim (le_or_gt 1 c.count) [
      | inl busy ↦
          let first = get_or c.buf (min c.index 3) 0 in
          let e : stream s ≡ first ∷ (unread (advance c) ++ after) =
            unfold stream in ap (λ l. l ++ after) (unread-cons c (countdown_at s 2) ok busy) in
          let q = put_channel 2 (advance c) (put_countdown 2 none s) in
          let t = put_channel-IsTaken s (advance c) v in
          if_false (IsNext s) (c.count == 0) _ _ (ground arith) (
            serviced-IsNext s first (unread (advance c) ++ after) _ e (
              if_both (IsTaken (unread (advance c) ++ after))
                ((c.index == 0 && acknowledges 2 c.cmd) || has_some (countdown_at s 2)) _ q
                (cleared-IsTaken _ q t) t))
      | inr free ↦
          let z : c.count ≡ 0 = omega arith in
          if_true (IsNext s) (c.count == 0) _ _ (ground arith)
            (empty-IsNext z (unfold IsLive in live z))
    ]
  where
    empty-IsNext :
        (channel_at s 2).count ≡ 0
        → (s.pending_channel2_readbacks ≡ []) × (keys_of s ≡ [])
        → IsNext s (s, 0xff)
    empty-IsNext z w =
        let e : stream s ≡ [] =
          unfold stream in
          ap
            (λ n.
              take n (drop (channel_at s 2).index (channel_at s 2).buf)
              ++ (reply_bytes s.pending_channel2_readbacks ++ keys_of s))
            z
          ∙ ap (λ r. reply_bytes r ++ keys_of s) w.0
          ∙ w.1 in
        record {
          byte = sym (ap (λ m. or_else (head? m) 0xff) e);
          rest = e ∙ sym (ap tail e);
          live = live;
        }

reply_bytes-append :
    (rs : List PendingReadback) (r : PendingReadback)
    → reply_bytes (rs ++ r ∷ []) ≡ reply_bytes rs ++ take r.count r.data_bytes
reply_bytes-append [] r = append-nil (take r.count r.data_bytes)
reply_bytes-append (q ∷ rs) r =
    ap (λ l. take q.count q.data_bytes ++ l) (reply_bytes-append rs r)
    ∙ sym (append_assoc (take q.count q.data_bytes) (reply_bytes rs) (take r.count r.data_bytes))

-- A reply is put behind the replies that wait, and before the keyboard's packets.
pub record IsQueued (s : SlaveHle) (bytes : List ℕ) (q : SlaveHle) : Type 0 where
  pub order :
      stream q
      ≡ unread (channel_at s 2)
        ++ ((reply_bytes s.pending_channel2_readbacks ++ bytes) ++ keys_of s)
  pub live : IsLive q

pub queue_channel2_readback-IsQueued :
    (s : SlaveHle) (d : Option ℕ) (n : ℕ) (bytes : List ℕ) (cmd : ℕ)
    → IsValid s
    → IsReply (record { delay = d; count = n; data_bytes = bytes; cmd = cmd })
    → IsQueued s (take n bytes) (queue_channel2_readback s d n bytes cmd)
unfolding queue_channel2_readback
queue_channel2_readback-IsQueued s d n bytes cmd v h =
    let r : PendingReadback = record { delay = d; count = n; data_bytes = bytes; cmd = cmd } in
    let rs = s.pending_channel2_readbacks ++ r ∷ [] in
    let ok = Aligned-get s.channels s.irq_countdowns 2 v.fits.aligned in
    let served =
      service_channel2-Serviced (record s { pending_channel2_readbacks = rs }) v.fits.four
        (AllReplies-append s.pending_channel2_readbacks r v.fits.replies h) ok.idle in
    record {
      order =
          served.same
          ∙ (unfold stream in
              ap (λ l. unread (channel_at s 2) ++ (l ++ keys_of s))
                (reply_bytes-append s.pending_channel2_readbacks r));
      live = served.live;
    }
