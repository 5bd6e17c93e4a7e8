-- ===== src/Slave/Aligned.antt =====
-- crates/cdi-core/src/slave.rs: the invariant of the state, channel by channel.
use edi_emulator.Prelude.{
  ℕ, zero, suc, ◌+◌, ◌^◌, ◌≤◌, ◌<◌, ◌≡◌, refl, arith, Bool, true, not, ◌==◌, List, [], ◌∷◌, Option,
  none, get_or, set, length, set_bit,
}
use native.Mathlib.Nat.{pow-suc}
use edi_emulator.Slave.{OutChannel, PendingReadback, SlaveHle, empty_channel}

-- A channel and its delay: what is left to read lies in the buffer, an empty channel waits for no
-- interrupt, and neither does a keyboard or player-control packet.
pub record ChannelOk (c : OutChannel) (d : Option ℕ) : Type 0 where
  pub room : c.index + c.count ≤ 4
  pub width : length c.buf ≡ 4
  pub idle : c.count ≡ 0 → d ≡ none
  pub keyboard : c.cmd ≡ 0xa0 → d ≡ none
  pub player : c.cmd ≡ 0x87 → d ≡ none

abbrev pub Aligned : List OutChannel → List (Option ℕ) → Type 0
Aligned [] [] = Unit {0}
Aligned [] (d ∷ ds) = ⊥
Aligned (c ∷ cs) [] = ⊥
Aligned (c ∷ cs) (d ∷ ds) = ChannelOk c d × Aligned cs ds

-- A reply that waits: it has bytes to send, and its command is a status query's.
pub record IsReply (r : PendingReadback) : Type 0 where
  pub some_bytes : 0 < r.count
  pub room : r.count ≤ 4
  pub width : length r.data_bytes ≡ 4
  pub query : 0xf0 ≤ r.cmd

abbrev pub AllReplies : List PendingReadback → Type 0
AllReplies [] = Unit {0}
AllReplies (r ∷ rs) = IsReply r × AllReplies rs

abbrev pub AllFour : List (List ℕ) → Type 0
AllFour [] = Unit {0}
AllFour (p ∷ ps) = (length p ≡ 4) × AllFour ps

pub record Fits (channels : List OutChannel) (countdowns : List (Option ℕ)) (asserted : Bool)
    (pending x y : ℕ) (input : List ℕ) (readbacks : List PendingReadback) (packets : List (List ℕ))
    : Type 0 where
  pub aligned : Aligned channels countdowns
  pub four : length channels ≡ 4
  pub line : asserted ≡ not (pending == 0)
  pub x_le : x ≤ 767
  pub y_le : y ≤ 559
  pub input_length : length input ≡ 17
  pub replies : AllReplies readbacks
  pub drive : AllFour packets

pub record IsValid (s : SlaveHle) : Type 0 where
  pub fits :
      Fits s.channels s.irq_countdowns s.irq_asserted s.irq_pending_channels s.device_x s.device_y
        s.in_buf s.pending_channel2_readbacks s.pending_drive_status

-- The invariant reads no other field, so that it holds of any state with the same ones.
abbrev pub kept :
    {s : SlaveHle}
    → Fits s.channels s.irq_countdowns s.irq_asserted s.irq_pending_channels s.device_x s.device_y
        s.in_buf s.pending_channel2_readbacks s.pending_drive_status
    → IsValid s
kept f = record { fits = f }

pub empty-ChannelOk : (d : Option ℕ) → d ≡ none → ChannelOk empty_channel d
empty-ChannelOk d e = record {
  room = omega arith;
  width = refl;
  idle = λ _. e;
  keyboard = λ _. e;
  player = λ _. e;
}

pub Aligned-get :
    (cs : List OutChannel) (ds : List (Option ℕ)) (i : ℕ)
    → Aligned cs ds
    → ChannelOk (get_or cs i empty_channel) (get_or ds i none)
Aligned-get [] [] i a = empty-ChannelOk none refl
Aligned-get [] (d ∷ ds) i a = absurd a
Aligned-get (c ∷ cs) [] i a = absurd a
Aligned-get (c ∷ cs) (d ∷ ds) zero a = a.0
Aligned-get (c ∷ cs) (d ∷ ds) (suc i) a = Aligned-get cs ds i a.1

pub Aligned-set :
    (cs : List OutChannel) (ds : List (Option ℕ)) (i : ℕ) (c : OutChannel) (d : Option ℕ)
    → Aligned cs ds
    → ChannelOk c d
    → Aligned (set cs i c) (set ds i d)
Aligned-set [] [] i c d a h = tt
Aligned-set [] (e ∷ ds) i c d a h = absurd a
Aligned-set (b ∷ cs) [] i c d a h = absurd a
Aligned-set (b ∷ cs) (e ∷ ds) zero c d a h = (h, a.1)
Aligned-set (b ∷ cs) (e ∷ ds) (suc i) c d a h = (a.0, Aligned-set cs ds i c d a.1 h)

pub Aligned-set_channel :
    (cs : List OutChannel) (ds : List (Option ℕ)) (i : ℕ) (c : OutChannel)
    → Aligned cs ds
    → ChannelOk c (get_or ds i none)
    → Aligned (set cs i c) ds
Aligned-set_channel [] [] i c a h = tt
Aligned-set_channel [] (e ∷ ds) i c a h = absurd a
Aligned-set_channel (b ∷ cs) [] i c a h = absurd a
Aligned-set_channel (b ∷ cs) (e ∷ ds) zero c a h = (h, a.1)
Aligned-set_channel (b ∷ cs) (e ∷ ds) (suc i) c a h = (a.0, Aligned-set_channel cs ds i c a.1 h)

pub Aligned-set_countdown :
    (cs : List OutChannel) (ds : List (Option ℕ)) (i : ℕ) (d : Option ℕ)
    → Aligned cs ds
    → ChannelOk (get_or cs i empty_channel) d
    → Aligned cs (set ds i d)
Aligned-set_countdown [] [] i d a h = tt
Aligned-set_countdown [] (e ∷ ds) i d a h = absurd a
Aligned-set_countdown (b ∷ cs) [] i d a h = absurd a
Aligned-set_countdown (b ∷ cs) (e ∷ ds) zero d a h = (h, a.1)
Aligned-set_countdown (b ∷ cs) (e ∷ ds) (suc i) d a h = (a.0, Aligned-set_countdown cs ds i d a.1 h)

pow_pos : (k : ℕ) → 0 < 2 ^ k
pow_pos zero = omega arith
pow_pos (suc k) = omega (arith, pow-suc 2 k, pow_pos k)

pub set_bit-nonzero : (x k : ℕ) → true ≡ not (set_bit x k == 0)
set_bit-nonzero x k = ground (arith, pow_pos k)

-- The invariant with some of its parts replaced.
module _ {cs : List OutChannel} {ds : List (Option ℕ)} {on : Bool} {p x y : ℕ} {input : List ℕ}
    {rs : List PendingReadback} {ps : List (List ℕ)} (v : Fits cs ds on p x y input rs ps) where
  pub refit_channels :
      (cs' : List OutChannel) (ds' : List (Option ℕ))
      → Aligned cs' ds'
      → length cs' ≡ 4
      → Fits cs' ds' on p x y input rs ps
  refit_channels cs' ds' a n = record {
    aligned = a;
    four = n;
    line = v.line;
    x_le = v.x_le;
    y_le = v.y_le;
    input_length = v.input_length;
    replies = v.replies;
    drive = v.drive;
  }

  pub refit_line : (on' : Bool) (p' : ℕ) → on' ≡ not (p' == 0) → Fits cs ds on' p' x y input rs ps
  refit_line on' p' e = record {
    aligned = v.aligned;
    four = v.four;
    line = e;
    x_le = v.x_le;
    y_le = v.y_le;
    input_length = v.input_length;
    replies = v.replies;
    drive = v.drive;
  }

  pub refit_position : (x' y' : ℕ) → x' ≤ 767 → y' ≤ 559 → Fits cs ds on p x' y' input rs ps
  refit_position x' y' h h' = record {
    aligned = v.aligned;
    four = v.four;
    line = v.line;
    x_le = h;
    y_le = h';
    input_length = v.input_length;
    replies = v.replies;
    drive = v.drive;
  }

  pub refit_input : (input' : List ℕ) → length input' ≡ 17 → Fits cs ds on p x y input' rs ps
  refit_input input' e = record {
    aligned = v.aligned;
    four = v.four;
    line = v.line;
    x_le = v.x_le;
    y_le = v.y_le;
    input_length = e;
    replies = v.replies;
    drive = v.drive;
  }

  pub refit_queues :
      (rs' : List PendingReadback) (ps' : List (List ℕ))
      → AllReplies rs'
      → AllFour ps'
      → Fits cs ds on p x y input rs' ps'
  refit_queues rs' ps' h h' = record {
    aligned = v.aligned;
    four = v.four;
    line = v.line;
    x_le = v.x_le;
    y_le = v.y_le;
    input_length = v.input_length;
    replies = h;
    drive = h';
  }
