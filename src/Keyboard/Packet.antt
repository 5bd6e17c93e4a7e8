-- ===== src/Keyboard/Packet.antt =====
-- crates/cdi-core/src/keyboard.rs: the two-byte state packet carries the modifiers and the key
-- held last.
use edi_emulator.Prelude.{
  ℕ, bit_or, if_true, if_false, if_both, not, ◌&&◌, ◌∙◌, ◌≢◌, ◌+◌, ◌*◌, ◌/◌, ◌%◌, ◌^◌, ◌<◌, ◌≤◌,
  ◌≡◌, refl, sym, ap, arith, Bool, true, false, ◌⊎◌, inl, inr, if◌then◌else◌, has_bit, List, [],
  ◌∷◌, ◌++◌, Option, none, some, last?,
}
use mathlib.Core.Path.{subst}
use edi_emulator.Prelude.Bytes.{AllBytes, append-AllBytes}
use edi_emulator.Keyboard.Held.{IsHeldAfter, held-IsHeldAfter, remove_first-AllBytes}
use edi_emulator.Keyboard.{
  KeyboardKMode, KeyboardModifiers, has_some, remove_first, set_key, character_cycles, packet_bits,
  packet_head, packet_key, queue_state_packet,
}

-- The reading of a packet: bit 1 of the head says that no key is held, bit 0 is bit 7 of the key.
abbrev pub packet_modifiers : ℕ → KeyboardModifiers
packet_modifiers head = record {
  shift = has_bit head 3;
  caps_lock = has_bit head 4;
  supershift = has_bit head 5;
  control = has_bit head 6;
}

abbrev pub packet_code : ℕ → ℕ → Option ℕ
packet_code head low = if has_bit head 1 then none else some (head % 2 * 128 + low)

pub record IsPacket (m : KeyboardModifiers) (key : Option ℕ) (head low : ℕ) : Type 0 where
  pub modifiers : packet_modifiers head ≡ m
  pub code : packet_code head low ≡ key
  pub first : (128 ≤ head) × (head < 256)
  pub second : low < 128

abbrev flags : Bool → Bool → Bool → Bool → KeyboardModifiers
flags a b c d = record { shift = a; caps_lock = b; supershift = c; control = d }

-- The head for each top bit of the key.
abbrev head_of : KeyboardModifiers → ℕ → ℕ
head_of m top = packet_head m (some (top * 128))

-- Of the key, the head holds the top bit only.
packet_head-top :
    (m : KeyboardModifiers) (key top : ℕ)
    → key / 2 ^ 7 % 2 ≡ top
    → packet_head m (some key) ≡ head_of m top
unfolding packet_head
packet_head-top m key top h =
    let e : key / 2 ^ 7 % 2 ≡ top * 128 / 2 ^ 7 % 2 = omega arith in
    ap (bit_or (bit_or (bit_or 0x80 (packet_bits m * 8)) 0)) e

top-cases : (key : ℕ) → (key / 2 ^ 7 % 2 ≡ 0) ⊎ (key / 2 ^ 7 % 2 ≡ 1)
top-cases key = ground arith

abbrev IsHead : KeyboardModifiers → ℕ → Type 0
IsHead m top =
    (packet_modifiers (head_of m top) ≡ m)
    × (has_bit (head_of m top) 1 ≡ false)
    × (head_of m top % 2 ≡ top)
    × (128 ≤ head_of m top)
    × (head_of m top < 256)

flags-IsHead : (a b c d : Bool) → IsHead (flags a b c d) 0 × IsHead (flags a b c d) 1
unfolding packet_head packet_bits
flags-IsHead a b c d = ground arith

no_key-IsPacket :
    (a b c d : Bool) → IsPacket (flags a b c d) none (packet_head (flags a b c d) none) 0
unfolding packet_head packet_bits
no_key-IsPacket a b c d = record {
  modifiers = ground arith;
  code = ground arith;
  first = ground arith;
  second = ground arith;
}

head-IsPacket :
    (m : KeyboardModifiers) (key top : ℕ)
    → key < 256
    → key / 2 ^ 7 % 2 ≡ top
    → IsHead m top
    → IsPacket m (some key) (head_of m top) (key % 2 ^ 7)
head-IsPacket m key top lt e h = record {
  modifiers = h.0;
  code =
      let value : head_of m top % 2 * 128 + key % 2 ^ 7 ≡ key = omega (arith, h.2) in
      if_false (λ o. o ≡ some key) (has_bit (head_of m top) 1) _ _ h.1 (ap some value);
  first = (h.3, h.4);
  second = omega arith;
}

flags-IsPacket :
    (m : KeyboardModifiers) (key top : ℕ)
    → key < 256
    → key / 2 ^ 7 % 2 ≡ top
    → IsHead m top
    → IsPacket m (some key) (packet_head m (some key)) (key % 2 ^ 7)
flags-IsPacket m key top lt e h =
    subst (λ n. IsPacket m (some key) n (key % 2 ^ 7)) (sym (packet_head-top m key top e))
      (head-IsPacket m key top lt e h)

-- The state packet can be read back: whatever the modifiers, and whichever byte the key is or if
-- none is held, the head gives the modifiers, head and second byte give the key, the head has bit
-- 7 set and the second byte has not.
pub packet_head-IsPacket :
    (m : KeyboardModifiers) (held : Option ℕ)
    → ((key : ℕ) → held ≡ some key → key < 256)
    → IsPacket m held (packet_head m held) (packet_key held)
unfolding packet_key
packet_head-IsPacket m none h = no_key-IsPacket m.shift m.caps_lock m.supershift m.control
packet_head-IsPacket m (some key) h =
    let lt = h key refl in
    let both = flags-IsHead m.shift m.caps_lock m.supershift m.control in
    elim (top-cases key) [
      | inl e ↦ flags-IsPacket m key 0 lt e both.0
      | inr e ↦ flags-IsPacket m key 1 lt e both.1
    ]

-- What a key transition reports: one packet, behind those already pending.
pub record IsReport (k k' : KeyboardKMode) : Type 0 where
  pub packet :
      (head : ℕ) × (low : ℕ) × IsPacket k'.modifiers (last? k'.pressed_keys) head low
      × (k'.pending ≡ k.pending ++ head ∷ low ∷ [])
  pub line : k.rts_asserted ≡ true → k'.tx_countdown ≢ none

last-AllBytes : (l : List ℕ) → AllBytes l → (key : ℕ) → last? l ≡ some key → key < 256
last-AllBytes [] h key e = absurd (ground arith)
last-AllBytes (x ∷ []) h key e = ground arith
last-AllBytes (x ∷ y ∷ l) h key e = last-AllBytes (y ∷ l) h.1 key e

last-append : (l : List ℕ) (code : ℕ) → last? (l ++ code ∷ []) ≡ some code
last-append [] code = refl
last-append (x ∷ []) code = refl
last-append (x ∷ y ∷ l) code = last-append (y ∷ l) code

started :
    (tx : Option ℕ) (rts : Bool) (ch : ℕ)
    → rts ≡ true
    → (if rts && not (has_some tx) then some ch else tx) ≢ none
started none rts ch h = ground arith
started (some c) rts ch h = ground arith

queue-IsReport :
    (k k' : KeyboardKMode)
    → (k.pending ≡ k'.pending)
    → (k.rts_asserted ≡ k'.rts_asserted)
    → AllBytes k'.pressed_keys
    → IsReport k (queue_state_packet k')
unfolding queue_state_packet
queue-IsReport k k' p r h = record {
  packet = (
    packet_head k'.modifiers (last? k'.pressed_keys),
    packet_key (last? k'.pressed_keys),
    packet_head-IsPacket k'.modifiers (last? k'.pressed_keys) (last-AllBytes k'.pressed_keys h),
    ap
        (λ l.
          l
          ++ packet_head k'.modifiers (last? k'.pressed_keys)
            ∷ packet_key (last? k'.pressed_keys)
            ∷ [])
        (sym p),
  );
  line = λ g. started k'.tx_countdown k'.rts_asserted (character_cycles k') (sym r ∙ g);
}

-- Every call for a key of an attached keyboard whose codes are bytes, also one that changes nothing,
-- appends one packet to what is pending, and the packet reads back as the given modifiers and the key
-- that is now held last. The keys held are those before without the first occurrence of this one, in
-- their order, and on a press this one behind them, so that it is the last. If RTS is asserted a
-- transmission is under way afterwards.
pub set_key-IsReport :
    (k : KeyboardKMode) (code : ℕ) (pressed : Bool) (m : KeyboardModifiers)
    → k.attached ≡ true
    → AllBytes k.pressed_keys
    → code < 256
    → IsReport k (set_key k code pressed m)
      × ((set_key k code pressed m).modifiers ≡ m)
      × IsHeldAfter code k.pressed_keys pressed (set_key k code pressed m).pressed_keys
      × (pressed ≡ true → last? (set_key k code pressed m).pressed_keys ≡ some code)
unfolding set_key
set_key-IsReport k code pressed m a h lt =
    let others = remove_first code k.pressed_keys in
    let held = if pressed then others ++ code ∷ [] else others in
    let bytes = remove_first-AllBytes code k.pressed_keys h in
    let k' = record k { pressed_keys = held; modifiers = m } in
    if_false
      (λ (r : KeyboardKMode).
        IsReport k r
        × (r.modifiers ≡ m)
        × IsHeldAfter code k.pressed_keys pressed r.pressed_keys
        × (pressed ≡ true → last? r.pressed_keys ≡ some code))
      (not k.attached) _ _ (ap not a)
      (
        queue-IsReport k k' refl refl (
            if_both AllBytes pressed (others ++ code ∷ []) others
              (append-AllBytes others code bytes lt) bytes),
        unfold queue_state_packet in refl,
        unfold queue_state_packet in held-IsHeldAfter code k.pressed_keys pressed,
        unfold queue_state_packet in
            λ g.
              if_true (λ l. last? l ≡ some code) pressed (others ++ code ∷ []) others g
                (last-append others code),
      )
