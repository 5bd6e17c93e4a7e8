-- ===== src/Slave/Query.antt =====
-- crates/cdi-core/src/slave.rs: the status queries of channel 3 and their replies on channel 2.
use edi_emulator.Prelude.{
  ℕ, ◌+◌, ◌≤◌, ◌≡◌, refl, arith, leb, if◌then◌else◌, if_false, List, [], ◌∷◌, Option,
}
use edi_emulator.Slave.{SlaveHle}
use edi_emulator.Slave.Port.{write, write_ch3, start_ch3, reply, store, restart}
use edi_emulator.Slave.Aligned.{IsValid, kept}
use edi_emulator.Slave.PortValid.{store-IsValid}
use edi_emulator.Slave.Served.{stream, IsLive}
use edi_emulator.Slave.Stream.{IsQueued, queue_channel2_readback-IsQueued}

-- A query and the byte that answers it.
pub data IsAnswer (s : SlaveHle) : ℕ → ℕ → Type 0 where
  revision : IsAnswer s 0xf0 s.version.0
  device_class : IsAnswer s 0xf3 (if s.keyboard_attached then 5 else 1)
  boot : IsAnswer s 0xf4 s.boot_status
  video : IsAnswer s 0xf6 s.video_status

restarted-IsQueued :
    (s : SlaveHle) (l : List ℕ) (q : SlaveHle) → IsQueued s l q → IsQueued s l (restart q)
unfolding stream IsLive
restarted-IsQueued s l q h = record { order = h.order; live = h.live }

reply-IsQueued :
    (s : SlaveHle) (byte : ℕ) (d : Option ℕ) (a b c cmd : ℕ)
    → 0xf0 ≤ cmd
    → IsValid s
    → IsQueued s (a ∷ b ∷ []) (reply (store s byte) d (a ∷ b ∷ c ∷ 0 ∷ []) cmd)
unfolding reply store
reply-IsQueued s byte d a b c cmd h v =
    let stored = store-IsValid s byte v in
    let q =
      queue_channel2_readback-IsQueued (store s byte) d 2 (a ∷ b ∷ c ∷ 0 ∷ []) cmd
        (kept stored.fits)
        (record { some_bytes = omega arith; room = omega arith; width = refl; query = h }) in
    record {
      order = (restarted-IsQueued (store s byte) (a ∷ b ∷ []) _ q).order;
      live = (restarted-IsQueued (store s byte) (a ∷ b ∷ []) _ q).live;
    }

started-IsQueued :
    (s : SlaveHle) (query answer : ℕ)
    → IsValid s
    → IsAnswer s query answer
    → IsQueued s (query ∷ answer ∷ []) (start_ch3 (store s query) query)
unfolding start_ch3 store
started-IsQueued s _ _ v revision =
    reply-IsQueued s 0xf0 _ 0xf0 s.version.0 s.version.1 0xf0 (omega arith) v
started-IsQueued s _ _ v device_class = reply-IsQueued s 0xf3 _ 0xf3 _ 0xff 0xf3 (omega arith) v
started-IsQueued s _ _ v boot = reply-IsQueued s 0xf4 _ 0xf4 s.boot_status 0 0xf4 (omega arith) v
started-IsQueued s _ _ v video = reply-IsQueued s 0xf6 _ 0xf6 s.video_status 0 0xf6 (omega arith) v

-- A query written to channel 3 at the beginning of a command puts the query and its answer, two
-- bytes, behind the replies that wait on channel 2 and before the keyboard's packets.
pub write-IsQueued :
    (s : SlaveHle) (query answer : ℕ)
    → IsValid s
    → s.in_index ≡ 0
    → IsAnswer s query answer
    → IsQueued s (query ∷ answer ∷ []) (write s 3 query)
unfolding write write_ch3 store
write-IsQueued s query answer v e a =
    if_false (IsQueued s (query ∷ answer ∷ [])) (leb 2 (s.in_index + 1)) _
      (start_ch3 (store s query) query) (ground arith) (started-IsQueued s query answer v a)
