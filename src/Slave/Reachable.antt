-- ===== src/Slave/Reachable.antt =====
-- crates/cdi-core/src/slave.rs: the calls of the SLAVE's clients, in any sequence.
use edi_emulator.Prelude.{ℕ, refl, arith, Bool, List, [], ◌∷◌, none}
use edi_emulator.Keyboard.{KeyboardModifiers}
use edi_emulator.Slave.{
  SlaveHle, PlayerControlKey, initial, reset, set_video_standard, take_attenuation,
  take_host_reset_request, set_cd_rom_xa_bridge, set_disc_present,
}
use edi_emulator.Slave.Channel.{notify_disc_change, read}
use edi_emulator.Slave.Input.{
  set_pointer, move_pointer, set_pointer_absolute, set_player_control_key, set_keyboard_attached,
  set_keyboard_key, set_keyboard_modifiers, tick,
}
use edi_emulator.Slave.Port.{write}
use edi_emulator.Slave.Aligned.{IsValid, kept, empty-ChannelOk, refit_queues}
use edi_emulator.Slave.ReadValid.{notify_disc_change-IsValid, read-IsValid}
use edi_emulator.Slave.InputValid.{
  set_pointer_absolute-IsValid, set_player_control_key-IsValid, set_keyboard_attached-IsValid,
  set_keyboard_key-IsValid, set_keyboard_modifiers-IsValid, tick-IsValid,
}
use edi_emulator.Slave.PortValid.{write-IsValid}

pub data Operation : Type 0 where
  restart : Operation
  video_standard xa_bridge disc_at_start attach_keyboard : Bool → Operation
  fetch_attenuation fetch_host_reset : Operation
  change_disc : Bool → Bool → Operation
  point move point_absolute : ℕ → ℕ → ℕ → Operation
  player_key : PlayerControlKey → Bool → Operation
  key : ℕ → Bool → KeyboardModifiers → Operation
  modifiers : KeyboardModifiers → Operation
  pass read_from : ℕ → Operation
  write_to : ℕ → ℕ → Operation

unfoldable pub perform : Operation → SlaveHle → SlaveHle
perform restart s = reset s
perform (video_standard b) s = set_video_standard s b
perform (xa_bridge b) s = set_cd_rom_xa_bridge s b
perform (disc_at_start b) s = set_disc_present s b
perform (attach_keyboard b) s = set_keyboard_attached s b
perform fetch_attenuation s = (take_attenuation s).0
perform fetch_host_reset s = (take_host_reset_request s).0
perform (change_disc b r) s = notify_disc_change s b r
perform (point x y b) s = set_pointer s x y b
perform (move x y b) s = move_pointer s x y b
perform (point_absolute x y b) s = set_pointer_absolute s x y b
perform (player_key k b) s = set_player_control_key s k b
perform (key c b m) s = set_keyboard_key s c b m
perform (modifiers m) s = set_keyboard_modifiers s m
perform (pass n) s = tick s n
perform (read_from i) s = (read s i).0
perform (write_to i b) s = write s i b

abbrev pub perform_all : List Operation → SlaveHle → SlaveHle
perform_all [] s = s
perform_all (o ∷ os) s = perform_all os (perform o s)

initial-IsValid : (v : ℕ × ℕ) (pal : Bool) → IsValid (initial v pal)
unfolding initial
initial-IsValid v pal =
    let empty = empty-ChannelOk none refl in
    record {
      fits = record {
        aligned = (empty, (empty, (empty, (empty, tt))));
        four = refl;
        line = refl;
        x_le = omega arith;
        y_le = omega arith;
        input_length = refl;
        replies = tt;
        drive = tt;
      };
    }

reset-IsValid : (s : SlaveHle) → IsValid (reset s)
unfolding reset
reset-IsValid s = let v = initial-IsValid (0x32, 0x31) Bool.true in kept v.fits

perform-IsValid : (o : Operation) (s : SlaveHle) → IsValid s → IsValid (perform o s)
unfolding perform set_video_standard set_cd_rom_xa_bridge set_disc_present take_attenuation
    take_host_reset_request set_pointer move_pointer
perform-IsValid restart s v = reset-IsValid s
perform-IsValid (video_standard b) s v = kept v.fits
perform-IsValid (xa_bridge b) s v = kept v.fits
perform-IsValid (disc_at_start b) s v =
    kept (refit_queues v.fits s.pending_channel2_readbacks [] v.fits.replies tt)
perform-IsValid (attach_keyboard b) s v = set_keyboard_attached-IsValid s b v
perform-IsValid fetch_attenuation s v = kept v.fits
perform-IsValid fetch_host_reset s v = kept v.fits
perform-IsValid (change_disc b r) s v = notify_disc_change-IsValid s b r v
perform-IsValid (point x y b) s v = kept v.fits
perform-IsValid (move x y b) s v = kept v.fits
perform-IsValid (point_absolute x y b) s v = set_pointer_absolute-IsValid s x y b v
perform-IsValid (player_key k b) s v = set_player_control_key-IsValid s k b v
perform-IsValid (key c b m) s v = set_keyboard_key-IsValid s c b m v
perform-IsValid (modifiers m) s v = set_keyboard_modifiers-IsValid s m v
perform-IsValid (pass n) s v = tick-IsValid s n v
perform-IsValid (read_from i) s v = read-IsValid s i v
perform-IsValid (write_to i b) s v = write-IsValid s i b v

perform_all-IsValid : (os : List Operation) (s : SlaveHle) → IsValid s → IsValid (perform_all os s)
perform_all-IsValid [] s v = v
perform_all-IsValid (o ∷ os) s v = perform_all-IsValid os (perform o s) (perform-IsValid o s v)

-- After any sequence of calls on a new microcontroller, with any video standard and version: every
-- channel's counts fit its buffer, delays only run for a channel with a response, replies are 1 to 4
-- bytes, the interrupt line is up exactly for its pending channels, the pointer is on the screen and
-- the input buffer has its 17 bytes.
pub perform_all-initial :
    (version : ℕ × ℕ) (pal : Bool) (os : List Operation)
    → IsValid (perform_all os (initial version pal))
perform_all-initial version pal os = perform_all-IsValid os _ (initial-IsValid version pal)
