-- ===== src/Sched.antt =====
-- crates/cdi-core/src/sched.rs: the event queue. `BinaryHeap` is the standard library's: what is
-- popped is a least entry, so the queue is kept as the list of its entries in the order in which
-- they are popped, and a push inserts at its place.
pub mod Laws
pub mod Dispatch
use edi_emulator.Prelude.{
  ℕ, ◌+◌, ◌*◌, ◌/◌, Bool, true, false, not, ◌&&◌, ◌||◌, ltb, leb, ◌==◌, if◌then◌else◌, List, [],
  ◌∷◌, Option, none, some, u64,
}

abbrev pub pal_cpu_hz : ℕ
pal_cpu_hz = 30_000_000 / 2

abbrev pub ntsc_cpu_hz : ℕ
ntsc_cpu_hz = 30_209_800 / 2

unfoldable pub cpu_clock_hz : Bool → ℕ
cpu_clock_hz pal = if pal then pal_cpu_hz else ntsc_cpu_hz

pub record Entry : Type 0 where
  pub deadline : ℕ
  pub sequence : ℕ
  pub id : ℕ

pub record Scheduler : Type 0 where
  pub now : ℕ
  pub queue : List Entry
  pub seq : ℕ

unfoldable pub new : Scheduler
new = record { now = 0; queue = []; seq = 0 }

-- The order of the tuples (deadline, sequence, id).
unfoldable pub before : Entry → Entry → Bool
before e f =
    ltb e.deadline f.deadline
    || (e.deadline == f.deadline
        && (ltb e.sequence f.sequence || (e.sequence == f.sequence && leb e.id f.id)))

unfoldable pub push : Entry → List Entry → List Entry
push e [] = e ∷ []
push e (f ∷ fs) = if before e f then e ∷ f ∷ fs else f ∷ push e fs

unfoldable pub advance_to : Scheduler → ℕ → Scheduler
advance_to s t = record s { now = t }

unfoldable pub schedule_at : Scheduler → ℕ → ℕ → Scheduler
unfolding push
schedule_at s when id = record s {
  queue = push (record { deadline = when; sequence = s.seq; id = id }) s.queue;
  seq = u64 (s.seq + 1);
}

unfoldable pub schedule_in : Scheduler → ℕ → ℕ → Scheduler
unfolding schedule_at
schedule_in s delay id = schedule_at s (u64 (s.now + delay)) id

unfoldable pub without : ℕ → List Entry → List Entry
without id [] = []
without id (e ∷ es) = let rest = without id es in if e.id == id then rest else e ∷ rest

unfoldable pub cancel : Scheduler → ℕ → Scheduler
unfolding without
cancel s id = record s { queue = without id s.queue }

abbrev pub peek : List Entry → Option Entry
peek [] = none
peek (e ∷ es) = some e

unfoldable pub next_deadline : Scheduler → Option ℕ
next_deadline s = elim (peek s.queue) [ none ↦ none | some e ↦ some e.deadline ]

-- Pop the next event due at or before the current time.
unfoldable pub pop : List Entry → Scheduler → Scheduler × Option (ℕ × ℕ)
pop [] s = (s, none)
pop (e ∷ es) s =
    if leb e.deadline s.now then (record s { queue = es }, some (e.deadline, e.id)) else (s, none)

unfoldable pub pop_due : Scheduler → Scheduler × Option (ℕ × ℕ)
unfolding pop
pop_due s = pop s.queue s
