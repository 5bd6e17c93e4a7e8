-- ===== src/Tests/SchedRuns.antt =====
-- The scheduler at concrete queues (crates/cdi-core/src/sched.rs).
use edi_emulator.Prelude.{ℕ, ◌≡◌, arith, inl, ◌≢◌, List, [], ◌∷◌}
use edi_emulator.Sched.{Scheduler, pop_due, cancel, new}
use edi_emulator.Sched.Laws.{IsValid}
use edi_emulator.Sched.Dispatch.{
  Popped, pop_due-Popped, Call, at, in_delay, advance, pop_next, run_calls, run_calls-Popped,
  entries_of, cancel-entries_of,
}

abbrev three_events : List Call
three_events = at 20 1 ∷ at 10 2 ∷ in_delay 10 3 ∷ advance 15 ∷ pop_next ∷ []

run_calls-Popped_example :
    Popped (run_calls three_events new) (pop_due (run_calls three_events new))
run_calls-Popped_example = run_calls-Popped three_events (omega arith)

abbrev queued : Scheduler
queued = record {
  now = 12;
  queue =
      record { deadline = 10; sequence = 0; id = 2 }
      ∷ record { deadline = 20; sequence = 1; id = 1 }
      ∷ [];
  seq = 2;
}

queued-IsValid : IsValid queued
queued-IsValid = record {
  ordered = ((inl (omega arith), tt), (tt, tt));
  below = (omega arith, (omega arith, tt));
}

pop_due-Popped_example : Popped queued (pop_due queued)
pop_due-Popped_example = pop_due-Popped queued queued-IsValid

cancel-entries_of_example :
    (entries_of 2 (cancel queued 2).queue ≡ [])
    × ((j : ℕ) → j ≢ 2 → entries_of j (cancel queued 2).queue ≡ entries_of j queued.queue)
    × ((cancel queued 2).now ≡ 12)
    × ((cancel queued 2).seq ≡ 2)
cancel-entries_of_example = cancel-entries_of queued 2
