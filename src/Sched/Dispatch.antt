-- ===== src/Sched/Dispatch.antt =====
-- The scheduler's contract: order of dispatch, cancellation, and the calls that keep it.
use edi_emulator.Prelude.{
  ℕ, ◌+◌, ◌^◌, ◌≤◌, ◌<◌, ◌≡◌, refl, sym, arith, leb, ◌==◌, if◌then◌else◌, List, [], ◌∷◌, Option,
  none, some, ◌≢◌, Bool-cases, inl, inr, if_both, if_true, if_false, length,
}
use mathlib.Core.Path.{subst}
use edi_emulator.Sched.{
  Entry, Scheduler, new, advance_to, schedule_at, schedule_in, without, cancel, pop_due, pop,
}
use edi_emulator.Sched.Laws.{
  AllAfter, IsOrdered, IsValid, schedule_at-IsValid, cancel-IsValid, pop-IsValid,
}

abbrev pub AllLater : ℕ → List Entry → Type 0
AllLater now [] = Unit {0}
AllLater now (e ∷ es) = (now < e.deadline) × AllLater now es

-- What a call of `pop_due` may return.
pub data Popped (s : Scheduler) : Scheduler × Option (ℕ × ℕ) → Type 0 where
  idle : AllLater s.now s.queue → Popped s (s, none)
  due :
      (e : Entry) (es : List Entry)
      → s.queue ≡ e ∷ es
      → e.deadline ≤ s.now
      → AllAfter e es
      → Popped s (record s { queue = es }, some (e.deadline, e.id))

after-AllLater :
    (now : ℕ) (e : Entry) (l : List Entry) → now < e.deadline → AllAfter e l → AllLater now l
after-AllLater now e [] h a = tt
after-AllLater now e (f ∷ l) h a = (grind arith, after-AllLater now e l h a.1)

pop-Popped : (q : List Entry) (s : Scheduler) → s.queue ≡ q → IsValid s → Popped s (pop q s)
unfolding pop
pop-Popped [] s e v = idle (subst (AllLater s.now) (sym e) tt)
pop-Popped (f ∷ q) s e v = elim (Bool-cases (leb f.deadline s.now)) [
  | inl b ↦
      let o : IsOrdered (f ∷ q) = subst IsOrdered e v.ordered in
      if_true (Popped s) (leb f.deadline s.now) _ _ b (due f q e (ground arith) o.0)
  | inr b ↦
      let o : IsOrdered (f ∷ q) = subst IsOrdered e v.ordered in
      let late : s.now < f.deadline = ground arith in
      if_false (Popped s) (leb f.deadline s.now) _ _ b
        (idle (subst (AllLater s.now) (sym e) (late, after-AllLater s.now f q late o.0)))
]

-- `pop_due` on a scheduler in order: either it returns nothing, and then every queued deadline is
-- after the current time; or it removes and returns one entry whose deadline has come, and that
-- entry precedes all that stay, by its deadline or, at the same deadline, by its insertion.
pub pop_due-Popped : (s : Scheduler) → IsValid s → Popped s (pop_due s)
unfolding pop_due
pop_due-Popped s v = pop-Popped s.queue s refl v

-- The entries of one event, in their order.
abbrev pub entries_of : ℕ → List Entry → List Entry
entries_of id [] = []
entries_of id (e ∷ es) = let rest = entries_of id es in if e.id == id then e ∷ rest else rest

without-entries_of_self : (id : ℕ) (l : List Entry) → entries_of id (without id l) ≡ []
unfolding without
without-entries_of_self id [] = refl
without-entries_of_self id (e ∷ l) = ground (arith, without-entries_of_self id l)

without-entries_of_other :
    (id j : ℕ) (l : List Entry) → j ≢ id → entries_of j (without id l) ≡ entries_of j l
unfolding without
without-entries_of_other id j [] h = refl
without-entries_of_other id j (e ∷ l) h = ground (arith, without-entries_of_other id j l h)

-- `cancel` removes every entry of its event, and of any other event it keeps the entries and
-- their order; the time and the numbering stay.
pub cancel-entries_of :
    (s : Scheduler) (id : ℕ)
    → (entries_of id (cancel s id).queue ≡ [])
      × ((j : ℕ) → j ≢ id → entries_of j (cancel s id).queue ≡ entries_of j s.queue)
      × ((cancel s id).now ≡ s.now)
      × ((cancel s id).seq ≡ s.seq)
unfolding cancel
cancel-entries_of s id =
    (without-entries_of_self id s.queue, λ j h. without-entries_of_other id j s.queue h, refl, refl)

-- The calls of a scheduler's client.
pub data Call : Type 0 where
  advance cancel_event : ℕ → Call
  at in_delay : ℕ → ℕ → Call
  pop_next : Call

unfoldable pub run_call : Call → Scheduler → Scheduler
run_call (advance t) s = advance_to s t
run_call (cancel_event id) s = cancel s id
run_call (at when id) s = schedule_at s when id
run_call (in_delay delay id) s = schedule_in s delay id
run_call pop_next s = (pop_due s).0

abbrev pub run_calls : List Call → Scheduler → Scheduler
run_calls [] s = s
run_calls (c ∷ cs) s = run_calls cs (run_call c s)

seq-pop : (q : List Entry) (s : Scheduler) → (pop q s).0.seq ≡ s.seq
unfolding pop
seq-pop [] s = refl
seq-pop (e ∷ q) s =
    if_both (λ (r : Scheduler × Option (ℕ × ℕ)). r.0.seq ≡ s.seq) (leb e.deadline s.now) _ _ refl
      refl

-- One call keeps the order, and numbers at most one entry.
run_call-IsValid :
    (c : Call) (s : Scheduler)
    → s.seq + 1 < 2 ^ 64
    → IsValid s
    → IsValid (run_call c s) × ((run_call c s).seq ≤ s.seq + 1)
unfolding run_call advance_to cancel schedule_in pop_due
run_call-IsValid (advance t) s h v = (record { ordered = v.ordered; below = v.below }, omega arith)
run_call-IsValid (cancel_event id) s h v = (cancel-IsValid s id v, omega arith)
run_call-IsValid (at when id) s h v =
    (schedule_at-IsValid s when id h v, unfold schedule_at in omega arith)
run_call-IsValid (in_delay delay id) s h v =
    (schedule_at-IsValid s _ id h v, unfold schedule_at in omega arith)
run_call-IsValid pop_next s h v = (pop-IsValid s.queue s refl v, omega (arith, seq-pop s.queue s))

run_calls-IsValid :
    (cs : List Call) (s : Scheduler)
    → s.seq + length cs < 2 ^ 64
    → IsValid s
    → IsValid (run_calls cs s)
run_calls-IsValid [] s h v = v
run_calls-IsValid (c ∷ cs) s h v =
    let one = run_call-IsValid c s (omega arith) v in
    run_calls-IsValid cs (run_call c s) (omega (arith, one.1)) one.0

-- After any sequence of fewer than `2 ^ 64` calls on a new scheduler, `pop_due` returns nothing,
-- and then every queued deadline is after the current time, or it removes and returns an entry
-- whose deadline has come and that precedes all that stay, by deadline and then by insertion.
pub run_calls-Popped :
    (cs : List Call) → length cs < 2 ^ 64 → Popped (run_calls cs new) (pop_due (run_calls cs new))
unfolding new
run_calls-Popped cs h =
    pop_due-Popped (run_calls cs new)
      (run_calls-IsValid cs new (omega arith) (record { ordered = tt; below = tt }))
