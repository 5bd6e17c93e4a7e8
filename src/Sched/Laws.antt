-- ===== src/Sched/Laws.antt =====
-- Dispatch order: due events come out by deadline, and by insertion where deadlines are equal.
use edi_emulator.Prelude.{
  ℕ, ◌+◌, ◌%◌, ◌^◌, ◌<◌, ◌≡◌, arith, true, false, leb, ◌==◌, List, [], ◌∷◌, Option, ◌⊎◌, inl, inr,
  Bool-cases, if_true, if_false, if_both,
}
use mathlib.Core.Path.{subst}
use edi_emulator.Sched.{Entry, Scheduler, before, push, schedule_at, without, cancel, pop}

-- An entry that may stand before another: an earlier deadline, or the same and an earlier number.
abbrev pub Precedes : Entry → Entry → Type 0
Precedes e f = (e.deadline < f.deadline) ⊎ ((e.deadline ≡ f.deadline) × (e.sequence < f.sequence))

abbrev pub AllAfter : Entry → List Entry → Type 0
AllAfter e [] = Unit {0}
AllAfter e (f ∷ fs) = Precedes e f × AllAfter e fs

abbrev pub IsOrdered : List Entry → Type 0
IsOrdered [] = Unit {0}
IsOrdered (e ∷ es) = AllAfter e es × IsOrdered es

abbrev pub AllBelow : ℕ → List Entry → Type 0
AllBelow n [] = Unit {0}
AllBelow n (e ∷ es) = (e.sequence < n) × AllBelow n es

-- The queue is in dispatch order and its numbers are below the next one.
pub record IsValid (s : Scheduler) : Type 0 where
  pub ordered : IsOrdered s.queue
  pub below : AllBelow s.seq s.queue

Precedes-trans : (e f g : Entry) → Precedes e f → Precedes f g → Precedes e g
Precedes-trans e f g p q = grind arith

AllAfter-trans : (e f : Entry) (l : List Entry) → Precedes e f → AllAfter f l → AllAfter e l
AllAfter-trans e f [] p h = tt
AllAfter-trans e f (g ∷ l) p h = (Precedes-trans e f g p h.0, AllAfter-trans e f l p h.1)

below_weaken : (n : ℕ) (l : List Entry) → AllBelow n l → AllBelow (n + 1) l
below_weaken n [] h = tt
below_weaken n (e ∷ l) h = (omega arith, below_weaken n l h.1)

-- A new entry has a greater number than the queued ones.
before-Precedes : (e f : Entry) → f.sequence < e.sequence → before e f ≡ true → Precedes e f
unfolding before
before-Precedes e f h b = ground arith

not-before-Precedes : (e f : Entry) → f.sequence < e.sequence → before e f ≡ false → Precedes f e
unfolding before
not-before-Precedes e f h b = ground arith

push-AllAfter : (g e : Entry) (l : List Entry) → Precedes g e → AllAfter g l → AllAfter g (push e l)
unfolding push
push-AllAfter g e [] p h = (p, tt)
push-AllAfter g e (f ∷ l) p h = elim (Bool-cases (before e f)) [
  | inl b ↦ if_true (AllAfter g) (before e f) (e ∷ f ∷ l) (f ∷ push e l) b (p, h)
  | inr b ↦
      if_false (AllAfter g) (before e f) (e ∷ f ∷ l) (f ∷ push e l) b
        (h.0, push-AllAfter g e l p h.1)
]

push-IsOrdered :
    (e : Entry) (l : List Entry) → AllBelow e.sequence l → IsOrdered l → IsOrdered (push e l)
unfolding push
push-IsOrdered e [] b h = (tt, tt)
push-IsOrdered e (f ∷ l) b h = elim (Bool-cases (before e f)) [
  | inl t ↦
      let p = before-Precedes e f b.0 t in
      if_true IsOrdered (before e f) (e ∷ f ∷ l) (f ∷ push e l) t
        ((p, AllAfter-trans e f l p h.0), h)
  | inr t ↦
      if_false IsOrdered (before e f) (e ∷ f ∷ l) (f ∷ push e l) t
        (push-AllAfter f e l (not-before-Precedes e f b.0 t) h.0, push-IsOrdered e l b.1 h.1)
]

push-AllBelow :
    (n : ℕ) (e : Entry) (l : List Entry) → e.sequence < n → AllBelow n l → AllBelow n (push e l)
unfolding push
push-AllBelow n e [] p h = (p, tt)
push-AllBelow n e (f ∷ l) p h =
    if_both (AllBelow n) (before e f) (e ∷ f ∷ l) (f ∷ push e l) (p, h)
      (h.0, push-AllBelow n e l p h.1)

pub schedule_at-IsValid :
    (s : Scheduler) (when id : ℕ) → s.seq + 1 < 2 ^ 64 → IsValid s → IsValid (schedule_at s when id)
unfolding schedule_at
schedule_at-IsValid s when id fits v =
    let e : Entry = record { deadline = when; sequence = s.seq; id = id } in
    let next : s.seq + 1 ≡ (s.seq + 1) % 2 ^ 64 = omega arith in
    record {
      ordered = push-IsOrdered e s.queue v.below v.ordered;
      below =
          subst (λ n. AllBelow n (push e s.queue)) next
            (push-AllBelow (s.seq + 1) e s.queue (omega arith)
              (below_weaken s.seq s.queue v.below));
    }

without-AllAfter : (e : Entry) (id : ℕ) (l : List Entry) → AllAfter e l → AllAfter e (without id l)
unfolding without
without-AllAfter e id [] h = tt
without-AllAfter e id (f ∷ l) h =
    let rest = without-AllAfter e id l h.1 in
    if_both (AllAfter e) (f.id == id) (without id l) (f ∷ without id l) rest (h.0, rest)

without-IsOrdered : (id : ℕ) (l : List Entry) → IsOrdered l → IsOrdered (without id l)
unfolding without
without-IsOrdered id [] h = tt
without-IsOrdered id (f ∷ l) h =
    let rest = without-IsOrdered id l h.1 in
    if_both IsOrdered (f.id == id) (without id l) (f ∷ without id l) rest
      (without-AllAfter f id l h.0, rest)

without-AllBelow : (n id : ℕ) (l : List Entry) → AllBelow n l → AllBelow n (without id l)
unfolding without
without-AllBelow n id [] h = tt
without-AllBelow n id (f ∷ l) h =
    let rest = without-AllBelow n id l h.1 in
    if_both (AllBelow n) (f.id == id) (without id l) (f ∷ without id l) rest (h.0, rest)

pub cancel-IsValid : (s : Scheduler) (id : ℕ) → IsValid s → IsValid (cancel s id)
unfolding cancel
cancel-IsValid s id v = record {
  ordered = without-IsOrdered id s.queue v.ordered;
  below = without-AllBelow s.seq id s.queue v.below;
}

pub pop-IsValid : (q : List Entry) (s : Scheduler) → s.queue ≡ q → IsValid s → IsValid (pop q s).0
unfolding pop
pop-IsValid [] s e v = v
pop-IsValid (f ∷ q) s e v =
    let o : IsOrdered (f ∷ q) = subst IsOrdered e v.ordered in
    let b : AllBelow s.seq (f ∷ q) = subst (AllBelow s.seq) e v.below in
    if_both (λ (r : Scheduler × Option (ℕ × ℕ)). IsValid r.0) (leb f.deadline s.now) _ _
      (record { ordered = o.1; below = b.1 }) v
