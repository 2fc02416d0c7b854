-- ===== src/Sched/History.antt =====
-- Any sequence of scheduler operations, and what it cannot do: bring a dead process back.
use refix_os.Sched.{
  scheduler_tick, Sched, state_of, scheduler_wake_reader, schedule, scheduler_block_on_input,
  asleep,
}
use refix_os.Common.{
  ℕ, List, ◌∷◌, ◌≡◌, [], arith, Option, Bool, ◌≢◌, some, Option-cases, inl, inr, none, false, true,
  refl, ◌++◌, ◌∙◌, ap, sym,
}
use refix_os.Sched.Invariant.{
  IsValid, scheduler_tick-IsValid, wake_reader-IsValid, schedule-IsValid, block_on_input-IsValid,
  set_dead-IsValid, asleep-IsValid,
}
use refix_os.Proc.{set_state, dead}
use refix_os.Sched.Decision.{decision, schedule-decision}
use refix_os.Sched.Spec.{chosen, chosen_facts}
use refix_os.Sched.Wakeup.{block_eq, block_none}

-- The calls that reach kernel/sched/scheduler.c, and the `state = TASK_DEAD` of sys_kill, sys_exit
-- and user_fault_kill.
pub data Op : Type 0 where
  tick wake reschedules blocks : Op
  kills : ℕ → Op

unfoldable pub step : Sched → Op → Sched
step s tick = scheduler_tick s
step s wake = scheduler_wake_reader s
step s reschedules = (schedule s).0
step s blocks = (scheduler_block_on_input s).0
step s (kills i) = record s { processes = set_state s.processes i dead }

pub run : Sched → List Op → Sched
run s [] = s
run s (o ∷ os) = run (step s o) os

pub step-IsValid : (s : Sched) (o : Op) → IsValid s → IsValid (step s o)
unfolding step
step-IsValid s tick v = scheduler_tick-IsValid v
step-IsValid s wake v = wake_reader-IsValid s v
step-IsValid s reschedules v = schedule-IsValid s v
step-IsValid s blocks v = block_on_input-IsValid s v
step-IsValid s (kills i) v = set_dead-IsValid s i v

-- Every operation keeps the invariant, so every history does.
run-IsValid : (s : Sched) (os : List Op) → IsValid s → IsValid (run s os)
unfolding run
run-IsValid s [] v = v
run-IsValid s (o ∷ os) v = run-IsValid (step s o) os (step-IsValid s o v)

-- Dead, and without the processor.
pub record IsRetired (s : Sched) (i : ℕ) : Type 0 where
  pub gone : state_of s i ≡ dead
  pub off : s.current ≢ some i

schedule-IsRetired : (s : Sched) (i : ℕ) → IsValid s → IsRetired s i → IsRetired (schedule s).0 i
schedule-IsRetired s i v d = rw (schedule-decision s v) (cases s.current s.need_reschedule refl)
  where
    cases : (cur : Option ℕ) (due : Bool) → s.current ≡ cur → IsRetired (decision s cur due).0 i
    cases none due e = d
    cases (some c) false e = d
    cases (some c) true e = elim (Option-cases (chosen s c)) [
      | inl q ↦ rw q (record { gone = d.gone; off = d.off })
      | inr (n, q) ↦
          let f = chosen_facts s c n (v.current_in c e) v.hint_in q in
          rw q (record { gone = ground (arith, d.gone, d.off); off = λ h. ground arith })
    ]

block-IsRetired :
    (s : Sched) (i : ℕ) → IsValid s → IsRetired s i → IsRetired (scheduler_block_on_input s).0 i
block-IsRetired s i v d = elim (Option-cases s.current) [
  | inl e ↦ rw (block_none s e) d
  | inr (c, e) ↦ rw (block_eq s c e) (
      schedule-IsRetired (asleep s c) i (asleep-IsValid s c e v)
        (record { gone = ground (arith, d.gone, d.off); off = d.off }))
]

pub step-IsRetired :
    (s : Sched) (i : ℕ) (o : Op) → IsValid s → IsRetired s i → IsRetired (step s o) i
unfolding step scheduler_tick scheduler_wake_reader
step-IsRetired s i tick v d = record { gone = d.gone; off = d.off }
step-IsRetired s i wake v d = record { gone = ground arith; off = ground arith }
step-IsRetired s i reschedules v d = schedule-IsRetired s i v d
step-IsRetired s i blocks v d = block-IsRetired s i v d
step-IsRetired s i (kills j) v d = record { gone = ground arith; off = d.off }

-- A dead process that has lost the processor stays dead and never gets it back, in any history.
run-IsRetired :
    (s : Sched) (i : ℕ) (os : List Op) → IsValid s → IsRetired s i → IsRetired (run s os) i
unfolding run
run-IsRetired s i [] v d = d
run-IsRetired s i (o ∷ os) v d =
    run-IsRetired (step s o) i os (step-IsValid s o v) (step-IsRetired s i o v d)

run-append : (s : Sched) (os ps : List Op) → run s (os ++ ps) ≡ run (run s os) ps
unfolding run
run-append s [] ps = refl
run-append s (o ∷ os) ps = run-append (step s o) os ps

-- Scheduler state t comes about from s by scheduler operations.
abbrev pub Follows : Sched → Sched → Type 0
Follows s t = (os : List Op) × (t ≡ run s os)

pub Follows-refl : (s : Sched) → Follows s s
unfolding run
Follows-refl s = ([], refl)

pub Follows-step : (s : Sched) (o : Op) → Follows s (step s o)
unfolding run
Follows-step s o = (o ∷ [], refl)

pub Follows-trans : (s t u : Sched) → Follows s t → Follows t u → Follows s u
Follows-trans s t u (os, p) (ps, q) =
    (os ++ ps, q ∙ (ap (λ x. run x ps) p ∙ sym (run-append s os ps)))

Follows-IsValid : (s t : Sched) → Follows s t → IsValid s → IsValid t
Follows-IsValid s t (os, p) v = rw p (run-IsValid s os v)

pub Follows-IsRetired :
    (s t : Sched) (i : ℕ) → Follows s t → IsValid s → IsRetired s i → IsRetired t i
Follows-IsRetired s t i (os, p) v d = rw p (run-IsRetired s i os v d)

-- A death, a request for rescheduling, and the rescheduling.
pub killed-Follows :
    (s : Sched) (i : ℕ) → Follows s (step (step (step s (kills i)) tick) reschedules)
unfolding run
killed-Follows s i = (kills i ∷ tick ∷ reschedules ∷ [], refl)

abbrev pub IsActive : Sched → Type 0
IsActive s = (c : ℕ) × (s.current ≡ some c)

schedule-IsActive : (s : Sched) → IsValid s → IsActive s → IsActive (schedule s).0
schedule-IsActive s v (c, cur) = rw (schedule-decision s v) (cases s.current s.need_reschedule cur)
  where
    cases : (o : Option ℕ) (due : Bool) → o ≡ some c → IsActive (decision s o due).0
    cases none due e = absurd (ground (arith, e))
    cases (some d) false e = (c, cur)
    cases (some d) true e = elim (Option-cases (chosen s d)) [
      | inl q ↦ rw q (c, cur)
      | inr (n, q) ↦ rw q (n, refl)
    ]

block-IsActive : (s : Sched) → IsValid s → IsActive s → IsActive (scheduler_block_on_input s).0
block-IsActive s v (c, cur) =
    rw (block_eq s c cur) (schedule-IsActive (asleep s c) (asleep-IsValid s c cur v) (c, cur))

step-IsActive : (s : Sched) (o : Op) → IsValid s → IsActive s → IsActive (step s o)
unfolding step scheduler_tick scheduler_wake_reader
step-IsActive s tick v a = a
step-IsActive s wake v (c, cur) = (c, ground arith)
step-IsActive s reschedules v a = schedule-IsActive s v a
step-IsActive s blocks v a = block-IsActive s v a
step-IsActive s (kills i) v a = a

run-IsActive : (s : Sched) (os : List Op) → IsValid s → IsActive s → IsActive (run s os)
unfolding run
run-IsActive s [] v a = a
run-IsActive s (o ∷ os) v a =
    run-IsActive (step s o) os (step-IsValid s o v) (step-IsActive s o v a)

-- Once there is a current process there always is one.
pub Follows-IsActive : (s t : Sched) → Follows s t → IsValid s → IsActive s → IsActive t
Follows-IsActive s t (os, p) v a = rw p (run-IsActive s os v a)
