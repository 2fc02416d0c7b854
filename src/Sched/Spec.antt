-- ===== src/Sched/Spec.antt =====
-- What `schedule` is to decide, said without its loop: the woken process first, and else the first
-- runnable one in ring order behind the current.
use refix_os.Common.{
  ℕ, zero, suc, ◌<◌, ◌≡◌, not, ◌&&◌, Option, none, some, List, [], ◌∷◌, arith, ◌==◌, if◌then◌else◌,
  false, Bool, true, Bool-cases, Option-cases, inl, inr, ◌≢◌,
}
use refix_os.Proc.{num_processes}
use refix_os.Sched.{
  Sched, Switch, state_of, is_runnable, round_robin, perform_switch, schedule, reschedule,
}

-- The others in ring order.
abbrev pub others : ℕ → List ℕ
others zero = 1 ∷ 2 ∷ []
others (suc zero) = 2 ∷ 0 ∷ []
others (suc (suc _)) = 0 ∷ 1 ∷ []

abbrev pub first_runnable : Sched → List ℕ → Option ℕ
first_runnable s [] = none
first_runnable s (i ∷ is) = if is_runnable (state_of s i) then some i else first_runnable s is

abbrev pub preferred : Sched → ℕ → Option ℕ → Option ℕ
preferred s c none = none
preferred s c (some h) = if not (h == c) && is_runnable (state_of s h) then some h else none

abbrev pub or_else : Option ℕ → Option ℕ → Option ℕ
or_else (some a) b = some a
or_else none b = b

-- The process that takes over from `c`, if any.
abbrev pub chosen : Sched → ℕ → Option ℕ
chosen s c = or_else (preferred s c s.wake_hint) (first_runnable s (others c))

abbrev pub switch_to : Sched → ℕ → Option ℕ → Sched × Switch
switch_to s c none = (s, none)
switch_to s c (some n) = perform_switch s c n

round_robin_lem :
    (s : Sched) (c : ℕ)
    → c < num_processes
    → (s.processes c).pid ≡ c
    → round_robin s c ≡ switch_to s c (first_runnable s (others c))
unfolding round_robin
round_robin_lem s zero lt e = ground arith
round_robin_lem s (suc zero) lt e = ground arith
round_robin_lem s (suc (suc zero)) lt e = ground arith
round_robin_lem s (suc (suc (suc c))) lt e = absurd (omega arith)

-- The flag and the hint are consumed.
abbrev pub cleared : Sched → Sched
cleared s = record s { need_reschedule = false; wake_hint = none }

abbrev pub schedule_ref : Sched → Option ℕ → Bool → Sched × Switch
schedule_ref s none need = (s, none)
schedule_ref s (some c) false = (s, none)
schedule_ref s (some c) true = switch_to (cleared s) c (chosen s c)

schedule-none : (s : Sched) → s.current ≡ none → schedule s ≡ (s, none)
unfolding schedule
schedule-none s e = rw (e, schedule)

schedule_idle : (s : Sched) → s.need_reschedule ≡ false → schedule s ≡ (s, none)
unfolding schedule
schedule_idle s e = ground arith

reschedule_lem :
    (s : Sched) (c : ℕ) (hint : Option ℕ)
    → c < num_processes
    → (s.processes c).pid ≡ c
    → reschedule s c hint
      ≡ switch_to s c (or_else (preferred s c hint) (first_runnable s (others c)))
unfolding reschedule
reschedule_lem s c none lt pid = round_robin_lem s c lt pid
reschedule_lem s c (some h) lt pid =
    elim (Bool-cases (not (h == c) && is_runnable (state_of s h))) [
      | inl e ↦ rw e
      | inr e ↦ rw e (round_robin_lem s c lt pid)
    ]

-- With a rescheduling due, `schedule` calls `context_switch` on the process that the specification
-- chooses, and returns with only the request consumed if it chooses none.
pub schedule_due :
    (s : Sched) (c : ℕ)
    → c < num_processes
    → (s.processes c).pid ≡ c
    → s.current ≡ some c
    → s.need_reschedule ≡ true
    → schedule s ≡ switch_to (cleared s) c (chosen s c)
unfolding schedule
schedule_due s c lt pid cur due = ground (arith, reschedule_lem (cleared s) c s.wake_hint lt pid)

pub schedule_lem :
    (s : Sched)
    → ((c : ℕ) → s.current ≡ some c → (c < num_processes) × ((s.processes c).pid ≡ c))
    → schedule s ≡ schedule_ref s s.current s.need_reschedule
schedule_lem s ok = elim (Option-cases s.current) [
  | inl e ↦ ground (arith, schedule-none s e)
  | inr (c, e) ↦ ground (
    arith,
    schedule_idle s,
    λ (d : s.need_reschedule ≡ true). schedule_due s c (ok c e).0 (ok c e).1 e d,
  )
]

first_runnable_facts :
    (s : Sched) (c n : ℕ)
    → c < num_processes
    → first_runnable s (others c) ≡ some n
    → (n < num_processes) × (n ≢ c) × (is_runnable (state_of s n) ≡ true)
first_runnable_facts s zero n lt e = ground arith
first_runnable_facts s (suc zero) n lt e = ground arith
first_runnable_facts s (suc (suc zero)) n lt e = ground arith
first_runnable_facts s (suc (suc (suc c))) n lt e = absurd (omega arith)

-- Whoever is chosen is another process of the table, and READY or RUNNING.
pub chosen_facts :
    (s : Sched) (c n : ℕ)
    → c < num_processes
    → ((h : ℕ) → s.wake_hint ≡ some h → h < num_processes)
    → chosen s c ≡ some n
    → (n < num_processes) × (n ≢ c) × (is_runnable (state_of s n) ≡ true)
chosen_facts s c n lt hint e = elim (Option-cases (preferred s c s.wake_hint)) [
  | inl p ↦ first_runnable_facts s c n lt (ground arith)
  | inr (m, p) ↦ ground (arith, hint m)
]
