-- ===== src/Sched/Progress.antt =====
-- What the scheduler promises to the processes: turns, wake-ups, and rest for the dead.
use refix_os.Sched.{Sched, scheduler_tick, schedule, is_runnable, state_of}
use refix_os.Sched.Invariant.{IsValid, schedule-IsValid, scheduler_tick-IsValid}
use refix_os.Common.{
  ℕ, ◌≡◌, some, none, arith, true, false, ◌<◌, ◌≢◌, ◌⊎◌, zero, inl, ◌∙◌, suc, Bool-cases, ap, inr,
  refl,
}
use refix_os.Sched.Decision.{hand_over, schedule-decision}
use refix_os.Sched.Spec.{or_else, cleared, chosen, first_runnable, others, chosen_facts}
use refix_os.Proc.{num_processes}

-- One time slice: the timer raises the flag, and the tail of the interrupt handler reschedules.
abbrev pub slice : Sched → Sched
slice s = (schedule (scheduler_tick s)).0

slice_eq :
    (s : Sched) (c : ℕ)
    → IsValid s
    → s.current ≡ some c
    → slice s ≡ (hand_over (cleared (scheduler_tick s)) c (chosen (scheduler_tick s) c)).0
unfolding scheduler_tick
slice_eq s c v e = ground (arith, schedule-decision (scheduler_tick s) (scheduler_tick-IsValid v))

slice-IsValid : (s : Sched) → IsValid s → IsValid (slice s)
slice-IsValid s v = schedule-IsValid (scheduler_tick s) (scheduler_tick-IsValid v)

-- The cursor after one slice with no hint pending.
slice-current :
    (s : Sched) (c : ℕ)
    → IsValid s
    → s.current ≡ some c
    → s.wake_hint ≡ none
    → (slice s).current ≡ or_else (first_runnable s (others c)) (some c)
unfolding scheduler_tick
slice-current s c v e h = ground (arith, slice_eq s c v e)

slice-wake_hint : (s : Sched) (c : ℕ) → IsValid s → s.current ≡ some c → (slice s).wake_hint ≡ none
unfolding scheduler_tick
slice-wake_hint s c v e = ground (arith, slice_eq s c v e)

slice-is_runnable :
    (s : Sched) (c i : ℕ)
    → IsValid s
    → s.current ≡ some c
    → is_runnable (state_of s i) ≡ true
    → is_runnable (state_of (slice s) i) ≡ true
unfolding scheduler_tick
slice-is_runnable s c i v e r = ground (arith, slice_eq s c v e)

-- Dead and blocked processes stay so across a slice, whoever runs.
slice_keeps :
    (s : Sched) (c i : ℕ)
    → IsValid s
    → s.current ≡ some c
    → is_runnable (state_of s i) ≡ false
    → state_of (slice s) i ≡ state_of s i
unfolding scheduler_tick
slice_keeps s c i v e r = ground (arith, slice_eq s c v e, chosen_facts (scheduler_tick s) c)

-- The first in ring order is the process asked for, or the one that it follows.
pub ring_turn :
    (s : Sched) (c i : ℕ)
    → c < num_processes
    → i < num_processes
    → is_runnable (state_of s i) ≡ true
    → i ≢ c
    → (first_runnable s (others c) ≡ some i)
      ⊎ ((n : ℕ) × (first_runnable s (others c) ≡ some n)
          × ((t : Sched)
              → is_runnable (state_of t i) ≡ true
              → first_runnable t (others n) ≡ some i))
ring_turn s zero zero lc li r ne = absurd (ne refl)
ring_turn s zero (suc zero) lc li r ne = inl (ground arith)
ring_turn s zero (suc (suc zero)) lc li r ne = elim (Bool-cases (is_runnable (state_of s 1))) [
  | inl e ↦ inr (1, ground arith, λ t q. ground arith)
  | inr e ↦ inl (ground arith)
]
ring_turn s (suc zero) zero lc li r ne = elim (Bool-cases (is_runnable (state_of s 2))) [
  | inl e ↦ inr (2, ground arith, λ t q. ground arith)
  | inr e ↦ inl (ground arith)
]
ring_turn s (suc zero) (suc zero) lc li r ne = absurd (ne refl)
ring_turn s (suc zero) (suc (suc zero)) lc li r ne = inl (ground arith)
ring_turn s (suc (suc zero)) zero lc li r ne = inl (ground arith)
ring_turn s (suc (suc zero)) (suc zero) lc li r ne =
    elim (Bool-cases (is_runnable (state_of s 0))) [
      | inl e ↦ inr (0, ground arith, λ t q. ground arith)
      | inr e ↦ inl (ground arith)
    ]
ring_turn s (suc (suc zero)) (suc (suc zero)) lc li r ne = absurd (ne refl)
ring_turn s (suc (suc (suc c))) i lc li r ne = absurd (omega arith)
ring_turn s c (suc (suc (suc i))) lc li r ne = absurd (omega arith)

-- No starvation by the clock alone: from a valid state with no wake-up pending, a runnable process
-- that is not current has become current after one time slice or after two.
two_slices :
    (s : Sched) (c i : ℕ)
    → i < num_processes
    → IsValid s
    → s.current ≡ some c
    → s.wake_hint ≡ none
    → is_runnable (state_of s i) ≡ true
    → i ≢ c
    → ((slice s).current ≡ some i) ⊎ ((slice (slice s)).current ≡ some i)
two_slices s c i li v cur h r ne = elim (ring_turn s c i (v.current_in c cur) li r ne) [
  | inl first ↦ inl (slice-current s c v cur h ∙ ap (λ o. or_else o (some c)) first)
  | inr (n, first, later) ↦
      let now : (slice s).current ≡ some n =
        slice-current s c v cur h ∙ ap (λ o. or_else o (some c)) first in
      inr (
        slice-current (slice s) n (slice-IsValid s v) now (slice-wake_hint s c v cur)
        ∙ ap (λ o. or_else o (some n)) (later (slice s) (slice-is_runnable s c i v cur r)))
]
