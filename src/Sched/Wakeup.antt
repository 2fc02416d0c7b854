-- ===== src/Sched/Wakeup.antt =====
-- Sleeping on input and being woken.
use refix_os.Sched.{
  scheduler_wake_reader, scheduler_block_on_input, Sched, schedule, state_of, is_runnable, asleep,
}
use refix_os.Common.{
  ℕ, ◌≡◌, some, ◌≢◌, none, arith, false, ◌<◌, Option-cases, inl, inr, ◌∙◌, ap, refl, true,
}
use refix_os.Proc.{blocked, num_processes}
use refix_os.Sched.Invariant.{IsValid, wake_reader-IsValid, asleep-IsValid}
use refix_os.Sched.Decision.{hand_over, schedule-decision, decision}
use refix_os.Sched.Spec.{cleared, chosen, chosen_facts, schedule_due, switch_to}
use refix_os.Sched.Progress.{ring_turn}

-- A byte for the sleeping reader puts it next: the rescheduling that follows hands over to it at
-- once, before any process in ring order.
pub wake_preempts :
    (s : Sched) (c p : ℕ)
    → IsValid s
    → s.current ≡ some c
    → s.blocked_reader ≡ some p
    → state_of s p ≡ blocked
    → p ≢ c
    → let t = scheduler_wake_reader s in
      (schedule t ≡ hand_over (cleared t) c (some p)) × (t.blocked_reader ≡ none)
unfolding scheduler_wake_reader
wake_preempts s c p v cur slot asleep ne =
    let t = scheduler_wake_reader s in
    let d = schedule-decision t (wake_reader-IsValid s v) in (ground (arith, d), ground arith)

pub block_eq :
    (s : Sched) (c : ℕ) → s.current ≡ some c → scheduler_block_on_input s ≡ schedule (asleep s c)
unfolding scheduler_block_on_input
block_eq s c cur = rw (cur, scheduler_block_on_input)

pub block_none : (s : Sched) → s.current ≡ none → scheduler_block_on_input s ≡ (s, none)
unfolding scheduler_block_on_input
block_none s e = ground arith

-- With nobody else to run, going to sleep does not give the processor away: `schedule` makes no
-- switch and returns to the sleeper, which stays current and BLOCKED.
pub block_alone :
    (s : Sched) (c : ℕ)
    → IsValid s
    → s.current ≡ some c
    → ((i : ℕ) → i ≢ c → is_runnable (state_of s i) ≡ false)
    → scheduler_block_on_input s ≡ (cleared (asleep s c), none)
block_alone s c v cur others_off =
    block_eq s c cur
    ∙ schedule_due t c lt (v'.pids c lt) cur refl
    ∙ ap (switch_to (cleared t) c) nobody
  where
    t : Sched
    t = asleep s c

    v' : IsValid t
    v' = asleep-IsValid s c cur v

    lt : c < num_processes
    lt = v.current_in c cur

    nobody : chosen t c ≡ none
    nobody = elim (Option-cases (chosen t c)) [
      | inl q ↦ q
      | inr (n, q) ↦
          let f = chosen_facts t c n lt v.hint_in q in absurd (ground (arith, f, others_off n f.1))
    ]

-- With somebody else to run, going to sleep hands over at once, to a process that was READY or
-- RUNNING.
pub block_hands_over :
    (s : Sched) (c i : ℕ)
    → IsValid s
    → s.current ≡ some c
    → i < num_processes
    → i ≢ c
    → is_runnable (state_of s i) ≡ true
    → (n : ℕ) × (scheduler_block_on_input s ≡ hand_over (cleared (asleep s c)) c (some n))
      × (is_runnable (state_of s n) ≡ true)
      × (n ≢ c)
block_hands_over s c i v cur li ne run = elim (Option-cases (chosen t c)) [
  | inl q ↦ absurd (nobody_not q)
  | inr (n, q) ↦
      let f = chosen_facts t c n lt v.hint_in q in
      (
        n,
        block_eq s c cur
            ∙ schedule-decision t v'
            ∙ ap (λ o. decision t o true) cur
            ∙ ap (λ o. hand_over (cleared t) c o) q,
        ground (arith, f),
        f.1,
      )
]
  where
    t : Sched
    t = asleep s c

    v' : IsValid t
    v' = asleep-IsValid s c cur v

    lt : c < num_processes
    lt = v.current_in c cur

    nobody_not : chosen t c ≢ none
    nobody_not q = elim (ring_turn t c i lt li (ground arith) ne) [
      | inl e ↦ ground (arith, q, e)
      | inr (n, e, _) ↦ ground (arith, q, e)
    ]

-- When going to sleep makes no switch, the process at hand stays the same.
pub block_stays :
    (s : Sched)
    → IsValid s
    → (scheduler_block_on_input s).1 ≡ none
    → (scheduler_block_on_input s).0.current ≡ s.current
block_stays s v e = elim (Option-cases s.current) [
  | inl cur ↦ ap (λ p. p.0.current) (block_none s cur)
  | inr (c, cur) ↦
      let t = asleep s c in
      let d =
        block_eq s c cur
        ∙ schedule-decision t (asleep-IsValid s c cur v)
        ∙ ap (λ o. decision t o true) cur in
      elim (Option-cases (chosen t c)) [
        | inl q ↦ ap (λ p. p.0.current) (d ∙ ap (hand_over (cleared t) c) q)
        | inr (n, q) ↦
            absurd (ground (arith, e, ap (λ p. p.1) (d ∙ ap (hand_over (cleared t) c) q)))
      ]
]
