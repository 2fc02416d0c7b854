-- ===== src/Sched/Handover.antt =====
-- What a rescheduling that is due comes to, by whether anybody else can run.
use refix_os.Sched.{Sched, schedule, state_of, is_runnable}
use refix_os.Common.{
  ℕ, ◌≡◌, some, ◌≢◌, none, arith, false, ◌<◌, Option-cases, inl, inr, ◌∙◌, ap, true,
}
use refix_os.Proc.{num_processes}
use refix_os.Sched.Invariant.{IsValid}
use refix_os.Sched.Decision.{hand_over, schedule-decision, decision}
use refix_os.Sched.Spec.{cleared, chosen, chosen_facts, schedule_due, switch_to}
use refix_os.Sched.Progress.{ring_turn}

-- A hand-over from c to another process n, which was READY or RUNNING.
pub record IsHandover (s : Sched) (c n : ℕ) : Type 0 where
  pub equal : schedule s ≡ hand_over (cleared s) c (some n)
  pub run : is_runnable (state_of s n) ≡ true
  pub other : n ≢ c

pub due_hands_over :
    (s : Sched) (c i : ℕ)
    → IsValid s
    → s.current ≡ some c
    → s.need_reschedule ≡ true
    → i < num_processes
    → i ≢ c
    → is_runnable (state_of s i) ≡ true
    → (n : ℕ) × IsHandover s c n
due_hands_over s c i v cur due li ne run = elim (Option-cases (chosen s c)) [
  | inl q ↦ absurd (somebody q)
  | inr (n, q) ↦
      let f = chosen_facts s c n (v.current_in c cur) v.hint_in q in
      (
        n,
        record {
          equal =
              schedule-decision s v
              ∙ ap (λ o. decision s o s.need_reschedule) cur
              ∙ ap (decision s (some c)) due
              ∙ ap (λ o. hand_over (cleared s) c o) q;
          run = f.2;
          other = f.1;
        },
      )
]
  where
    somebody : chosen s c ≢ none
    somebody q = elim (ring_turn s c i (v.current_in c cur) li run ne) [
      | inl e ↦ ground (arith, q, e)
      | inr (n, e, _) ↦ ground (arith, q, e)
    ]

pub due_alone :
    (s : Sched) (c : ℕ)
    → IsValid s
    → s.current ≡ some c
    → s.need_reschedule ≡ true
    → ((i : ℕ) → i ≢ c → is_runnable (state_of s i) ≡ false)
    → schedule s ≡ (cleared s, none)
due_alone s c v cur due others_off =
    schedule_due s c lt (v.pids c lt) cur due ∙ ap (switch_to (cleared s) c) nobody
  where
    lt : c < num_processes
    lt = v.current_in c cur

    nobody : chosen s c ≡ none
    nobody = elim (Option-cases (chosen s c)) [
      | inl q ↦ q
      | inr (n, q) ↦
          let f = chosen_facts s c n lt v.hint_in q in absurd (ground (arith, f, others_off n f.1))
    ]
