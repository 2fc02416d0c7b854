-- ===== src/Sched/Decision.antt =====
-- The decision of `schedule` in full: whom it switches to, and every field it changes.
use refix_os.Sched.Spec.{switch_to, cleared, chosen, schedule_lem, schedule_ref}
use refix_os.Sched.Invariant.{IsValid}
use refix_os.Sched.{
  Sched, Switch, state_of, schedule, perform_switch, Option, ℕ, some, Table, Bool, add32, none,
  if◌then◌else◌, ◌==◌, running, ◌&&◌,
}
use mathlib.Core.Path.{fun_ext, ◌≡◌, ◌∙◌}
use refix_os.Common.{false, refl, arith, true}
use refix_os.Proc.{is_running, ready}

-- The table after `c` has handed the processor to `n`: `n` is RUNNING, `c` is READY again if it was
-- RUNNING, and nothing else has changed.
abbrev pub handed_over : Sched → ℕ → ℕ → Table
handed_over s c n i = record (s.processes i) {
  state =
      if i == n
      then running
      else if i == c && is_running (state_of s c)
      then ready
      else state_of s i;
}

perform_switch_table :
    (s : Sched) (c n i : ℕ) → (perform_switch s c n).0.processes i ≡ handed_over s c n i
unfolding perform_switch
perform_switch_table s c n i = ground arith

abbrev pub hand_over : Sched → ℕ → Option ℕ → Sched × Switch
hand_over s c none = (s, none)
hand_over s c (some n) = (
  record s {
    processes = handed_over s c n;
    current = some n;
    switch_count = add32 s.switch_count 1;
  },
  some (c, n),
)

switch_to-hand_over : (s : Sched) (c : ℕ) (n : Option ℕ) → switch_to s c n ≡ hand_over s c n
unfolding perform_switch
switch_to-hand_over s c none = refl
switch_to-hand_over s c (some n) = λ i. (
  record s {
    processes = fun_ext (perform_switch_table s c n) i;
    current = some n;
    switch_count = add32 s.switch_count 1;
  },
  some (c, n),
)

-- What `schedule` does with the cursor and the flag as given.
abbrev pub decision : Sched → Option ℕ → Bool → Sched × Switch
decision s none due = (s, none)
decision s (some c) false = (s, none)
decision s (some c) true = hand_over (cleared s) c (chosen s c)

-- In a valid state `schedule` does nothing when no process is current or no rescheduling is due.
-- Otherwise it consumes the flag and the wake-up hint, and hands over to the process that was just
-- woken if that is another runnable one, else to the first runnable one in ring order behind the
-- current; with none it keeps the current process. A hand-over changes the states of the two
-- processes, the cursor and the switch counter, and calls `context_switch` on the two.
pub schedule-decision :
    (s : Sched) → IsValid s → schedule s ≡ decision s s.current s.need_reschedule
schedule-decision s v =
    schedule_lem s (λ c e. (v.current_in c e, v.pids c (v.current_in c e)))
    ∙ same s.current s.need_reschedule
  where
    same : (cur : Option ℕ) (due : Bool) → schedule_ref s cur due ≡ decision s cur due
    same none due = refl
    same (some c) false = refl
    same (some c) true = switch_to-hand_over (cleared s) c (chosen s c)
