-- ===== src/Sched.antt =====
-- kernel/sched/scheduler.c: the round-robin scheduler, with the table and the cursor of
-- kernel/proc/process.c. A pointer into the table is the index of its entry, and NULL is `none`.
-- A function that may reach `context_switch(prev, next)` returns the pair (prev, next) of that call,
-- or `none` when it returns without a switch.
pub mod Spec
pub mod Invariant
pub mod Decision
pub mod Progress
pub mod History
pub mod Wakeup
pub mod Handover
pub mod Turns
mod Tests
use refix_os.Common.{
  ℕ, zero, suc, ◌+◌, ◌%◌, Bool, true, false, not, ◌&&◌, Option, none, some, add32, ◌==◌,
  if◌then◌else◌,
}
use refix_os.Proc.{
  Table, TaskState, ready, running, blocked, num_processes, is_running, is_blocked, set_state,
}

pub record Sched : Type 0 where
  pub processes : Table
  pub current : Option ℕ
  pub need_reschedule : Bool
  pub switch_count : ℕ
  pub blocked_reader : Option ℕ
  pub wake_hint : Option ℕ

abbrev pub state_of : Sched → ℕ → TaskState
state_of s i = (s.processes i).state

-- The argument pair of a call of `context_switch`.
abbrev pub Switch : Type 0
Switch = Option (ℕ × ℕ)

-- `state == TASK_READY || state == TASK_RUNNING`
abbrev pub is_runnable : TaskState → Bool
is_runnable ready = true
is_runnable running = true
is_runnable _ = false

unfoldable pub scheduler_tick : Sched → Sched
scheduler_tick s = record s { need_reschedule = true }

unfoldable pub scheduler_request_resched : Sched → Sched
scheduler_request_resched s = record s { need_reschedule = true }

unfoldable pub perform_switch : Sched → ℕ → ℕ → Sched × Switch
perform_switch s prev cand =
    let demoted =
      if is_running (state_of s prev) then set_state s.processes prev ready else s.processes in
    (
      record s {
        switch_count = add32 s.switch_count 1;
        processes = set_state demoted cand running;
        current = some cand;
      },
      some (prev, cand),
    )

-- The `for` loop of `schedule`, with the rounds that are left and the counter `i`.
unfoldable pub ring_walk : Sched → ℕ → ℕ → ℕ → ℕ → Sched × Switch
ring_walk s prev start zero i = (s, none)
ring_walk s prev start (suc left) i =
    let idx = (start + i) % num_processes in
    let rest = ring_walk s prev start left (i + 1) in
    if idx == prev
    then rest
    else if not (is_runnable (state_of s idx))
    then rest
    else perform_switch s prev idx

-- `schedule` from `uint32_t start = …` on.
unfoldable pub round_robin : Sched → ℕ → Sched × Switch
unfolding ring_walk
round_robin s prev =
    ring_walk s prev (add32 (s.processes prev).pid 1 % num_processes) num_processes 0

-- `schedule` from the wake-up hint on; `s` has the flag and the hint cleared already.
unfoldable pub reschedule : Sched → ℕ → Option ℕ → Sched × Switch
reschedule s prev none = round_robin s prev
reschedule s prev (some hint) =
    if not (hint == prev) && is_runnable (state_of s hint)
    then perform_switch s prev hint
    else round_robin s prev

unfoldable pub schedule_from : Sched → Option ℕ → Sched × Switch
unfolding reschedule
schedule_from s none = (s, none)
schedule_from s (some prev) =
    if not s.need_reschedule
    then (s, none)
    else reschedule (record s { need_reschedule = false; wake_hint = none }) prev s.wake_hint

unfoldable pub schedule : Sched → Sched × Switch
unfolding schedule_from
schedule s = schedule_from s s.current

-- The three assignments of `scheduler_block_on_input`.
abbrev pub asleep : Sched → ℕ → Sched
asleep s c = record s {
  processes = set_state s.processes c blocked;
  blocked_reader = some c;
  need_reschedule = true;
}

unfoldable pub block_from : Sched → Option ℕ → Sched × Switch
block_from s none = (s, none)
block_from s (some c) = schedule (asleep s c)

unfoldable pub scheduler_block_on_input : Sched → Sched × Switch
unfolding block_from
scheduler_block_on_input s = block_from s s.current

unfoldable pub wake_from : Sched → Option ℕ → Sched
wake_from s none = s
wake_from s (some p) =
    if is_blocked (state_of s p)
    then record s {
      processes = set_state s.processes p ready;
      blocked_reader = none;
      wake_hint = some p;
      need_reschedule = true;
    }
    else s

unfoldable pub scheduler_wake_reader : Sched → Sched
unfolding wake_from
scheduler_wake_reader s = wake_from s s.blocked_reader
