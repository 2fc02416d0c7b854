-- ===== src/Sched/Tests.antt =====
-- Runs of the scheduler, and its theorems at concrete states.

use refix_os.Sched.{
  schedule, Sched, scheduler_block_on_input, round_robin, ring_walk, perform_switch, asleep,
  reschedule,
}
use refix_os.Common.{ℕ, arith, ◌≡◌, some, true, refl, false, if◌then◌else◌, none, ◌==◌, []}
use refix_os.Sched.Invariant.{IsValid}
use refix_os.Proc.{TaskState, Process, running, dead, ready, blocked}
use refix_os.Sched.Decision.{decision, schedule-decision}
use refix_os.Sched.Spec.{cleared}
use refix_os.Sched.Wakeup.{block_alone}

abbrev entry : ℕ → TaskState → Process
entry i st = record {
  ctx = record { r = []; sp_svc = 0; lr_svc = 0; spsr = 16; sp_usr = 0; lr_usr = 0 };
  pid = i;
  state = st;
  name = none;
  pgd = 0;
  pgd_pa = 0;
  kstack_base = 0;
  kstack_size = 8192;
  user_entry = 0x40000000;
  user_stack_top = 0x40100000;
  user_phys_base = 0x70200000;
}

-- counter is running, runaway is ready, the shell sleeps on input.
abbrev busy_states : ℕ → TaskState
busy_states i = if i == 0 then running else if i == 1 then ready else blocked

abbrev busy : Sched
busy = record {
  processes = λ i. entry i (busy_states i);
  current = some 0;
  need_reschedule = true;
  switch_count = 0xffff_ffff;
  blocked_reader = some 2;
  wake_hint = none;
}

busy-IsValid : IsValid busy
busy-IsValid = record {
  pids = λ i h. refl;
  current_in = λ c e. ground arith;
  reader_in = λ c e. ground arith;
  hint_in = λ c e. ground arith;
  one_running = λ i e. ground arith;
  reader_sleeps = λ c e. ground arith;
}

-- Only the shell is left.
abbrev lonely_states : ℕ → TaskState
lonely_states i = if i == 2 then running else dead

abbrev lonely : Sched
lonely = record {
  processes = λ i. entry i (lonely_states i);
  current = some 2;
  need_reschedule = false;
  switch_count = 7;
  blocked_reader = none;
  wake_hint = none;
}

lonely-IsValid : IsValid lonely
lonely-IsValid = record {
  pids = λ i h. refl;
  current_in = λ c e. ground arith;
  reader_in = λ c e. ground arith;
  hint_in = λ c e. ground arith;
  one_running = λ i e. ground arith;
  reader_sleeps = λ c e. ground arith;
}

schedule_runs : (schedule busy).1 ≡ some (0, 1)
unfolding schedule round_robin ring_walk perform_switch reschedule
schedule_runs = refl

schedule-decision_example : schedule busy ≡ decision busy (some 0) true
schedule-decision_example = schedule-decision busy busy-IsValid

lonely_blocks : scheduler_block_on_input lonely ≡ (cleared (asleep lonely 2), none)
lonely_blocks = block_alone lonely 2 lonely-IsValid refl (λ i ne. ground arith)
