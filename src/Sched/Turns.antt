-- ===== src/Sched/Turns.antt =====
-- The entries into the kernel as the scheduler sees them: what exception_handlers.c and syscall.c do to
-- its state, up to the schedule at their end.
pub mod Early
pub mod Last
pub mod Ticked
use refix_os.Common.{
  ℕ, List, ◌∷◌, ◌≡◌, Option, some, [], ◌+◌, true, ap, none, subst, arith, refl, sym, ◌≢◌, ◌∙◌,
}
use refix_os.Sched.{
  scheduler_tick, Sched, schedule, scheduler_wake_reader, is_runnable, state_of,
  scheduler_request_resched, asleep, scheduler_block_on_input,
}
use refix_os.Sched.Invariant.{
  IsValid, scheduler_tick-IsValid, wake_reader-IsValid, schedule-IsValid, request_resched-IsValid,
  asleep-IsValid, set_dead-IsValid,
}
use refix_os.Proc.{set_state, dead}
use refix_os.Sched.Decision.{decision, schedule-decision}
use refix_os.Sched.Wakeup.{block_eq}

pub data KernelEntry : Type 0 where
  -- a timer interrupt, and a receive interrupt
  at_tick at_input : KernelEntry
  -- a system call that leaves the scheduler alone, sys_yield, and a wait in sys_read
  calls yields waits : KernelEntry
  -- sys_exit or a fault of the current process
  ends : KernelEntry
  -- sys_kill of a process that is not DEAD yet
  at_kill : ℕ → KernelEntry

abbrev pub killed : Sched → ℕ → Sched
killed s i = record s { processes = set_state s.processes i dead }

abbrev pub ended : Sched → Option ℕ → Sched
ended s none = s
ended s (some c) = killed s c

abbrev pub enter : Sched → KernelEntry → Sched
enter s at_tick = (schedule (scheduler_tick s)).0
enter s at_input = (schedule (scheduler_wake_reader s)).0
enter s calls = (schedule s).0
enter s yields = (schedule (scheduler_request_resched s)).0
enter s waits = (scheduler_block_on_input s).0
enter s ends = (schedule (scheduler_request_resched (ended s s.current))).0
enter s (at_kill i) = (schedule (scheduler_request_resched (killed s i))).0

-- The timer interrupts in it.
abbrev pub tick_of : KernelEntry → ℕ
tick_of at_tick = 1
tick_of at_input = 0
tick_of calls = 0
tick_of yields = 0
tick_of waits = 0
tick_of ends = 0
tick_of (at_kill i) = 0

-- Process i could run and does not.
pub record IsWaiting (i : ℕ) (s : Sched) : Type 0 where
  pub could : is_runnable (state_of s i) ≡ true
  pub not_current : s.current ≢ some i

-- The state in which schedule is called, with c current.
abbrev pub before : Sched → ℕ → KernelEntry → Sched
before s c at_tick = scheduler_tick s
before s c at_input = scheduler_wake_reader s
before s c calls = s
before s c yields = scheduler_request_resched s
before s c waits = asleep s c
before s c ends = scheduler_request_resched (killed s c)
before s c (at_kill i) = scheduler_request_resched (killed s i)

pub enter_eq :
    (s : Sched) (c : ℕ) (e : KernelEntry)
    → s.current ≡ some c
    → enter s e ≡ (schedule (before s c e)).0
enter_eq s c at_tick cur = refl
enter_eq s c at_input cur = refl
enter_eq s c calls cur = refl
enter_eq s c yields cur = refl
enter_eq s c waits cur = ap (λ q. q.0) (block_eq s c cur)
enter_eq s c ends cur = ap (λ o. (schedule (scheduler_request_resched (ended s o))).0) cur
enter_eq s c (at_kill i) cur = refl

pub before-IsValid :
    (s : Sched) (c : ℕ) (e : KernelEntry) → s.current ≡ some c → IsValid s → IsValid (before s c e)
before-IsValid s c at_tick cur v = scheduler_tick-IsValid v
before-IsValid s c at_input cur v = wake_reader-IsValid s v
before-IsValid s c calls cur v = v
before-IsValid s c yields cur v = request_resched-IsValid v
before-IsValid s c waits cur v = asleep-IsValid s c cur v
before-IsValid s c ends cur v = request_resched-IsValid (set_dead-IsValid s c v)
before-IsValid s c (at_kill i) cur v = request_resched-IsValid (set_dead-IsValid s i v)

pub enter-IsValid :
    (s : Sched) (c : ℕ) (e : KernelEntry) → s.current ≡ some c → IsValid s → IsValid (enter s e)
enter-IsValid s c e cur v =
    subst IsValid (sym (enter_eq s c e cur))
      (schedule-IsValid (before s c e) (before-IsValid s c e cur v))

pub before-current : (s : Sched) (c : ℕ) (e : KernelEntry) → (before s c e).current ≡ s.current
unfolding scheduler_tick scheduler_wake_reader scheduler_request_resched
before-current s c at_tick = refl
before-current s c at_input = ground arith
before-current s c calls = refl
before-current s c yields = refl
before-current s c waits = refl
before-current s c ends = refl
before-current s c (at_kill i) = refl

-- The states that the ring walk and the hint can make of it, by the flag.
pub scheduled :
    (t : Sched) (c : ℕ)
    → IsValid t
    → t.current ≡ some c
    → (schedule t).0 ≡ (decision t (some c) t.need_reschedule).0
scheduled t c v cur =
    ap (λ q. q.0) (schedule-decision t v ∙ ap (λ o. decision t o t.need_reschedule) cur)
