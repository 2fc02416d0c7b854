-- ===== src/Sched/Invariant.antt =====
-- The scheduler's invariant, and that every operation of kernel/sched/scheduler.c keeps it.
use refix_os.Sched.Spec.{switch_to, cleared, schedule_ref, chosen, chosen_facts, schedule_lem}
use refix_os.Common.{
  refl, Bool, true, false, none, Option, inl, inr, Bool-cases, ℕ, ◌<◌, ◌≡◌, ◌⊎◌, inl, inr, Bool,
  true, false, Option, none, some, arith,
}
use refix_os.Proc.{is_blocked, set_state, num_processes, running, blocked, dead}
use refix_os.Sched.{
  block_from, wake_from, is_runnable, Sched, state_of, schedule, perform_switch, scheduler_tick,
  scheduler_block_on_input, scheduler_wake_reader, asleep, scheduler_request_resched,
}

-- Pids are indices, every pointer is into the table, only the current process is RUNNING, and the
-- process in the reader's slot sleeps or is dead.
pub record IsValid (s : Sched) : Type 0 where
  pub pids : (i : ℕ) → i < num_processes → (s.processes i).pid ≡ i
  pub current_in : (c : ℕ) → s.current ≡ some c → c < num_processes
  pub reader_in : (c : ℕ) → s.blocked_reader ≡ some c → c < num_processes
  pub hint_in : (c : ℕ) → s.wake_hint ≡ some c → c < num_processes
  pub one_running : (i : ℕ) → state_of s i ≡ running → s.current ≡ some i
  pub reader_sleeps :
      (c : ℕ) → s.blocked_reader ≡ some c → (state_of s c ≡ blocked) ⊎ (state_of s c ≡ dead)

pub scheduler_tick-IsValid : {s : Sched} → IsValid s → IsValid (scheduler_tick s)
unfolding scheduler_tick
scheduler_tick-IsValid v = record {
  pids = v.pids;
  current_in = v.current_in;
  reader_in = v.reader_in;
  hint_in = v.hint_in;
  one_running = v.one_running;
  reader_sleeps = v.reader_sleeps;
}

pub request_resched-IsValid : {s : Sched} → IsValid s → IsValid (scheduler_request_resched s)
unfolding scheduler_request_resched
request_resched-IsValid v = record {
  pids = v.pids;
  current_in = v.current_in;
  reader_in = v.reader_in;
  hint_in = v.hint_in;
  one_running = v.one_running;
  reader_sleeps = v.reader_sleeps;
}

perform_switch-IsValid :
    (s : Sched) (prev next : ℕ)
    → next < num_processes
    → is_runnable (state_of s next) ≡ true
    → s.current ≡ some prev
    → IsValid s
    → IsValid (perform_switch s prev next).0
unfolding perform_switch
perform_switch-IsValid s prev next lt run cur v = record {
  pids = λ i h. ground (arith, v.pids i h, v.pids prev, v.pids next);
  current_in = λ c e. ground arith;
  reader_in = v.reader_in;
  hint_in = v.hint_in;
  one_running = λ i e. ground (arith, v.one_running i);
  reader_sleeps = λ c e. ground (arith, v.reader_sleeps c e);
}

pub cleared-IsValid : (s : Sched) → IsValid s → IsValid (cleared s)
cleared-IsValid s v = record {
  pids = v.pids;
  current_in = v.current_in;
  reader_in = v.reader_in;
  hint_in = λ c e. ground arith;
  one_running = v.one_running;
  reader_sleeps = v.reader_sleeps;
}

switch_to-IsValid :
    (s : Sched) (c : ℕ) (n : Option ℕ)
    → s.current ≡ some c
    → ((m : ℕ) → n ≡ some m → (m < num_processes) × (is_runnable (state_of s m) ≡ true))
    → IsValid s
    → IsValid (switch_to s c n).0
switch_to-IsValid s c none cur ok v = v
switch_to-IsValid s c (some m) cur ok v =
    perform_switch-IsValid s c m (ok m refl).0 (ok m refl).1 cur v

-- `schedule` keeps the invariant.
pub schedule-IsValid : (s : Sched) → IsValid s → IsValid (schedule s).0
schedule-IsValid s v =
    rw (schedule_lem s (λ c e. (v.current_in c e, v.pids c (v.current_in c e))))
      (cases s.current s.need_reschedule refl)
  where
    cases : (cur : Option ℕ) (need : Bool) → s.current ≡ cur → IsValid (schedule_ref s cur need).0
    cases none need e = v
    cases (some c) false e = v
    cases (some c) true e =
        switch_to-IsValid (cleared s) c (chosen s c) e
          (λ m h. let f = chosen_facts s c m (v.current_in c e) v.hint_in h in (f.0, f.2))
          (cleared-IsValid s v)

pub asleep-IsValid : (s : Sched) (c : ℕ) → s.current ≡ some c → IsValid s → IsValid (asleep s c)
asleep-IsValid s c e v = record {
  pids = λ i h. ground (arith, v.pids i h);
  current_in = v.current_in;
  reader_in = λ b f. ground (arith, v.current_in c e);
  hint_in = v.hint_in;
  one_running = λ i f. ground (arith, v.one_running i);
  reader_sleeps = λ b f. ground arith;
}

pub block_on_input-IsValid : (s : Sched) → IsValid s → IsValid (scheduler_block_on_input s).0
unfolding scheduler_block_on_input
block_on_input-IsValid s v = cases s.current refl
  where
    cases : (cur : Option ℕ) → s.current ≡ cur → IsValid (block_from s cur).0
    cases none e = v
    cases (some c) e = schedule-IsValid (asleep s c) (asleep-IsValid s c e v)

pub wake_reader-IsValid : (s : Sched) → IsValid s → IsValid (scheduler_wake_reader s)
unfolding scheduler_wake_reader
wake_reader-IsValid s v = cases s.blocked_reader refl
  where
    cases : (r : Option ℕ) → s.blocked_reader ≡ r → IsValid (wake_from s r)
    cases none e = v
    cases (some p) e = elim (Bool-cases (is_blocked (state_of s p))) [
      | inl b ↦
          rw (b, wake_from)
            (record {
              pids = λ i h. ground (arith, v.pids i h);
              current_in = v.current_in;
              reader_in = λ c f. ground arith;
              hint_in = λ c f. ground (arith, v.reader_in p e);
              one_running = λ i f. ground (arith, v.one_running i);
              reader_sleeps = λ c f. ground arith;
            })
      | inr b ↦ rw (b, wake_from) v
    ]

pub set_dead-IsValid :
    (s : Sched) (i : ℕ)
    → IsValid s
    → IsValid (record s { processes = set_state s.processes i dead })
set_dead-IsValid s i v = record {
  pids = λ j h. ground (arith, v.pids j h);
  current_in = v.current_in;
  reader_in = v.reader_in;
  hint_in = v.hint_in;
  one_running = λ j f. ground (arith, v.one_running j);
  reader_sleeps = λ c f. ground (arith, v.reader_sleeps c f);
}
