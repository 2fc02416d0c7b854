-- ===== src/Exception/Faults.antt =====
-- The fault handlers: who survives a fault.
use refix_os.Common.{ℕ, ◌≡◌, ◌≢◌, ◌<◌, ◌∙◌, ap, refl, List, some, true, false, arith, subst}
use refix_os.Exception.{
  Handled, switched, halted, user_fault_kill, kill_current, handle_data_abort,
  handle_prefetch_abort, handle_undefined, fault_from_user, after_kill, halt_forever,
}
use refix_os.Kernel.{Kernel, log}
use refix_os.Kernel.Sound.{IsSound}
use refix_os.Proc.{dead, num_processes, set_state}
use refix_os.Sched.{Sched, state_of, is_runnable, schedule, scheduler_request_resched, Switch}
use refix_os.Sched.Decision.{hand_over}
use refix_os.Sched.Handover.{IsHandover, due_hands_over, due_alone}
use refix_os.Sched.Invariant
use refix_os.Sched.Invariant.{request_resched-IsValid, set_dead-IsValid, schedule-IsValid}
use refix_os.Sched.Spec.{cleared}
use refix_os.Syscall.Control.{request_resched}
use refix_os.Syscall.Dispatch.{ExceptionContext}
use refix_os.Syscall.Outcome.{with_sched}

-- The three faults, with the registers that their handlers read.
pub data Fault : Type 0 where
  data_abort : ℕ → ℕ → Fault
  prefetch_abort : ℕ → ℕ → Fault
  undefined : Fault

unfoldable pub handle_fault : Fault → Kernel → ExceptionContext → Handled
handle_fault (data_abort dfsr dfar) k ctx = handle_data_abort k dfsr dfar ctx
handle_fault (prefetch_abort ifsr ifar) k ctx = handle_prefetch_abort k ifsr ifar ctx
handle_fault undefined k ctx = handle_undefined k ctx

-- The scheduler's state with process c dead and a rescheduling due.
abbrev pub retired : Sched → ℕ → Sched
retired s c = record s { processes = set_state s.processes c dead; need_reschedule = true }

pub retired-IsValid : (s : Sched) (c : ℕ) → Invariant.IsValid s → Invariant.IsValid (retired s c)
unfolding scheduler_request_resched
retired-IsValid s c v = request_resched-IsValid (set_dead-IsValid s c v)

-- From scheduler state `s` the handler stopped process c and gave the processor to n, in a scheduler state that is valid.
pub record IsRetiredFor (s : Sched) (mem : ℕ → ℕ → ℕ) (c n : ℕ) (h : Handled) : Type 0 where
  pub after : Kernel
  pub switch : h ≡ switched after (c, n)
  pub gone : state_of after.sched c ≡ dead
  pub next : after.sched.current ≡ some n
  pub was_runnable : is_runnable (state_of s n) ≡ true
  pub other : n ≢ c
  pub valid : Invariant.IsValid after.sched
  pub memory : after.mem ≡ mem

pub kill_eq :
    (k : Kernel) (kind : List ℕ) (c : ℕ)
    → k.sched.current ≡ some c
    → (k' : Kernel) × (user_fault_kill k kind ≡ after_kill k' (schedule (retired k.sched c)))
      × (k'.mem ≡ k.mem)
      × (k'.ring ≡ k.ring)
unfolding user_fault_kill kill_current log scheduler_request_resched
kill_eq k kind c cur = (
  request_resched (kill_current k (some c) kind),
  ap (λ o. let d = request_resched (kill_current k o kind) in after_kill d (schedule d.sched)) cur,
  refl,
  refl,
)

handed_over-dead :
    (s : Sched) (c n : ℕ)
    → n ≢ c
    → state_of (hand_over (cleared (retired s c)) c (some n)).0 c ≡ dead
handed_over-dead s c n ne = ground arith

before_runnable :
    (s : Sched) (c n : ℕ)
    → n ≢ c
    → is_runnable (state_of (retired s c) n) ≡ true
    → is_runnable (state_of s n) ≡ true
before_runnable s c n ne h = ground arith

retired_runnable :
    (s : Sched) (c n : ℕ)
    → n ≢ c
    → is_runnable (state_of s n) ≡ true
    → is_runnable (state_of (retired s c) n) ≡ true
retired_runnable s c n ne h = ground arith

-- A handler that marks the current process DEAD and ends with schedule, when schedule hands over to n.
retired_hands_over :
    (k k' : Kernel) (c n : ℕ) (tail : Sched × Switch → Handled) (h : Handled)
    → IsSound k
    → k.sched.current ≡ some c
    → IsHandover (retired k.sched c) c n
    → h ≡ tail (schedule (retired k.sched c))
    → ((s : Sched) (sw : ℕ × ℕ) → tail (s, some sw) ≡ switched (with_sched k' s) sw)
    → k'.mem ≡ k.mem
    → IsRetiredFor k.sched k.mem c n h
retired_hands_over k k' c n tail h v cur o ends switches same =
    let s = retired k.sched c in
    record {
      after = with_sched k' (hand_over (cleared s) c (some n)).0;
      switch = ends ∙ ap tail o.equal ∙ switches (hand_over (cleared s) c (some n)).0 (c, n);
      gone = handed_over-dead k.sched c n o.other;
      next = refl;
      was_runnable = before_runnable k.sched c n o.other o.run;
      other = o.other;
      valid =
          subst (λ p. Invariant.IsValid p.0) o.equal
            (schedule-IsValid s (retired-IsValid k.sched c v.sched));
      memory = same;
    }

-- So it does when process i could run.
pub retired_switches :
    (k k' : Kernel) (c i : ℕ) (tail : Sched × Switch → Handled) (h : Handled)
    → IsSound k
    → k.sched.current ≡ some c
    → i < num_processes
    → i ≢ c
    → is_runnable (state_of k.sched i) ≡ true
    → h ≡ tail (schedule (retired k.sched c))
    → ((s : Sched) (sw : ℕ × ℕ) → tail (s, some sw) ≡ switched (with_sched k' s) sw)
    → k'.mem ≡ k.mem
    → (n : ℕ) × IsRetiredFor k.sched k.mem c n h
retired_switches k k' c i tail h v cur li ne run ends switches same =
    let (n, o) =
      due_hands_over (retired k.sched c) c i (retired-IsValid k.sched c v.sched) cur refl li ne
        (retired_runnable k.sched c i ne run) in
    (n, retired_hands_over k k' c n tail h v cur o ends switches same)

kill_switches :
    (k : Kernel) (kind : List ℕ) (c i : ℕ)
    → IsSound k
    → k.sched.current ≡ some c
    → i < num_processes
    → i ≢ c
    → is_runnable (state_of k.sched i) ≡ true
    → (n : ℕ) × IsRetiredFor k.sched k.mem c n (user_fault_kill k kind)
kill_switches k kind c i v cur li ne run =
    let (k', e, m, _) = kill_eq k kind c cur in
    retired_switches k k' c i (after_kill k') _ v cur li ne run e (λ s sw. refl) m

-- A fault in user mode costs the process at fault its life, and nobody else anything: when another
-- process is READY or RUNNING the handler, whichever it is, marks the current process DEAD and
-- switches to one that was runnable. The scheduler invariant and all memory are kept.
pub user_fault_contained :
    (f : Fault) (k : Kernel) (ctx : ExceptionContext) (c i : ℕ)
    → IsSound k
    → fault_from_user ctx ≡ true
    → k.sched.current ≡ some c
    → i < num_processes
    → i ≢ c
    → is_runnable (state_of k.sched i) ≡ true
    → (n : ℕ) × IsRetiredFor k.sched k.mem c n (handle_fault f k ctx)
unfolding handle_fault handle_data_abort handle_prefetch_abort handle_undefined log
user_fault_contained (data_abort dfsr dfar) k ctx c i v user cur li ne run =
    rw user
      (kill_switches (log k _ _) _ c i (record { sched = v.sched; ring = v.ring }) cur li ne run)
user_fault_contained (prefetch_abort ifsr ifar) k ctx c i v user cur li ne run =
    rw user
      (kill_switches (log k _ _) _ c i (record { sched = v.sched; ring = v.ring }) cur li ne run)
user_fault_contained undefined k ctx c i v user cur li ne run =
    rw user
      (kill_switches (log k _ _) _ c i (record { sched = v.sched; ring = v.ring }) cur li ne run)

pub retired_off :
    (s : Sched) (c : ℕ)
    → ((i : ℕ) → i ≢ c → is_runnable (state_of s i) ≡ false)
    → (i : ℕ) → i ≢ c
    → is_runnable (state_of (retired s c) i) ≡ false
retired_off s c others i ne = ground (arith, others i ne)

kill_alone :
    (k : Kernel) (kind : List ℕ) (c : ℕ)
    → IsSound k
    → k.sched.current ≡ some c
    → ((i : ℕ) → i ≢ c → is_runnable (state_of k.sched i) ≡ false)
    → (k' : Kernel) × (user_fault_kill k kind ≡ halted k')
unfolding halt_forever
kill_alone k kind c v cur others =
    let s = retired k.sched c in
    let (k', e, m, _) = kill_eq k kind c cur in
    (
      _,
      e
          ∙ ap (after_kill k') (
              due_alone s c (retired-IsValid k.sched c v.sched) cur refl
                (retired_off k.sched c others)),
    )

-- A fault in user mode with no other process READY or RUNNING halts the kernel, although a process
-- may only be waiting for input.
pub user_fault_last :
    (f : Fault) (k : Kernel) (ctx : ExceptionContext) (c : ℕ)
    → IsSound k
    → fault_from_user ctx ≡ true
    → k.sched.current ≡ some c
    → ((i : ℕ) → i ≢ c → is_runnable (state_of k.sched i) ≡ false)
    → (k' : Kernel) × (handle_fault f k ctx ≡ halted k')
unfolding handle_fault handle_data_abort handle_prefetch_abort handle_undefined log
user_fault_last (data_abort dfsr dfar) k ctx c v user cur off =
    rw user (kill_alone (log k _ _) _ c (record { sched = v.sched; ring = v.ring }) cur off)
user_fault_last (prefetch_abort ifsr ifar) k ctx c v user cur off =
    rw user (kill_alone (log k _ _) _ c (record { sched = v.sched; ring = v.ring }) cur off)
user_fault_last undefined k ctx c v user cur off =
    rw user (kill_alone (log k _ _) _ c (record { sched = v.sched; ring = v.ring }) cur off)
