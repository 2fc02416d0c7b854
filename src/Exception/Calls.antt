-- ===== src/Exception/Calls.antt =====
-- The system call handler with its scheduling tail: what exit and yield come to.
use refix_os.Common.{ℕ, ◌≡◌, ◌≢◌, ◌∙◌, ap, refl, some, false, arith, ◌<◌, true}
use refix_os.Exception.{resumed, handle_svc, schedule_tail}
use refix_os.Exception.Faults.{
  retired, retired-IsValid, retired_off, IsRetiredFor, retired_switches,
}
use refix_os.Kernel.{Kernel, log}
use refix_os.Kernel.Sound.{IsSound}
use refix_os.Proc.{dead, num_processes}
use refix_os.Sched.{state_of, is_runnable, schedule, scheduler_request_resched, Sched}
use refix_os.Sched.Handover.{due_alone}
use refix_os.Sched.Spec.{cleared}
use refix_os.Syscall.Control.{sys_exit, request_resched, exit_from}
use refix_os.Syscall.Dispatch.{
  ExceptionContext, reg, with_r0, syscall_dispatch, call, syscall_table,
}
use refix_os.Syscall.Outcome.{with_sched}

exit_eq :
    (fuel : ℕ) (k : Kernel) (ctx : ExceptionContext) (c : ℕ)
    → reg ctx 7 ≡ 3
    → k.sched.current ≡ some c
    → let k' = request_resched (exit_from k (some c)) in
      handle_svc fuel k ctx ≡ (schedule_tail k' (schedule k'.sched), with_r0 ctx 0)
unfolding handle_svc syscall_dispatch call syscall_table sys_exit
exit_eq fuel k ctx c num cur = rw (num, cur)

exited_sched :
    (k : Kernel) (c : ℕ)
    → schedule (request_resched (exit_from k (some c))).sched ≡ schedule (retired k.sched c)
unfolding exit_from log scheduler_request_resched
exited_sched k c = refl

dead_entry : (s : Sched) (c : ℕ) → state_of (cleared (retired s c)) c ≡ dead
dead_entry s c = ground arith

-- A process that calls exit while no other is READY or RUNNING does not stop: the handler returns to
-- its saved user frame, with 0 in r0, though the process is marked DEAD and is still current.
pub exit_alone_returns :
    (fuel : ℕ) (k : Kernel) (ctx : ExceptionContext) (c : ℕ)
    → IsSound k
    → reg ctx 7 ≡ 3
    → k.sched.current ≡ some c
    → ((i : ℕ) → i ≢ c → is_runnable (state_of k.sched i) ≡ false)
    → (k' : Kernel) × (handle_svc fuel k ctx ≡ (resumed k', with_r0 ctx 0))
      × (k'.sched.current ≡ some c)
      × (state_of k'.sched c ≡ dead)
exit_alone_returns fuel k ctx c v num cur off =
    let k1 = request_resched (exit_from k (some c)) in
    (
      with_sched k1 (cleared (retired k.sched c)),
      exit_eq fuel k ctx c num cur
          ∙ ap (λ p. (schedule_tail k1 p, with_r0 ctx 0))
              (exited_sched k c
                ∙ due_alone (retired k.sched c) c (retired-IsValid k.sched c v.sched) cur refl
                    (retired_off k.sched c off)),
      cur,
      dead_entry k.sched c,
    )

-- With another process READY or RUNNING the call of exit is the last of its process: it is DEAD, and
-- the handler switches to one that was runnable.
pub exit_hands_over :
    (fuel : ℕ) (k : Kernel) (ctx : ExceptionContext) (c i : ℕ)
    → IsSound k
    → reg ctx 7 ≡ 3
    → k.sched.current ≡ some c
    → i < num_processes
    → i ≢ c
    → is_runnable (state_of k.sched i) ≡ true
    → (n : ℕ) × IsRetiredFor k.sched k.mem c n (handle_svc fuel k ctx).0
unfolding exit_from log
exit_hands_over fuel k ctx c i v num cur li ne run =
    let k1 = request_resched (exit_from k (some c)) in
    retired_switches k k1 c i (schedule_tail k1) _ v cur li ne run
      (ap (λ p. p.0) (exit_eq fuel k ctx c num cur) ∙ ap (schedule_tail k1) (exited_sched k c))
      (λ s sw. refl) refl
