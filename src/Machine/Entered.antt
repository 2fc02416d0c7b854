-- ===== src/Machine/Entered.antt =====
-- The system calls as entries of the scheduler.
use refix_os.Common.{
  ℕ, ◌≡◌, some, take, if_both, Option, ◌-◌, leb, not, ◌<◌, ap, refl, ◌==◌, if◌then◌else◌, none,
  length, get_or, suc, zero, arith, subst, sym, inl, ◌∙◌, inr,
}
use refix_os.Syscall.Dispatch.{call, ExceptionContext, reg, nr_syscalls, syscall_table}
use refix_os.Sched.{schedule, scheduler_request_resched, state_of}
use refix_os.Kernel.{Kernel, log, with_user_mem, user_mem}
use refix_os.Syscall.Ps.{sys_ps}
use refix_os.Syscall.Write.{sys_write, put_bytes, put_bytes_lem}
use refix_os.Kernel.Sound.{IsSound}
use refix_os.Syscall.Control.{
  sys_exit, sys_kill, exit_from, request_resched, sys_yield, sys_getpid, sys_ticks,
}
use refix_os.Syscall.Outcome.{Outcome, returned, e_fault, e_badcall, parked, spinning}
use refix_os.Sched.Turns.{
  KernelEntry, calls, enter, ended, waits, at_kill, ends, yields, at_tick, at_input,
}
use refix_os.Machine.Onwards.{HasOther, nil_or_not}
use refix_os.Proc.{num_processes, is_dead}
use refix_os.Syscall.Ps.Listing.{listing, sys_ps_lem}
use refix_os.Syscall.Pointer.{valid_user_ptr}
use refix_os.Syscall.Read.{read_loop, sys_read, sleep_or}
use refix_os.Kernel.Memory.{stored}
use refix_os.Syscall.Read.Rounds.{round_full}
use refix_os.Uart.Ring.Refine.{contents}
use refix_os.Sched.Wakeup.{block_hands_over}
use refix_os.Syscall.Read.Blocking.{sleeps}
use refix_os.Syscall.Read.Transfer.{read_loop_transfers, copied, drain}
use refix_os.Timer.{Timer, timer_tick}

abbrev pub timer_after : KernelEntry → Timer → Timer
timer_after at_tick t = (timer_tick t).0
timer_after at_input t = t
timer_after calls t = t
timer_after yields t = t
timer_after waits t = t
timer_after ends t = t
timer_after (at_kill i) t = t

-- From k1 schedule completes an entry that began in k, and the tick counter has counted the timer's.
abbrev pub Completes : Kernel → Kernel → Type 0
Completes k k1 =
    (e : KernelEntry) × ((schedule k1.sched).0 ≡ enter k.sched e)
    × (k1.timer ≡ timer_after e k.timer)

-- What an outcome comes to for the scheduler: with the schedule at the end of handle_svc, an entry
-- of the scheduler; and a wait, which has called context_switch itself.
abbrev pub Enters : Kernel → Outcome → Type 0
Enters k0 (returned k v) = Completes k0 k
Enters k0 (parked k sw) = (k.sched ≡ enter k0.sched waits) × (k.timer ≡ k0.timer)
Enters k0 (spinning k) = ⊥

same : (k k' : Kernel) (v : ℕ) → k'.sched ≡ k.sched → k'.timer ≡ k.timer → Enters k (returned k' v)
same k k' v e t = (calls, ap (λ s. (schedule s).0) e, t)

pub read_loop-Enters :
    (fuel : ℕ) (k : Kernel) (c buf len : ℕ)
    → IsSound k
    → k.sched.current ≡ some c
    → HasOther k.sched c
    → len < fuel
    → Enters k (read_loop fuel k buf len 0)
read_loop-Enters zero k c buf len v cur o fu = absurd (omega arith)
read_loop-Enters (suc fuel) k c buf zero v cur o fu =
    subst (Enters k) (sym (round_full fuel k buf 0 0 (omega arith))) (same k k 0 refl refl)
read_loop-Enters (suc fuel) k c buf (suc len) v cur o fu = elim (nil_or_not (contents k.ring)) [
  | inl e ↦
      let (n, h, _, _) = block_hands_over k.sched c o.other v.sched cur o.exists o.differs o.runs in
      subst (Enters k)
        (sym (
          sleeps fuel k 0 buf (suc len) v e (omega arith)
          ∙ ap (λ q. sleep_or k q (λ k'. read_loop fuel k' buf (suc len) 0)) h))
        (sym (ap (λ q. q.0) h), refl)
  | inr ne ↦
      let got = take (suc len) (contents k.ring) in
      subst (Enters k) (sym (read_loop_transfers (suc fuel) k c buf (suc len) cur v.ring ne fu))
        (same k (copied k buf (drain (length got) k.ring) got) (length got) refl refl)
]

module _ (k : Kernel) where
  sys_write-Enters : (fd buf len : ℕ) → Enters k (sys_write k fd buf len)
  unfolding sys_write
  sys_write-Enters fd buf len =
      if_both (Enters k) (not (valid_user_ptr buf len)) (returned k e_fault)
        (returned (put_bytes k buf len) len) (same k k e_fault refl refl)
        (same k (put_bytes k buf len) len (ap (λ (x : Kernel). x.sched) (put_bytes_lem k buf len))
          (ap (λ (x : Kernel). x.timer) (put_bytes_lem k buf len)))

  sys_ps-Enters : (buf size : ℕ) → Enters k (sys_ps k buf size)
  sys_ps-Enters buf size =
      let text = take (size - 1) (listing k.sched.processes 0 num_processes) in
      rw (sys_ps_lem k buf size) (
        if_both (Enters k) (valid_user_ptr buf size)
          (returned (with_user_mem k (stored (user_mem k) buf text)) (length text))
          (returned k e_fault)
          (same k (with_user_mem k (stored (user_mem k) buf text)) (length text) refl refl)
          (same k k e_fault refl refl))

  sys_exit-Enters : Enters k (sys_exit k)
  unfolding sys_exit exit_from log
  sys_exit-Enters = let (a, t) = cases k.sched.current in (ends, a, t)
    where
      cases :
          (o : Option ℕ)
          → ((schedule (request_resched (exit_from k o)).sched).0
              ≡ (schedule (scheduler_request_resched (ended k.sched o))).0)
            × ((request_resched (exit_from k o)).timer ≡ k.timer)
      cases none = (refl, refl)
      cases (some p) = (refl, refl)

  sys_kill-Enters : (pid : ℕ) → Enters k (sys_kill k pid)
  unfolding sys_kill log
  sys_kill-Enters pid =
      if_both (Enters k) (leb num_processes pid) _ _ (same k k e_badcall refl refl) (
        if_both (Enters k) (is_dead (state_of k.sched pid)) _ _ (same k k 0 refl refl)
          (at_kill pid, refl, refl))

  module _ (fuel c a1 a2 : ℕ) (v : IsSound k) (cur : k.sched.current ≡ some c)
      (o : HasOther k.sched c) (fu : a2 < fuel) where
    sys_read-Enters : (fd : ℕ) → Enters k (sys_read fuel k fd a1 a2)
    unfolding sys_read
    sys_read-Enters fd =
        if_both (Enters k) (a2 == 0) (returned k 0)
          (if not (valid_user_ptr a1 a2) then returned k e_fault else read_loop fuel k a1 a2 0)
          (same k k 0 refl refl)
          (if_both (Enters k) (not (valid_user_ptr a1 a2)) (returned k e_fault)
            (read_loop fuel k a1 a2 0) (same k k e_fault refl refl)
            (read_loop-Enters fuel k c a1 a2 v cur o fu))

    table-Enters :
        (num a0 a3 : ℕ)
        → Enters k
            (get_or (syscall_table fuel k) num (λ a0 a1 a2 a3. returned k e_badcall) a0 a1 a2 a3)
    unfolding syscall_table sys_yield sys_getpid sys_ticks
    table-Enters zero a0 a3 = sys_write-Enters a0 a1 a2
    table-Enters (suc zero) a0 a3 = (calls, refl, refl)
    table-Enters (suc (suc zero)) a0 a3 = (yields, refl, refl)
    table-Enters (suc (suc (suc zero))) a0 a3 = sys_exit-Enters
    table-Enters (suc (suc (suc (suc zero)))) a0 a3 = sys_read-Enters a0
    table-Enters (suc (suc (suc (suc (suc zero))))) a0 a3 = sys_ps-Enters a0 a1
    table-Enters (suc (suc (suc (suc (suc (suc zero)))))) a0 a3 = sys_kill-Enters a0
    table-Enters (suc (suc (suc (suc (suc (suc (suc zero))))))) a0 a3 = (calls, refl, refl)
    table-Enters (suc (suc (suc (suc (suc (suc (suc (suc _)))))))) a0 a3 =
        same k k e_badcall refl refl

-- While another process is READY or RUNNING every system call, whatever its registers, changes the
-- scheduler's state as one of its entries does.
pub call-Enters :
    (fuel : ℕ) (k : Kernel) (ctx : ExceptionContext) (c : ℕ)
    → IsSound k
    → k.sched.current ≡ some c
    → HasOther k.sched c
    → reg ctx 2 < fuel
    → Enters k (call fuel k ctx)
unfolding call
call-Enters fuel k ctx c v cur o fu =
    if_both (Enters k) (leb nr_syscalls (reg ctx 7)) (returned k e_badcall) _
      (same k k e_badcall refl refl)
      (table-Enters k fuel c (reg ctx 1) (reg ctx 2) v cur o fu (reg ctx 7) (reg ctx 0) (reg ctx 3))
