-- ===== src/Syscall/Dispatch/Trace.antt =====
-- Every system call treats the scheduler by its operations alone.
use refix_os.Common.{
  ℕ, zero, suc, ◌≡◌, Option, some, none, if_both, not, Bool-cases, Option-cases, inl, inr, ltb, leb,
  ◌==◌, get_or, arith, ap, ◌+◌, if◌then◌else◌, take, ◌-◌, length,
}
use refix_os.Kernel.{Kernel, log, with_user_mem, user_mem}
use refix_os.Proc.{num_processes, is_dead}
use refix_os.Sched.{
  Sched, Switch, state_of, scheduler_block_on_input, scheduler_tick, scheduler_request_resched,
}
use refix_os.Sched.History.{
  Follows, Follows-refl, Follows-step, Follows-trans, tick, blocks, kills, step,
}
use refix_os.Syscall.Control.{
  request_resched, kill_entry, exit_from, sys_exit, sys_kill, sys_yield, sys_getpid, sys_ticks,
}
use refix_os.Syscall.Dispatch.{call, syscall_table, ExceptionContext, reg, nr_syscalls}
use refix_os.Syscall.Outcome.{Outcome, kernel_of, returned, e_badcall, with_sched, e_fault}
use refix_os.Syscall.Ps.{sys_ps}
use refix_os.Syscall.Ps.Listing.{sys_ps_lem, listing}
use refix_os.Syscall.Read.{sys_read, read_loop, take_byte, sleep_or}
use refix_os.Syscall.Read.Rounds.{round_full, round_byte, round_drained, round_asleep}
use refix_os.Syscall.Write.{sys_write, put_bytes_lem, put_bytes}
use refix_os.Uart.Ring.{uart_rx_pop}
use refix_os.Syscall.Pointer.{valid_user_ptr}
use refix_os.Kernel.Memory.{stored}

-- The scheduler of the kernel in which an outcome leaves things.
abbrev pub Traced : Kernel → Outcome → Type 0
Traced k o = Follows k.sched (kernel_of o).sched

request-Follows : (s : Sched) → Follows s (scheduler_request_resched s)
unfolding scheduler_request_resched step scheduler_tick
request-Follows s = Follows-step s tick

kill-Follows : (k : Kernel) (i : ℕ) → Follows k.sched (request_resched (kill_entry k i)).sched
unfolding step
kill-Follows k i =
    Follows-trans k.sched (step k.sched (kills i)) _ (Follows-step k.sched (kills i))
      (request-Follows (step k.sched (kills i)))

sleep_or-Follows :
    (k : Kernel) (p : Sched × Switch) (again : Kernel → Outcome)
    → Follows k.sched p.0
    → Traced (with_sched k p.0) (again (with_sched k p.0))
    → Traced k (sleep_or k p again)
sleep_or-Follows k (s, none) again f g = Follows-trans k.sched s _ f g
sleep_or-Follows k (s, some sw) again f g = f

read_loop_zero : (k : Kernel) (buf len n : ℕ) → Traced k (read_loop zero k buf len n)
unfolding read_loop
read_loop_zero k buf len n = Follows-refl k.sched

blocked-Follows : (s : Sched) → Follows s (scheduler_block_on_input s).0
unfolding step
blocked-Follows s = Follows-step s blocks

pub read_loop-Follows :
    (fuel : ℕ) (k : Kernel) (buf len n : ℕ) → Traced k (read_loop fuel k buf len n)
read_loop-Follows zero k buf len n = read_loop_zero k buf len n
read_loop-Follows (suc fuel) k buf len n = elim (Bool-cases (ltb n len)) [
  | inr full ↦ rw (round_full fuel k buf len n (ground arith)) (Follows-refl k.sched)
  | inl room ↦ elim (Option-cases (uart_rx_pop k.ring).0) [
    | inr (b, e) ↦
        rw (round_byte fuel k buf len n b (ground arith) e)
          (read_loop-Follows fuel (take_byte k (uart_rx_pop k.ring).1 (buf + n) b) buf len (n + 1))
    | inl e ↦ elim (Bool-cases (ltb 0 n)) [
      | inl some_read ↦
          rw (round_drained fuel k buf len n (ground arith) (ground arith) e) (Follows-refl k.sched)
      | inr start ↦ rw (round_asleep fuel k buf len n (ground arith) (ground arith) e) (
          sleep_or-Follows k (scheduler_block_on_input k.sched) _ (blocked-Follows k.sched)
            (read_loop-Follows fuel (with_sched k (scheduler_block_on_input k.sched).0) buf len n))
    ]
  ]
]

module _ (k : Kernel) where
  same : (o : Outcome) → (kernel_of o).sched ≡ k.sched → Traced k o
  same o e = rw e (Follows-refl k.sched)

  sys_exit-Follows : Traced k (sys_exit k)
  unfolding sys_exit exit_from log
  sys_exit-Follows = cases k.sched.current
    where
      cases : (o : Option ℕ) → Follows k.sched (request_resched (exit_from k o)).sched
      cases none = request-Follows k.sched
      cases (some p) = kill-Follows k p

  sys_kill-Follows : (pid : ℕ) → Traced k (sys_kill k pid)
  unfolding sys_kill log
  sys_kill-Follows pid = if_both (Traced k) (leb num_processes pid) _ _ (Follows-refl k.sched) (
      if_both (Traced k) (is_dead (state_of k.sched pid)) _ _ (Follows-refl k.sched)
        (kill-Follows k pid))

  sys_write-Follows : (fd buf len : ℕ) → Traced k (sys_write k fd buf len)
  unfolding sys_write
  sys_write-Follows fd buf len =
      if_both (Traced k) (not (valid_user_ptr buf len)) (returned k e_fault)
        (returned (put_bytes k buf len) len) (Follows-refl k.sched)
        (same (returned (put_bytes k buf len) len)
          (ap (λ (x : Kernel). x.sched) (put_bytes_lem k buf len)))

  sys_ps-Follows : (buf size : ℕ) → Traced k (sys_ps k buf size)
  sys_ps-Follows buf size =
      let text = take (size - 1) (listing k.sched.processes 0 num_processes) in
      rw (sys_ps_lem k buf size) (
        if_both (Traced k) (valid_user_ptr buf size)
          (returned (with_user_mem k (stored (user_mem k) buf text)) (length text))
          (returned k e_fault) (Follows-refl k.sched) (Follows-refl k.sched))

  sys_read-Follows : (fuel fd buf len : ℕ) → Traced k (sys_read fuel k fd buf len)
  unfolding sys_read
  sys_read-Follows fuel fd buf len =
      if_both (Traced k) (len == 0) (returned k 0)
        (if not (valid_user_ptr buf len) then returned k e_fault else read_loop fuel k buf len 0)
        (Follows-refl k.sched)
        (if_both (Traced k) (not (valid_user_ptr buf len)) (returned k e_fault)
          (read_loop fuel k buf len 0) (Follows-refl k.sched) (read_loop-Follows fuel k buf len 0))

  sys_yield-Follows : Traced k (sys_yield k)
  unfolding sys_yield
  sys_yield-Follows = request-Follows k.sched

  sys_getpid-Follows : Traced k (sys_getpid k)
  unfolding sys_getpid
  sys_getpid-Follows = Follows-refl k.sched

  sys_ticks-Follows : Traced k (sys_ticks k)
  unfolding sys_ticks
  sys_ticks-Follows = Follows-refl k.sched

abbrev answered : ℕ → Kernel → ℕ → ℕ → ℕ → ℕ → ℕ → Outcome
answered fuel k n a0 a1 a2 a3 =
    get_or (syscall_table fuel k) n (λ a0 a1 a2 a3. returned k e_badcall) a0 a1 a2 a3

table-Follows :
    (fuel : ℕ) (k : Kernel) (num a0 a1 a2 a3 : ℕ) → Traced k (answered fuel k num a0 a1 a2 a3)
unfolding syscall_table
table-Follows fuel k zero a0 a1 a2 a3 = sys_write-Follows k a0 a1 a2
table-Follows fuel k (suc zero) a0 a1 a2 a3 = sys_getpid-Follows k
table-Follows fuel k (suc (suc zero)) a0 a1 a2 a3 = sys_yield-Follows k
table-Follows fuel k (suc (suc (suc zero))) a0 a1 a2 a3 = sys_exit-Follows k
table-Follows fuel k (suc (suc (suc (suc zero)))) a0 a1 a2 a3 = sys_read-Follows k fuel a0 a1 a2
table-Follows fuel k (suc (suc (suc (suc (suc zero))))) a0 a1 a2 a3 = sys_ps-Follows k a0 a1
table-Follows fuel k (suc (suc (suc (suc (suc (suc zero)))))) a0 a1 a2 a3 = sys_kill-Follows k a0
table-Follows fuel k (suc (suc (suc (suc (suc (suc (suc zero))))))) a0 a1 a2 a3 =
    sys_ticks-Follows k
table-Follows fuel k (suc (suc (suc (suc (suc (suc (suc (suc _)))))))) a0 a1 a2 a3 =
    Follows-refl k.sched

-- Whatever the registers hold, the call changes the scheduler's state by its operations alone.
pub call-Follows : (fuel : ℕ) (k : Kernel) (ctx : ExceptionContext) → Traced k (call fuel k ctx)
unfolding call
call-Follows fuel k ctx =
    if_both (Traced k) (leb nr_syscalls (reg ctx 7)) (returned k e_badcall)
      (answered fuel k (reg ctx 7) (reg ctx 0) (reg ctx 1) (reg ctx 2) (reg ctx 3))
      (Follows-refl k.sched)
      (table-Follows fuel k (reg ctx 7) (reg ctx 0) (reg ctx 1) (reg ctx 2) (reg ctx 3))
