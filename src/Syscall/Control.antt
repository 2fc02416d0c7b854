-- ===== src/Syscall/Control.antt =====
-- sys_getpid, sys_yield, sys_exit, sys_kill and sys_ticks.
use refix_os.Common.{ℕ, List, codes, Option, if◌then◌else◌, some, none, leb, u32_mod, ◌-◌, ◌∷◌, []}
use refix_os.Kernel.{Kernel, log}
use refix_os.Syscall.Outcome.{Outcome, with_sched, returned, e_badcall}
use refix_os.Sched.{scheduler_request_resched, state_of}
use refix_os.Proc.{set_state, dead, num_processes, is_dead}
use refix_os.Timer.{timer_get_ticks}
use refix_os.Uart.Format.{num, str}

-- The fields of the current process that a message prints.
abbrev pub pid_of : Kernel → ℕ → ℕ
pid_of k i = (k.sched.processes i).pid

abbrev pub name_of : Kernel → ℕ → Option (List ℕ)
name_of k i = (k.sched.processes i).name

abbrev pub kill_entry : Kernel → ℕ → Kernel
kill_entry k i = with_sched k (record k.sched { processes = set_state k.sched.processes i dead })

abbrev pub request_resched : Kernel → Kernel
request_resched k = with_sched k (scheduler_request_resched k.sched)

unfoldable pub sys_getpid : Kernel → Outcome
sys_getpid k = returned k (elim k.sched.current [ none ↦ u32_mod - 1 | some c ↦ pid_of k c ])

unfoldable pub sys_yield : Kernel → Outcome
sys_yield k = returned (request_resched k) 0

abbrev exit_message : List ℕ
exit_message = codes "[EXIT]  pid=%u name=%s\n"

unfoldable pub exit_from : Kernel → Option ℕ → Kernel
exit_from k none = k
exit_from k (some c) = kill_entry (log k exit_message (num (pid_of k c) ∷ str (name_of k c) ∷ [])) c

unfoldable pub sys_exit : Kernel → Outcome
unfolding exit_from
sys_exit k = returned (request_resched (exit_from k k.sched.current)) 0

abbrev kill_message : List ℕ
kill_message = codes "[KILL] pid=%u name=%s killed by pid=%u via sys_kill\n"

abbrev killer : Kernel → Option ℕ → ℕ
killer k none = 99
killer k (some c) = pid_of k c

unfoldable pub sys_kill : Kernel → ℕ → Outcome
sys_kill k pid =
    if leb num_processes pid
    then returned k e_badcall
    else if is_dead (state_of k.sched pid)
    then returned k 0
    else let logged =
        log k kill_message
          (num (pid_of k pid) ∷ str (name_of k pid) ∷ num (killer k k.sched.current) ∷ []) in
      returned (request_resched (kill_entry logged pid)) 0

unfoldable pub sys_ticks : Kernel → Outcome
sys_ticks k = returned k (timer_get_ticks k.timer)
