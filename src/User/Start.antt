-- ===== src/User/Start.antt =====
-- user/crt0.S: what becomes of a program whose main returns. Up to the call of main it does nothing.
use refix_os.Common.{ℕ, ◌≡◌, some, ◌<◌, ◌≢◌, true, refl}
use refix_os.Syscall.Dispatch.{ExceptionContext}
use refix_os.Kernel.{Kernel}
use refix_os.User.Calls.{with_reg}
use refix_os.Kernel.Sound.{IsSound}
use refix_os.Proc.{num_processes}
use refix_os.Sched.{is_runnable, state_of}
use refix_os.Exception.Faults.{IsRetiredFor}
use refix_os.Exception.{handle_svc}
use refix_os.User.Calls.{registers}
use refix_os.Exception.Calls.{exit_hands_over}

-- `mov r7, #3` in front of the `svc` of __noreturn_sys_exit.
unfoldable pub noreturn_sys_exit : ExceptionContext → ExceptionContext
noreturn_sys_exit ctx = with_reg ctx 7 3

-- A program whose main returns is retired, whatever main left in the registers: when another process is
-- READY or RUNNING, the system call of _ustart marks the current process DEAD and switches to a
-- process that was runnable, with the scheduler invariant and all memory kept.
pub main_returns :
    (fuel : ℕ) (k : Kernel) (f : ℕ → ℕ) (spsr lr c i : ℕ)
    → IsSound k
    → k.sched.current ≡ some c
    → i < num_processes
    → i ≢ c
    → is_runnable (state_of k.sched i) ≡ true
    → (n : ℕ) × IsRetiredFor k.sched k.mem c n
        (handle_svc fuel k (noreturn_sys_exit (registers f spsr lr))).0
unfolding noreturn_sys_exit
main_returns fuel k f spsr lr c i v cur li ne run =
    exit_hands_over fuel k (with_reg (registers f spsr lr) 7 3) c i v refl cur li ne run
