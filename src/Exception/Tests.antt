-- ===== src/Exception/Tests.antt =====
-- The exception handlers at concrete states.

use refix_os.Common.{ℕ, ◌≡◌, refl, ◌∷◌, some, ◌++◌, codes, replicate, arith}
use refix_os.Proc.{ready, blocked, dead}
use refix_os.Sched.{state_of}
use refix_os.Kernel.{Kernel}
use refix_os.Syscall.Dispatch.{ExceptionContext, with_r0}
use refix_os.Exception.{resumed, halted, handle_svc, fault_from_user, mode_name}
use refix_os.Exception.Faults.{
  IsRetiredFor, data_abort, prefetch_abort, handle_fault, user_fault_contained, user_fault_last,
}
use refix_os.Exception.Calls.{exit_alone_returns}
use refix_os.Samples.{kernel_of_others, idle-IsSound, busy-IsSound}

abbrev frame : ℕ → ℕ → ExceptionContext
frame spsr number = record {
  spsr = spsr;
  r = replicate 7 0 ++ number ∷ replicate 5 0;
  lr = 0x40000020;
}

-- The shell's `crash`: a write through a null pointer in user mode.
user_fault_contained_example :
    (n : ℕ) × IsRetiredFor
      (kernel_of_others ready).sched
      (kernel_of_others ready).mem
      1
      n
      (handle_fault (data_abort 0x805 0) (kernel_of_others ready) (frame 0x10 0))
unfolding fault_from_user
user_fault_contained_example =
    user_fault_contained (data_abort 0x805 0) (kernel_of_others ready) (frame 0x10 0) 1 0
      busy-IsSound refl refl (omega arith) (omega arith) refl

user_fault_last_example :
    (k' : Kernel) × (handle_fault (prefetch_abort 5 0) (kernel_of_others blocked) (frame 0x10 0)
      ≡ halted k')
unfolding fault_from_user
user_fault_last_example =
    user_fault_last (prefetch_abort 5 0) (kernel_of_others blocked) (frame 0x10 0) 1 idle-IsSound
      refl refl (λ i ne. ground arith)

exit_alone_returns_example :
    (k' : Kernel) × (handle_svc 0 (kernel_of_others blocked) (frame 0x10 3)
      ≡ (resumed k', with_r0 (frame 0x10 3) 0))
    × (k'.sched.current ≡ some 1)
    × (state_of k'.sched 1 ≡ dead)
exit_alone_returns_example =
    exit_alone_returns 0 (kernel_of_others blocked) (frame 0x10 3) 1 idle-IsSound refl refl
      (λ i ne. ground arith)

mode_name_runs : mode_name 0x600001D3 ≡ codes "SVC"
unfolding mode_name
mode_name_runs = refl
