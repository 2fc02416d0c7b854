-- ===== src/Kernel/Sound.antt =====
-- The invariant of the kernel's state: those of the scheduler and of the receive ring.
use refix_os.Sched.Invariant
use refix_os.Uart.Ring.Refine
use refix_os.Kernel.{Kernel}

pub record IsSound (k : Kernel) : Type 0 where
  pub sched : Invariant.IsValid k.sched
  pub ring : Refine.IsValid k.ring
