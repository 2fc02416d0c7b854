-- ===== src/Syscall/Outcome.antt =====
-- How a handler of kernel/syscall/syscall.c ends. A `long` is its bit pattern, below 2 ^ 32.
use refix_os.Common.{ℕ, u32_mod, ◌-◌}
use refix_os.Kernel.{Kernel}
use refix_os.Sched.{Sched}

pub data Outcome : Type 0 where
  -- it returned a value
  returned : Kernel → ℕ → Outcome
  -- it called context_switch with this pair, and waits to be switched back in
  parked : Kernel → ℕ × ℕ → Outcome
  -- it was still looping when the fuel ran out
  spinning : Kernel → Outcome

-- E_BADCALL and E_FAULT, -1 and -2.
abbrev pub e_badcall : ℕ
e_badcall = u32_mod - 1

abbrev pub e_fault : ℕ
e_fault = u32_mod - 2

abbrev pub with_sched : Kernel → Sched → Kernel
with_sched k s = record k { sched = s }

-- The kernel in which a call ends, or waits.
abbrev pub kernel_of : Outcome → Kernel
kernel_of (returned k v) = k
kernel_of (parked k sw) = k
kernel_of (spinning k) = k
