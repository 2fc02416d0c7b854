-- ===== src/Kernel.antt =====
-- The kernel's global state, put together from the parts, and its console output.
--
-- A field for each of the statics that the system calls and interrupt handlers touch: the scheduler
-- (kernel/sched/scheduler.c, kernel/proc/process.c), the receive ring (kernel/drivers/uart/
-- uart_core.c), the tick counter and callback (kernel/drivers/timer/timer_core.c). `out` holds the
-- bytes handed to the console's `putc`, in order. `mem i va` is the byte that process i reads at the
-- user address `va`.
pub mod Memory
pub mod Sound
pub mod Safe
use mathlib.Core.Option
use refix_os.Common.{Bool, ℕ, List, ◌++◌, if◌then◌else◌, Option, some, ◌==◌, [], none}
use refix_os.Sched.{Sched}
use refix_os.Uart.Ring.{Ring}
use refix_os.Uart.Format.{Arg, uart_printf}
use refix_os.Timer.{Timer}

pub record Kernel : Type 0 where
  pub sched : Sched
  pub ring : Ring
  pub out : List ℕ
  pub timer : Timer
  pub mem : ℕ → ℕ → ℕ

-- The memory of the current process, as its page table shows it. With no process there is none.
abbrev pub memory_at : (ℕ → ℕ → ℕ) → Option ℕ → ℕ → ℕ
memory_at mem none va = 0
memory_at mem (some c) va = mem c va

abbrev pub user_mem : Kernel → ℕ → ℕ
user_mem k = memory_at k.mem k.sched.current

abbrev pub with_memory_at : (ℕ → ℕ → ℕ) → Option ℕ → (ℕ → ℕ) → ℕ → ℕ → ℕ
with_memory_at mem none m = mem
with_memory_at mem (some c) m = λ i. if i == c then m else mem i

abbrev pub with_user_mem : Kernel → (ℕ → ℕ) → Kernel
with_user_mem k m = record k { mem = with_memory_at k.mem k.sched.current m }

-- One byte written.
abbrev pub poke : (ℕ → ℕ) → ℕ → ℕ → ℕ → ℕ
poke m va b x = if x == va then b else m x

abbrev pub emit : Kernel → List ℕ → Kernel
emit k bs = record k { out = k.out ++ bs }

-- `uart_printf`, whose calls in the kernel all pass what their format reads.
unfoldable pub log : Kernel → List ℕ → List Arg → Kernel
log k fmt args = emit k (Option.get_or (uart_printf fmt args) [])
