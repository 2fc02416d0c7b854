-- ===== src/Machine.antt =====
-- The machine as the processes and the devices see it: the handlers of exception_handlers.c entered
-- from user mode, one after the other, and context_switch of context_switch.S between them. The entry
-- stubs mask interrupts, so that a handler runs to its end or to its context switch. What a process
-- computes by itself is its stores, and the devices come into any state between two steps.
pub mod Lawful
pub mod Calls
pub mod Interrupts
pub mod Killed
pub mod Well
pub mod Handlers
pub mod Isolation
pub mod Delivery
pub mod Onwards
pub mod Entered
pub mod Served
pub mod Ticks
pub mod Fairness
mod Wired
pub mod Start
mod Tests
mod FairnessTests
use refix_os.Syscall.Dispatch.{
  ExceptionContext, deliver, syscall_dispatch, Dispatched, finished, reg, suspended, stuck,
}
use refix_os.Irq.Bus.{Bus}
use refix_os.Irq.Core.{Intc, IntcOps}
use refix_os.Exception.Faults.{Fault, handle_fault}
use refix_os.Exception.{
  Handled, resumed, after_dispatch, switched, after_kill, halted, hung, fault_from_user,
}
use refix_os.Common.{Option, ℕ, some, none, if◌then◌else◌, ◌≡◌, ◌==◌, ◌≤◌, ◌<◌, ◌+◌, u32_mod, true}
use refix_os.Kernel.{with_user_mem, Kernel, poke, user_mem}
use refix_os.Mmu.{Board}
use refix_os.Syscall.Read.{read_loop}
use refix_os.Irq.Preempt.{interrupt}
use refix_os.Syscall.Pointer.{user_virt_base, user_region_size}

-- Where the kernel stack of a process goes on when context_switch loads it.
pub data Cont : Type 0 where
  -- the frame of process_build_initial_frame
  fresh : Cont
  -- the tail of handle_svc, with the frame that it goes back to
  after_call : ExceptionContext → Cont
  -- the tail of handle_irq
  after_interrupt : Cont
  -- scheduler_block_on_input, called by sys_read for the call with this frame
  waiting : ExceptionContext → Cont
  -- user_fault_kill
  dying : Cont

pub data Mode : Type 0 where
  -- the current process runs in user mode
  user : Mode
  -- context_switch has been called, and the kernel stack of the current process is next
  switching : Mode
  -- in halt_forever
  stopped : Mode
  -- in a loop that was not over when its fuel was
  looping : Mode

pub record Machine (D : Type 0) : Type 0 where
  pub intc : Intc D
  pub kernel : Kernel
  pub conts : ℕ → Cont
  pub mode : Mode

-- The continuation that a switch in the system call handler leaves behind.
abbrev pub pending : ExceptionContext → Dispatched → Cont
pending ctx (finished k ctx') = after_call ctx'
pending ctx (suspended k sw) = waiting ctx
pending ctx (stuck k) = waiting ctx

module _ {D : Type 0} where
  -- The machine after a handler. The pair of a switch is (prev, next), and prev is left behind.
  abbrev pub settle : Machine D → Cont → Handled → Machine D
  settle m cont (resumed k) = record m { kernel = k; mode = user }
  settle m cont (switched k (prev, next)) = record m {
    kernel = k;
    conts = λ i. if i == prev then cont else m.conts i;
    mode = switching;
  }
  settle m cont (halted k) = record m { kernel = k; mode = stopped }
  settle m cont (hung k) = record m { kernel = k; mode = looping }

  abbrev pub answer : Machine D → ExceptionContext → Dispatched → Machine D
  answer m ctx d = settle m (pending ctx d) (after_dispatch ctx d).0

  -- handle_svc.
  unfoldable pub trap : ℕ → ExceptionContext → Machine D → Machine D
  trap fuel ctx m = answer m ctx (syscall_dispatch fuel m.kernel ctx)

  -- The three fault handlers.
  unfoldable pub fault : Fault → ExceptionContext → Machine D → Machine D
  fault f ctx m = settle m dying (handle_fault f m.kernel ctx)

  -- A store of the process itself.
  unfoldable pub user_store : ℕ → ℕ → Machine D → Machine D
  user_store va x m = record m { kernel = with_user_mem m.kernel (poke (user_mem m.kernel) va x) }

  -- What follows the call of context_switch in the kernel stack of the process that it loads: in
  -- user_fault_kill it is the panic, in sys_read the next round of the loop, at `n` = 0.
  abbrev pub resume_at : ℕ → Machine D → Cont → Machine D
  resume_at fuel m fresh = record m { mode = user }
  resume_at fuel m (after_call ctx) = record m { mode = user }
  resume_at fuel m after_interrupt = record m { mode = user }
  resume_at fuel m (waiting ctx) =
      answer m ctx (deliver ctx (read_loop fuel m.kernel (reg ctx 1) (reg ctx 2) 0))
  resume_at fuel m dying = settle m dying (after_kill m.kernel (m.kernel.sched, none))

  abbrev pub resume_from : ℕ → Machine D → Option ℕ → Machine D
  resume_from fuel m none = m
  resume_from fuel m (some n) = resume_at fuel m (m.conts n)

  unfoldable pub resume : ℕ → Machine D → Machine D
  resume fuel m = resume_from fuel m m.kernel.sched.current

  -- handle_irq; the controller's state changes with the handler.
  abbrev pub interrupted : Machine D → Option (Intc D × Handled) → Machine D
  interrupted m none = record m { mode = looping }
  interrupted m (some (i, h)) = settle (record m { intc = i }) after_interrupt h

  module _ (bus : Bus D) (ops : IntcOps D) (b : Board) where
    -- `d` is the state that the devices are in when the interrupt is taken.
    unfoldable pub interrupt_at : ℕ → D → Machine D → Machine D
    interrupt_at fuel d m =
        interrupted m (interrupt bus fuel ops b (record (m.intc) { device = d }) m.kernel)

    pub data Step : Machine D → Machine D → Type 0 where
      stores :
          (m : Machine D) (va x : ℕ)
          → m.mode ≡ user
          → user_virt_base ≤ va
          → va < user_virt_base + user_region_size
          → Step m (user_store va x m)
      traps :
          (m : Machine D) (fuel : ℕ) (ctx : ExceptionContext)
          → m.mode ≡ user
          → ((i : ℕ) → reg ctx i < u32_mod)
          → Step m (trap fuel ctx m)
      faults :
          (m : Machine D) (f : Fault) (ctx : ExceptionContext)
          → m.mode ≡ user
          → fault_from_user ctx ≡ true
          → Step m (fault f ctx m)
      interrupts :
          (m : Machine D) (fuel : ℕ) (d : D) → m.mode ≡ user → Step m (interrupt_at fuel d m)
      resumes : (m : Machine D) (fuel : ℕ) → m.mode ≡ switching → Step m (resume fuel m)

    pub data Steps : Machine D → Machine D → Type 0 where
      done : (m : Machine D) → Steps m m
      onwards : (m n o : Machine D) → Step m n → Steps n o → Steps m o
