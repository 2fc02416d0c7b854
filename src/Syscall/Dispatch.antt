-- ===== src/Syscall/Dispatch.antt =====
-- `syscall_dispatch`: from the registers of the trapped process to a handler, and back.
pub mod Registers
pub mod Safety
pub mod Trace
use refix_os.Common.{ℕ, List, set, get_or, if◌then◌else◌, leb, ◌∷◌, []}
use refix_os.Syscall.Outcome.{Outcome, returned, parked, spinning, e_badcall}
use refix_os.Kernel.{Kernel}
use refix_os.Syscall.Write.{sys_write}
use refix_os.Syscall.Control.{sys_getpid, sys_yield, sys_exit, sys_kill, sys_ticks}
use refix_os.Syscall.Read.{sys_read}
use refix_os.Syscall.Ps.{sys_ps}

-- `exception_context_t` of kernel/include/exception.h: r holds r0 to r12.
pub record ExceptionContext : Type 0 where
  pub spsr : ℕ
  pub r : List ℕ
  pub lr : ℕ

abbrev pub reg : ExceptionContext → ℕ → ℕ
reg ctx i = get_or ctx.r i 0

abbrev pub with_r0 : ExceptionContext → ℕ → ExceptionContext
with_r0 ctx v = record ctx { r = set ctx.r 0 v }

abbrev pub nr_syscalls : ℕ
nr_syscalls = 8

abbrev pub Handler : Type 0
Handler = ℕ → ℕ → ℕ → ℕ → Outcome

-- No entry of the table is a null pointer. `fuel` is for the loop of sys_read.
unfoldable pub syscall_table : ℕ → Kernel → List Handler
syscall_table fuel k =
    (λ a0 a1 a2 a3. sys_write k a0 a1 a2)
    ∷ (λ a0 a1 a2 a3. sys_getpid k)
    ∷ (λ a0 a1 a2 a3. sys_yield k)
    ∷ (λ a0 a1 a2 a3. sys_exit k)
    ∷ (λ a0 a1 a2 a3. sys_read fuel k a0 a1 a2)
    ∷ (λ a0 a1 a2 a3. sys_ps k a0 a1)
    ∷ (λ a0 a1 a2 a3. sys_kill k a0)
    ∷ (λ a0 a1 a2 a3. sys_ticks k)
    ∷ []

-- How the dispatch ends: with the result in r0, or as the handler that did not return.
pub data Dispatched : Type 0 where
  finished : Kernel → ExceptionContext → Dispatched
  suspended : Kernel → ℕ × ℕ → Dispatched
  stuck : Kernel → Dispatched

abbrev pub deliver : ExceptionContext → Outcome → Dispatched
deliver ctx (returned k v) = finished k (with_r0 ctx v)
deliver ctx (parked k sw) = suspended k sw
deliver ctx (spinning k) = stuck k

-- The call that the registers ask for: r7 holds its number, r0 to r3 the arguments.
unfoldable pub call : ℕ → Kernel → ExceptionContext → Outcome
call fuel k ctx =
    let num = reg ctx 7 in
    if leb nr_syscalls num
    then returned k e_badcall
    else get_or (syscall_table fuel k) num (λ a0 a1 a2 a3. returned k e_badcall) (reg ctx 0)
        (reg ctx 1) (reg ctx 2) (reg ctx 3)

unfoldable pub syscall_dispatch : ℕ → Kernel → ExceptionContext → Dispatched
syscall_dispatch fuel k ctx = deliver ctx (call fuel k ctx)
