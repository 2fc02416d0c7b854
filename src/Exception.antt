-- ===== src/Exception.antt =====
-- kernel/arch/arm/exception/exception_handlers.c: the handlers that the entry stubs of
-- exception_entry.S call. The fault status and address registers are arguments, and so is the work of
-- irq_dispatch, which is modelled in Irq.
pub mod Faults
pub mod Calls
pub mod Vectors
mod Tests
use mathlib.Core.Option
use refix_os.Common.{
  ℕ, List, codes, Option, some, none, if◌then◌else◌, ◌==◌, ◌%◌, ◌/◌, ◌^◌, ◌∷◌, [], Bool,
}
use refix_os.Kernel.{Kernel, log}
use refix_os.Proc.{dead, set_state}
use refix_os.Sched.{Sched, Switch, schedule}
use refix_os.Syscall.Control.{pid_of, name_of, kill_entry, request_resched}
use refix_os.Syscall.Dispatch.{
  ExceptionContext, reg, Dispatched, finished, suspended, stuck, syscall_dispatch,
}
use refix_os.Syscall.Outcome.{with_sched}
use refix_os.Uart.Format.{num, str, Arg}

-- How a handler ends.
pub data Handled : Type 0 where
  -- it returns, and the entry stub goes back to what was interrupted
  resumed : Kernel → Handled
  -- it called context_switch with this pair
  switched : Kernel → ℕ × ℕ → Handled
  -- it waits for ever in halt_forever
  halted : Kernel → Handled
  -- a system call was still looping when its fuel ran out
  hung : Kernel → Handled

unfoldable pub mode_name : ℕ → List ℕ
mode_name cpsr =
    let m = cpsr % 32 in
    if m == 0x10
    then codes "USR"
    else if m == 0x11
    then codes "FIQ"
    else if m == 0x12
    then codes "IRQ"
    else if m == 0x13
    then codes "SVC"
    else if m == 0x17
    then codes "ABT"
    else if m == 0x1B
    then codes "UND"
    else if m == 0x1F
    then codes "SYS"
    else codes "???"

abbrev pub masked_name : ℕ → ℕ → List ℕ
masked_name spsr bit = if spsr / 2 ^ bit % 2 == 1 then codes "masked" else codes "on"

abbrev spsr_line : List ℕ
spsr_line = codes "  SPSR = 0x%08x  (mode=%s, IRQ=%s, FIQ=%s)\n"

abbrev pc_line : List ℕ
pc_line = codes "  PC   = 0x%08x  (faulting/return address)\n"

abbrev r0_line : List ℕ
r0_line = codes "  r0 =%08x  r1 =%08x  r2 =%08x  r3 =%08x\n"

abbrev r4_line : List ℕ
r4_line = codes "  r4 =%08x  r5 =%08x  r6 =%08x  r7 =%08x\n"

abbrev r8_line : List ℕ
r8_line = codes "  r8 =%08x  r9 =%08x  r10=%08x  r11=%08x\n"

abbrev r12_line : List ℕ
r12_line = codes "  r12=%08x\n"

abbrev four : ExceptionContext → ℕ → ℕ → ℕ → ℕ → List Arg
four ctx a b c d = num (reg ctx a) ∷ num (reg ctx b) ∷ num (reg ctx c) ∷ num (reg ctx d) ∷ []

unfoldable pub dump_context : Kernel → ExceptionContext → Kernel
dump_context k ctx =
    let k1 = log k spsr_line (
      num ctx.spsr
      ∷ str (some (mode_name ctx.spsr))
      ∷ str (some (masked_name ctx.spsr 7))
      ∷ str (some (masked_name ctx.spsr 6))
      ∷ []) in
    let k2 = log k1 pc_line (num ctx.lr ∷ []) in
    let k3 = log k2 r0_line (four ctx 0 1 2 3) in
    let k4 = log k3 r4_line (four ctx 4 5 6 7) in
    let k5 = log k4 r8_line (four ctx 8 9 10 11) in log k5 r12_line (num (reg ctx 12) ∷ [])

unfoldable pub halt_forever : Kernel → Handled
halt_forever k = halted (log k (codes "[PANIC] system halted.\n") [])

unfoldable pub fault_from_user : ExceptionContext → Bool
fault_from_user ctx = ctx.spsr % 32 == 0x10

-- `if (current) …` of user_fault_kill.
unfoldable pub kill_current : Kernel → Option ℕ → List ℕ → Kernel
kill_current k none kind = k
kill_current k (some c) kind =
    kill_entry
      (log k (codes "[KILL] pid=%u name=%s killed by %s\n")
        (num (pid_of k c) ∷ str (name_of k c) ∷ str (some kind) ∷ []))
      c

-- user_fault_kill behind its call of `schedule`.
abbrev pub after_kill : Kernel → Sched × Switch → Handled
after_kill k (s, some sw) = switched (with_sched k s) sw
after_kill k (s, none) =
    halt_forever
      (log (with_sched k s) (codes "[PANIC] no runnable process left after user fault\n") [])

unfoldable pub user_fault_kill : Kernel → List ℕ → Handled
user_fault_kill k kind =
    let dying = request_resched (kill_current k k.sched.current kind) in
    after_kill dying (schedule dying.sched)

unfoldable pub handle_data_abort : Kernel → ℕ → ℕ → ExceptionContext → Handled
handle_data_abort k dfsr dfar ctx =
    if fault_from_user ctx
    then user_fault_kill
        (log k (codes "[FAULT] data abort  DFAR=0x%08x DFSR=0x%08x PC=0x%08x\n")
          (num dfar ∷ num dfsr ∷ num ctx.lr ∷ []))
        (codes "data abort")
    else let k1 = log k (codes "\n[PANIC] *** DATA ABORT (kernel) ***\n") [] in
      let k2 = log k1 (codes "  DFAR = 0x%08x  (faulting address)\n") (num dfar ∷ []) in
      let k3 = log k2 (codes "  DFSR = 0x%08x  (fault status)\n") (num dfsr ∷ []) in
      halt_forever (dump_context k3 ctx)

unfoldable pub handle_prefetch_abort : Kernel → ℕ → ℕ → ExceptionContext → Handled
handle_prefetch_abort k ifsr ifar ctx =
    if fault_from_user ctx
    then user_fault_kill
        (log k (codes "[FAULT] prefetch abort  IFAR=0x%08x IFSR=0x%08x\n")
          (num ifar ∷ num ifsr ∷ []))
        (codes "prefetch abort")
    else let k1 = log k (codes "\n[PANIC] *** PREFETCH ABORT (kernel) ***\n") [] in
      let k2 = log k1 (codes "  IFAR = 0x%08x  (faulting address)\n") (num ifar ∷ []) in
      let k3 = log k2 (codes "  IFSR = 0x%08x  (fault status)\n") (num ifsr ∷ []) in
      halt_forever (dump_context k3 ctx)

unfoldable pub handle_undefined : Kernel → ExceptionContext → Handled
handle_undefined k ctx =
    if fault_from_user ctx
    then user_fault_kill (log k (codes "[FAULT] undefined instr at PC=0x%08x\n") (num ctx.lr ∷ []))
        (codes "undefined instruction")
    else halt_forever
        (dump_context (log k (codes "\n[PANIC] *** UNDEFINED INSTRUCTION (kernel) ***\n") []) ctx)

-- The call of `schedule` that ends handle_svc and handle_irq.
abbrev pub schedule_tail : Kernel → Sched × Switch → Handled
schedule_tail k (s, some sw) = switched (with_sched k s) sw
schedule_tail k (s, none) = resumed (with_sched k s)

abbrev pub after_dispatch : ExceptionContext → Dispatched → Handled × ExceptionContext
after_dispatch ctx (finished k ctx') = (schedule_tail k (schedule k.sched), ctx')
after_dispatch ctx (suspended k sw) = (switched k sw, ctx)
after_dispatch ctx (stuck k) = (hung k, ctx)

-- With it the frame that the entry stub restores the registers from.
unfoldable pub handle_svc : ℕ → Kernel → ExceptionContext → Handled × ExceptionContext
handle_svc fuel k ctx = after_dispatch ctx (syscall_dispatch fuel k ctx)

abbrev pub after_irq {ℓ} : {D : Type ℓ} → Option (D × Kernel) → Option (D × Handled)
after_irq none = none
after_irq (some (d, k)) = some (d, schedule_tail k (schedule k.sched))

-- `irq_dispatch` gives the state of the devices with the kernel's; `none` is its.
unfoldable pub handle_irq {ℓ} :
    {D : Type ℓ} → (Kernel → Option (D × Kernel)) → Kernel → Option (D × Handled)
handle_irq irq_dispatch k = after_irq (irq_dispatch k)
