-- ===== src/Context/Entry.antt =====
-- The entry and exit code of kernel/arch/arm/exception/exception_entry.S for system calls and
-- interrupts. `m` are the words of memory and `sp` is the stack pointer of SVC mode.
use refix_os.Exception.Faults.{Fault, data_abort, prefetch_abort, undefined, handle_fault}
use refix_os.Boot.{Words}
use refix_os.Context.{Core, UserState, store_words, load_words, ret_from_first_entry}
use refix_os.Syscall.Dispatch.{ExceptionContext}
use refix_os.Exception.{Handled, handle_svc}
use refix_os.Kernel.{Kernel}
use refix_os.Common.{ℕ, add32, sub32, ◌*◌, ◌∷◌, [], ◌++◌}

-- What exception_entry_svc pushes, and the address of the frame.
unfoldable pub svc_entry : Words → ℕ → UserState → Words × ℕ
svc_entry m sp u =
    let sp1 = sub32 sp (14 * 4) in
    let m1 = store_words m sp1 (u.r ++ u.pc ∷ []) in
    let sp2 = sub32 sp1 4 in (store_words m1 sp2 (u.cpsr ∷ []), sp2)

-- The frame as the handler reads it, and as it leaves it.
unfoldable pub context_at : Words → ℕ → ExceptionContext
context_at m a = record { spsr = m a; r = load_words m (add32 a 4) 13; lr = m (add32 a 56) }

unfoldable pub put_context : Words → ℕ → ExceptionContext → Words
put_context m a ctx = store_words m a (ctx.spsr ∷ (ctx.r ++ ctx.lr ∷ []))

-- What the end of exception_entry_svc pops; the banked registers of user mode are as they were.
unfoldable pub svc_exit : Words → ℕ → UserState → UserState × ℕ
svc_exit m sp u =
    let sp1 = add32 sp 4 in
    (
      record u { r = load_words m sp1 13; pc = m (add32 sp1 (13 * 4)); cpsr = m sp },
      add32 sp1 (14 * 4),
    )

-- exception_entry_svc, with what handle_svc does and the state in which it leaves for user mode.
unfoldable pub exception_entry_svc : ℕ → Kernel → Words → ℕ → UserState → Handled × UserState × ℕ
exception_entry_svc fuel k m sp u =
    let (m1, sp1) = svc_entry m sp u in
    let (h, ctx) = handle_svc fuel k (context_at m1 sp1) in
    let (u', sp') = svc_exit (put_context m1 sp1 ctx) sp1 u in (h, u', sp')

-- exception_entry_irq up to the call of handle_irq. LR of IRQ mode is the interrupted address + 4.
unfoldable pub irq_entry : Core → UserState → Core
irq_entry s u =
    let lr = sub32 (add32 u.pc 4) 4 in
    let sp1 = sub32 s.cpu.sp (2 * 4) in
    let m1 = store_words s.memory sp1 (lr ∷ u.cpsr ∷ []) in
    let sp2 = sub32 sp1 (14 * 4) in
    record s {
      cpu = record (s.cpu) { sp = sp2 };
      memory = store_words m1 sp2 (u.r ++ s.cpu.lr ∷ []);
    }

-- The rest of exception_entry_irq: the same two instructions as ret_from_first_entry.
unfoldable pub irq_exit : Core → UserState × ℕ
irq_exit s = ret_from_first_entry s

-- By how much LR of the exception's mode is ahead of the instruction at fault.
abbrev pub lr_ahead : Fault → ℕ
lr_ahead (data_abort dfsr dfar) = 8
lr_ahead (prefetch_abort ifsr ifar) = 4
lr_ahead undefined = 4

-- The entries of the three faults up to the call of their handler, on the stack of their mode; the
-- processor sets LR, and the entry takes it back.
unfoldable pub fault_entry : Fault → Words → ℕ → UserState → Words × ℕ
fault_entry f m sp u =
    svc_entry m sp (record u { pc = sub32 (add32 u.pc (lr_ahead f)) (lr_ahead f) })

unfoldable pub exception_entry_fault : Fault → Kernel → Words → ℕ → UserState → Handled
exception_entry_fault f k m sp u =
    let (m1, sp1) = fault_entry f m sp u in handle_fault f k (context_at m1 sp1)
