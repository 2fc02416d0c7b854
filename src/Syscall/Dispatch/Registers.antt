-- ===== src/Syscall/Dispatch/Registers.antt =====
-- The calling convention of kernel/include/syscall.h: what the caller finds in its registers.
use refix_os.Syscall.Dispatch.{ExceptionContext, syscall_dispatch, deliver, finished, reg, call}
use refix_os.Common.{ℕ, ◌≡◌, ◌≢◌, arith, get_or-set_ne}
use refix_os.Syscall.Outcome.{Outcome, returned, parked, spinning}
use refix_os.Kernel.{Kernel}

deliver_registers :
    (ctx : ExceptionContext) (o : Outcome) (k' : Kernel) (ctx' : ExceptionContext) (i : ℕ)
    → deliver ctx o ≡ finished k' ctx'
    → i ≢ 0
    → (reg ctx' i ≡ reg ctx i) × (ctx'.spsr ≡ ctx.spsr) × (ctx'.lr ≡ ctx.lr)
deliver_registers ctx (returned k v) k' ctx' i e ne = ground (arith, get_or-set_ne ctx.r 0 i v 0)
deliver_registers ctx (parked k sw) k' ctx' i e ne = ground arith
deliver_registers ctx (spinning k) k' ctx' i e ne = ground arith

-- A dispatch that returns has changed no register but r0, nor the saved status and return address:
-- whatever the call number, r1 to r12, SPSR and the return address are the caller's own.
dispatch_keeps_registers :
    (fuel : ℕ) (k k' : Kernel) (ctx ctx' : ExceptionContext) (i : ℕ)
    → syscall_dispatch fuel k ctx ≡ finished k' ctx'
    → i ≢ 0
    → (reg ctx' i ≡ reg ctx i) × (ctx'.spsr ≡ ctx.spsr) × (ctx'.lr ≡ ctx.lr)
unfolding syscall_dispatch
dispatch_keeps_registers fuel k k' ctx ctx' i e ne =
    deliver_registers ctx (call fuel k ctx) k' ctx' i e ne
