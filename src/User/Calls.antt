-- ===== src/User/Calls.antt =====
-- user/libc/syscall.h: the wrappers, up to the `svc` and from there back. A C variable that stands for a
-- register and is not set leaves it as it was.
use refix_os.Common.{ℕ, ◌∷◌, set, ◌≡◌, [], refl, length, ap, get_or-set_self, arith}
use refix_os.Syscall.Control
use refix_os.Syscall.Write
use refix_os.Syscall.Read
use refix_os.Syscall.Ps
use refix_os.Syscall.Dispatch.{
  ExceptionContext, syscall_dispatch, call, syscall_table, deliver, reg, with_r0,
}
use refix_os.Kernel.{Kernel}
use refix_os.Syscall.Outcome.{Outcome}

-- The registers of a process, of which r0 to r12 are given by the function.
abbrev pub registers : (ℕ → ℕ) → ℕ → ℕ → ExceptionContext
registers f spsr lr = record {
  spsr = spsr;
  r = f 0 ∷ f 1 ∷ f 2 ∷ f 3 ∷ f 4 ∷ f 5 ∷ f 6 ∷ f 7 ∷ f 8 ∷ f 9 ∷ f 10 ∷ f 11 ∷ f 12 ∷ [];
  lr = lr;
}

abbrev pub with_reg : ExceptionContext → ℕ → ℕ → ExceptionContext
with_reg ctx i v = record ctx { r = set ctx.r i v }

-- The registers with which each wrapper reaches its `svc`.
unfoldable pub sys_write : ExceptionContext → ℕ → ℕ → ℕ → ExceptionContext
sys_write ctx fd buf len = with_reg (with_reg (with_reg (with_reg ctx 0 fd) 1 buf) 2 len) 7 0

unfoldable pub sys_getpid : ExceptionContext → ExceptionContext
sys_getpid ctx = with_reg ctx 7 1

unfoldable pub sys_read : ExceptionContext → ℕ → ℕ → ℕ → ExceptionContext
sys_read ctx fd buf len = with_reg (with_reg (with_reg (with_reg ctx 0 fd) 1 buf) 2 len) 7 4

unfoldable pub sys_ps : ExceptionContext → ℕ → ℕ → ExceptionContext
sys_ps ctx buf size = with_reg (with_reg (with_reg ctx 0 buf) 1 size) 7 5

unfoldable pub sys_kill : ExceptionContext → ℕ → ExceptionContext
sys_kill ctx pid = with_reg (with_reg ctx 0 pid) 7 6

unfoldable pub sys_ticks : ExceptionContext → ExceptionContext
sys_ticks ctx = with_reg ctx 7 7

unfoldable pub sys_yield : ExceptionContext → ExceptionContext
sys_yield ctx = with_reg ctx 7 2

unfoldable pub sys_exit : ExceptionContext → ExceptionContext
sys_exit ctx = with_reg ctx 7 3

-- What a program asks of the kernel.
pub data Request : Type 0 where
  write read : ℕ → ℕ → ℕ → Request
  ps : ℕ → ℕ → Request
  kill : ℕ → Request
  getpid ticks yield exit : Request

abbrev pub asked : ExceptionContext → Request → ExceptionContext
asked ctx (write fd buf len) = sys_write ctx fd buf len
asked ctx (read fd buf len) = sys_read ctx fd buf len
asked ctx (ps buf size) = sys_ps ctx buf size
asked ctx (kill pid) = sys_kill ctx pid
asked ctx getpid = sys_getpid ctx
asked ctx ticks = sys_ticks ctx
asked ctx yield = sys_yield ctx
asked ctx exit = sys_exit ctx

-- The kernel's own function for it.
abbrev pub meant : ℕ → Kernel → Request → Outcome
meant fuel k (write fd buf len) = Write.sys_write k fd buf len
meant fuel k (read fd buf len) = Read.sys_read fuel k fd buf len
meant fuel k (ps buf size) = Ps.sys_ps k buf size
meant fuel k (kill pid) = Control.sys_kill k pid
meant fuel k getpid = Control.sys_getpid k
meant fuel k ticks = Control.sys_ticks k
meant fuel k yield = Control.sys_yield k
meant fuel k exit = Control.sys_exit k

call-asked :
    (fuel : ℕ) (k : Kernel) (q : Request) (f : ℕ → ℕ) (spsr lr : ℕ)
    → call fuel k (asked (registers f spsr lr) q) ≡ meant fuel k q
unfolding call syscall_table sys_write sys_getpid sys_read sys_ps sys_kill sys_ticks sys_yield
    sys_exit
call-asked fuel k (write fd buf len) f spsr lr = refl
call-asked fuel k (read fd buf len) f spsr lr = refl
call-asked fuel k (ps buf size) f spsr lr = refl
call-asked fuel k (kill pid) f spsr lr = refl
call-asked fuel k getpid f spsr lr = refl
call-asked fuel k ticks f spsr lr = refl
call-asked fuel k yield f spsr lr = refl
call-asked fuel k exit f spsr lr = refl

length-asked :
    (q : Request) (f : ℕ → ℕ) (spsr lr : ℕ) → length (asked (registers f spsr lr) q).r ≡ 13
unfolding sys_write sys_getpid sys_read sys_ps sys_kill sys_ticks sys_yield sys_exit
length-asked (write fd buf len) f spsr lr = refl
length-asked (read fd buf len) f spsr lr = refl
length-asked (ps buf size) f spsr lr = refl
length-asked (kill pid) f spsr lr = refl
length-asked getpid f spsr lr = refl
length-asked ticks f spsr lr = refl
length-asked yield f spsr lr = refl
length-asked exit f spsr lr = refl

-- The two sides of the calling convention meet: whatever the registers held before, the `svc` of a
-- wrapper in user/libc/syscall.h is answered as the kernel function of the same name answers with the
-- wrapper's arguments in their order, and a value v that it answers with is what the wrapper then
-- finds in r0.
pub svc_reaches :
    (fuel : ℕ) (k : Kernel) (q : Request) (f : ℕ → ℕ) (spsr lr v : ℕ)
    → let ctx = asked (registers f spsr lr) q in
      (syscall_dispatch fuel k ctx ≡ deliver ctx (meant fuel k q)) × (reg (with_r0 ctx v) 0 ≡ v)
unfolding syscall_dispatch
svc_reaches fuel k q f spsr lr v =
    let ctx = asked (registers f spsr lr) q in
    (
      ap (deliver ctx) (call-asked fuel k q f spsr lr),
      get_or-set_self ctx.r 0 v 0 (omega (arith, length-asked q f spsr lr)),
    )
