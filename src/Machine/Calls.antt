-- ===== src/Machine/Calls.antt =====
-- Which call can leave its caller waiting: sys_read, with a buffer in the user window.
use refix_os.Kernel.{Kernel, with_user_mem, user_mem}
use refix_os.Syscall.Outcome.{Outcome, parked, returned, spinning, e_fault, e_badcall}
use refix_os.Syscall.Dispatch.{ExceptionContext, call, syscall_table, reg, nr_syscalls}
use refix_os.Common.{
  ℕ, ◌≤◌, if_both, ◌≡◌, take, ◌+◌, ◌<◌, leb, not, u32_mod, true, ◌-◌, get_or, Bool, if◌then◌else◌,
  suc, length, zero, ◌==◌, false, refl,
}
use refix_os.Syscall.Read.{sys_read, read_loop}
use refix_os.Syscall.Write.{sys_write, put_bytes}
use refix_os.Syscall.Control.{sys_yield, sys_exit, sys_kill, sys_getpid, sys_ticks}
use refix_os.Syscall.Pointer.{user_virt_base, valid_user_ptr, user_region_size, valid_user_ptr_iff}
use refix_os.Syscall.Ps.{sys_ps}
use refix_os.Proc.{num_processes, is_dead}
use refix_os.Syscall.Ps.Listing.{listing, sys_ps_lem}
use refix_os.Kernel.Memory.{stored}
use refix_os.Sched.{state_of}

abbrev pub InWindow : ExceptionContext → Type 0
InWindow ctx =
    (user_virt_base ≤ reg ctx 1) × (reg ctx 1 + reg ctx 2 ≤ user_virt_base + user_region_size)

-- If the outcome is a wait, P holds, and if it is an endless loop, S.
abbrev pub Ends : Type 0 → Type 0 → Outcome → Type 0
Ends P S (parked k sw) = P
Ends P S (returned k v) = Unit
Ends P S (spinning k) = S

abbrev pub Waits : Type 0 → Outcome → Type 0
Waits P o = Ends P Unit o

pub any-Waits : (P : Type 0) (o : Outcome) → P → Waits P o
any-Waits P (parked k sw) p = p
any-Waits P (returned k v) p = tt
any-Waits P (spinning k) p = tt

module _ (P S : Type 0) (k : Kernel) where
  sys_write-Ends : (fd buf len : ℕ) → Ends P S (sys_write k fd buf len)
  unfolding sys_write
  sys_write-Ends fd buf len =
      if_both (Ends P S) (not (valid_user_ptr buf len)) (returned k e_fault)
        (returned (put_bytes k buf len) len) tt tt

  sys_ps-Ends : (buf size : ℕ) → Ends P S (sys_ps k buf size)
  sys_ps-Ends buf size =
      let text = take (size - 1) (listing k.sched.processes 0 num_processes) in
      rw (sys_ps_lem k buf size) (
        if_both (Ends P S) (valid_user_ptr buf size)
          (returned (with_user_mem k (stored (user_mem k) buf text)) (length text))
          (returned k e_fault) tt tt)

  sys_read-Ends :
      (fuel fd buf len : ℕ)
      → (valid_user_ptr buf len ≡ true → Ends P S (read_loop fuel k buf len 0))
      → Ends P S (sys_read fuel k fd buf len)
  unfolding sys_read
  sys_read-Ends fuel fd buf len f =
      if_both (Ends P S) (len == 0) (returned k 0) _ tt (checked (valid_user_ptr buf len) refl)
    where
      checked :
          (b : Bool)
          → valid_user_ptr buf len ≡ b
          → Ends P S (if not b then returned k e_fault else read_loop fuel k buf len 0)
      checked false e = tt
      checked true e = f e

  sys_control-Ends : Ends P S (sys_yield k) × Ends P S (sys_getpid k) × Ends P S (sys_ticks k)
  unfolding sys_yield sys_getpid sys_ticks
  sys_control-Ends = (tt, tt, tt)

  sys_exit-Ends : Ends P S (sys_exit k)
  unfolding sys_exit
  sys_exit-Ends = tt

  sys_kill-Ends : (pid : ℕ) → Ends P S (sys_kill k pid)
  unfolding sys_kill
  sys_kill-Ends pid =
      if_both (Ends P S) (leb num_processes pid) _ _ tt
        (if_both (Ends P S) (is_dead (state_of k.sched pid)) _ _ tt tt)

  table-Ends :
      (fuel num a0 a1 a2 a3 : ℕ)
      → (valid_user_ptr a1 a2 ≡ true → Ends P S (read_loop fuel k a1 a2 0))
      → Ends P S
          (get_or (syscall_table fuel k) num (λ a0 a1 a2 a3. returned k e_badcall) a0 a1 a2 a3)
  unfolding syscall_table
  table-Ends fuel zero a0 a1 a2 a3 f = sys_write-Ends a0 a1 a2
  table-Ends fuel (suc zero) a0 a1 a2 a3 f = sys_control-Ends.1
  table-Ends fuel (suc (suc zero)) a0 a1 a2 a3 f = sys_control-Ends.0
  table-Ends fuel (suc (suc (suc zero))) a0 a1 a2 a3 f = sys_exit-Ends
  table-Ends fuel (suc (suc (suc (suc zero)))) a0 a1 a2 a3 f = sys_read-Ends fuel a0 a1 a2 f
  table-Ends fuel (suc (suc (suc (suc (suc zero))))) a0 a1 a2 a3 f = sys_ps-Ends a0 a1
  table-Ends fuel (suc (suc (suc (suc (suc (suc zero)))))) a0 a1 a2 a3 f = sys_kill-Ends a0
  table-Ends fuel (suc (suc (suc (suc (suc (suc (suc zero))))))) a0 a1 a2 a3 f = sys_control-Ends.2
  table-Ends fuel (suc (suc (suc (suc (suc (suc (suc (suc _)))))))) a0 a1 a2 a3 f = tt

-- Only sys_read can wait or loop.
pub call-Ends :
    (P S : Type 0) (fuel : ℕ) (k : Kernel) (ctx : ExceptionContext)
    → (valid_user_ptr (reg ctx 1) (reg ctx 2) ≡ true
        → Ends P S (read_loop fuel k (reg ctx 1) (reg ctx 2) 0))
    → Ends P S (call fuel k ctx)
unfolding call
call-Ends P S fuel k ctx f =
    if_both (Ends P S) (leb nr_syscalls (reg ctx 7)) (returned k e_badcall) _ tt
      (table-Ends P S k fuel (reg ctx 7) (reg ctx 0) (reg ctx 1) (reg ctx 2) (reg ctx 3) f)

-- A call that waits has its buffer in the window.
pub call-Waits :
    (fuel : ℕ) (k : Kernel) (ctx : ExceptionContext)
    → ((i : ℕ) → reg ctx i < u32_mod)
    → Waits (InWindow ctx) (call fuel k ctx)
call-Waits fuel k ctx regs = call-Ends (InWindow ctx) Unit fuel k ctx (λ e.
    any-Waits (InWindow ctx) (read_loop fuel k (reg ctx 1) (reg ctx 2) 0)
      ((valid_user_ptr_iff (reg ctx 1) (reg ctx 2) (regs 1) (regs 2)).0 e))
