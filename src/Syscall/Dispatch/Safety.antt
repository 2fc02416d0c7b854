-- ===== src/Syscall/Dispatch/Safety.antt =====
-- What a system call cannot do, whatever its number and arguments: break the kernel's invariant, or
-- touch memory that is not its caller's.
use refix_os.Common.{
  ℕ, ◌≡◌, ◌<◌, refl, Option, if_both, List, leb, not, some, none, u32_mod, take, ◌-◌, Bool,
  if◌then◌else◌, length, arith, length-take, false, true, get_or, suc, zero, ◌==◌,
}
use refix_os.Syscall.Outcome.{returned, e_fault, kernel_of, e_badcall}
use refix_os.Kernel.{Kernel, log, with_user_mem, user_mem}
use refix_os.Kernel.Sound.{IsSound}
use refix_os.Syscall.Control.{
  sys_yield, sys_getpid, sys_ticks, sys_kill, sys_exit, request_resched, exit_from, kill_entry,
}
use refix_os.Syscall.Write.{sys_write, put_bytes_lem}
use refix_os.Sched.{state_of}
use refix_os.Syscall.Pointer.{valid_user_ptr, valid_user_ptr_iff}
use refix_os.Sched.Invariant.{request_resched-IsValid, set_dead-IsValid}
use refix_os.Proc.{num_processes, is_dead}
use refix_os.Uart.Format.{Arg}
use refix_os.Syscall.Ps.{sys_ps}
use refix_os.Syscall.Ps.Listing.{listing, sys_ps_lem}
use refix_os.Kernel.Memory.{stored, stored_outside}
use refix_os.Kernel.Safe.{IsSafe, same_mem-IsSafe}
use refix_os.Syscall.Read.{sys_read, read_loop}
use refix_os.Syscall.Dispatch.{call, syscall_table, ExceptionContext, reg, nr_syscalls}
use refix_os.Syscall.Read.Safety.{read_loop-IsSafe}

-- Each of the calls.
module _ (c : ℕ) (k : Kernel) (v : IsSound k) where
  same-IsSafe : IsSafe c k k
  same-IsSafe = same_mem-IsSafe c k k v refl

  logged-IsSafe : (fmt : List ℕ) (args : List Arg) → IsSafe c k (log k fmt args)
  unfolding log
  logged-IsSafe fmt args =
      same_mem-IsSafe c k (log k fmt args) (record { sched = v.sched; ring = v.ring }) refl

  killed-IsSafe :
      (fmt : List ℕ) (args : List Arg) (i : ℕ)
      → IsSafe c k (request_resched (kill_entry (log k fmt args) i))
  unfolding log
  killed-IsSafe fmt args i =
      same_mem-IsSafe c k _
        (record {
          sched = request_resched-IsValid (set_dead-IsValid k.sched i v.sched);
          ring = v.ring;
        })
        refl

  sys_write-IsSafe : (fd buf len : ℕ) → IsSafe c k (kernel_of (sys_write k fd buf len))
  unfolding sys_write
  sys_write-IsSafe fd buf len =
      if_both (λ o. IsSafe c k (kernel_of o)) (not (valid_user_ptr buf len)) _ _ same-IsSafe
        (rw (put_bytes_lem k buf len)
          (same_mem-IsSafe c k _ (record { sched = v.sched; ring = v.ring }) refl))

  sys_getpid-IsSafe : IsSafe c k (kernel_of (sys_getpid k))
  unfolding sys_getpid
  sys_getpid-IsSafe = same-IsSafe

  sys_ticks-IsSafe : IsSafe c k (kernel_of (sys_ticks k))
  unfolding sys_ticks
  sys_ticks-IsSafe = same-IsSafe

  sys_yield-IsSafe : IsSafe c k (kernel_of (sys_yield k))
  unfolding sys_yield
  sys_yield-IsSafe =
      same_mem-IsSafe c k _ (record { sched = request_resched-IsValid v.sched; ring = v.ring }) refl

  sys_exit-IsSafe : IsSafe c k (kernel_of (sys_exit k))
  unfolding sys_exit sys_yield
  sys_exit-IsSafe = cases k.sched.current
    where
      cases : (o : Option ℕ) → IsSafe c k (request_resched (exit_from k o))
      cases none = sys_yield-IsSafe
      cases (some p) = killed-IsSafe _ _ p

  sys_kill-IsSafe : (pid : ℕ) → IsSafe c k (kernel_of (sys_kill k pid))
  unfolding sys_kill
  sys_kill-IsSafe pid =
      if_both (λ o. IsSafe c k (kernel_of o)) (leb num_processes pid) _ _ same-IsSafe
        (if_both (λ o. IsSafe c k (kernel_of o)) (is_dead (state_of k.sched pid)) _ _ same-IsSafe
          (killed-IsSafe _ _ pid))

  sys_ps-IsSafe :
      (buf size : ℕ)
      → k.sched.current ≡ some c
      → buf < u32_mod
      → size < u32_mod
      → IsSafe c k (kernel_of (sys_ps k buf size))
  sys_ps-IsSafe buf size cur hb hs =
      rw (sys_ps_lem k buf size) (cases (valid_user_ptr buf size) refl)
    where
      text : List ℕ
      text = take (size - 1) (listing k.sched.processes 0 num_processes)

      cases :
          (b : Bool)
          → valid_user_ptr buf size ≡ b
          → IsSafe c k (
              kernel_of (
                if b
                then returned (with_user_mem k (stored (user_mem k) buf text)) (length text)
                else returned k e_fault))
      cases false e = same-IsSafe
      cases true e =
          let w = (valid_user_ptr_iff buf size hb hs).0 e in
          record {
            sound = record { sched = v.sched; ring = v.ring };
            confined = record {
              others = λ j va ne. ground arith;
              outside = λ va o. ground (
                arith,
                stored_outside (user_mem k) buf text va,
                length-take (size - 1) (listing k.sched.processes 0 num_processes),
                w,
              );
            };
          }

  sys_read-IsSafe :
      (fuel fd buf len : ℕ)
      → k.sched.current ≡ some c
      → buf < u32_mod
      → len < u32_mod
      → IsSafe c k (kernel_of (sys_read fuel k fd buf len))
  unfolding sys_read
  sys_read-IsSafe fuel fd buf len cur hb hl =
      if_both (λ o. IsSafe c k (kernel_of o)) (len == 0) _ _ same-IsSafe
        (checked (valid_user_ptr buf len) refl)
    where
      checked :
          (b : Bool)
          → valid_user_ptr buf len ≡ b
          → IsSafe c k
              (kernel_of (if not b then returned k e_fault else read_loop fuel k buf len 0))
      checked false e = same-IsSafe
      checked true e =
          let w = (valid_user_ptr_iff buf len hb hl).0 e in
          read_loop-IsSafe c k fuel k buf len 0 cur same-IsSafe w.0 w.1

-- Every entry of the dispatch table.
table-IsSafe :
    (c fuel : ℕ) (k : Kernel) (num a0 a1 a2 a3 : ℕ)
    → IsSound k
    → k.sched.current ≡ some c
    → a0 < u32_mod
    → a1 < u32_mod
    → a2 < u32_mod
    → IsSafe c k (
        kernel_of
          (get_or (syscall_table fuel k) num (λ a0 a1 a2 a3. returned k e_badcall) a0 a1 a2 a3))
unfolding syscall_table
table-IsSafe c fuel k zero a0 a1 a2 a3 v cur h0 h1 h2 = sys_write-IsSafe c k v a0 a1 a2
table-IsSafe c fuel k (suc zero) a0 a1 a2 a3 v cur h0 h1 h2 = sys_getpid-IsSafe c k v
table-IsSafe c fuel k (suc (suc zero)) a0 a1 a2 a3 v cur h0 h1 h2 = sys_yield-IsSafe c k v
table-IsSafe c fuel k (suc (suc (suc zero))) a0 a1 a2 a3 v cur h0 h1 h2 = sys_exit-IsSafe c k v
table-IsSafe c fuel k (suc (suc (suc (suc zero)))) a0 a1 a2 a3 v cur h0 h1 h2 =
    sys_read-IsSafe c k v fuel a0 a1 a2 cur h1 h2
table-IsSafe c fuel k (suc (suc (suc (suc (suc zero))))) a0 a1 a2 a3 v cur h0 h1 h2 =
    sys_ps-IsSafe c k v a0 a1 cur h0 h1
table-IsSafe c fuel k (suc (suc (suc (suc (suc (suc zero)))))) a0 a1 a2 a3 v cur h0 h1 h2 =
    sys_kill-IsSafe c k v a0
table-IsSafe c fuel k (suc (suc (suc (suc (suc (suc (suc zero))))))) a0 a1 a2 a3 v cur h0 h1 h2 =
    sys_ticks-IsSafe c k v
table-IsSafe c fuel k (suc (suc (suc (suc (suc (suc (suc (suc _)))))))) a0 a1 a2 a3 v cur h0 h1 h2 =
    same-IsSafe c k v

-- A system call from process c, whatever its registers hold, leaves the kernel in a sound state and
-- changes no memory but that of process c inside its user window. This holds when the call returns,
-- when it waits for input, and at every point of a loop that does not end.
pub call-IsSafe :
    (fuel : ℕ) (k : Kernel) (ctx : ExceptionContext) (c : ℕ)
    → IsSound k
    → k.sched.current ≡ some c
    → ((i : ℕ) → reg ctx i < u32_mod)
    → IsSafe c k (kernel_of (call fuel k ctx))
unfolding call
call-IsSafe fuel k ctx c v cur regs =
    if_both (λ o. IsSafe c k (kernel_of o)) (leb nr_syscalls (reg ctx 7)) _ _ (same-IsSafe c k v)
      (table-IsSafe c fuel k (reg ctx 7) (reg ctx 0) (reg ctx 1) (reg ctx 2) (reg ctx 3) v cur
        (regs 0) (regs 1) (regs 2))
