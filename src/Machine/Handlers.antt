-- ===== src/Machine/Handlers.antt =====
-- Every kind of step is a lawful step of the process that was current.
use refix_os.Machine.{
  Machine, Cont, after_call, Mode, waiting, dying, fresh, after_interrupt, user, looping, trap,
  fault, resume, answer, resume_at, resume_from, interrupted, user_store,
}
use refix_os.Common.{
  ℕ, ◌≡◌, some, inl, subst, sym, arith, refl, ◌<◌, true, u32_mod, Option, ◌≤◌, ◌+◌, none,
}
use refix_os.Machine.Lawful.{IsLawful, tail-IsLawful, same-IsLawful}
use refix_os.Exception.{switched, fault_from_user, schedule_tail, after_irq}
use refix_os.Kernel.{Kernel, with_user_mem, poke, user_mem}
use refix_os.Syscall.Dispatch.{ExceptionContext, syscall_dispatch, reg, deliver, call, with_r0}
use refix_os.Machine.Calls.{InWindow, Waits, call-Waits, any-Waits}
use refix_os.Machine.Killed.{handle_fault-IsKill}
use refix_os.Sched.History.{Follows-refl}
use refix_os.Kernel.Safe.{same_mem-IsSafe}
use refix_os.Syscall.Outcome.{Outcome, kernel_of, returned, parked, spinning}
use refix_os.Exception.Faults.{Fault, handle_fault}
use refix_os.Syscall.Dispatch.Safety.{call-IsSafe}
use refix_os.Syscall.Dispatch.Trace.{call-Follows, read_loop-Follows}
use refix_os.Sched.{schedule}
use refix_os.Syscall.Pointer.{user_virt_base, user_region_size}
use refix_os.Irq.Core.{Intc}
use refix_os.Syscall.Read.{read_loop}
use refix_os.Machine.Interrupts.{IsQuietResult}
use refix_os.Syscall.Read.Safety.{read_loop-IsSafe}
use refix_os.Machine.Well.{IsWell, IsStepOf, settle-IsStepOf, kept_conts}

module _ {D : Type 0} where
  -- A call, made from user mode or gone on with after a wait, when its outcome is lawful.
  answer-IsStepOf :
      (c : ℕ) (m : Machine D) (ctx : ExceptionContext) (o : Outcome)
      → IsWell m
      → IsLawful c m.kernel (kernel_of o)
      → Waits (InWindow ctx) o
      → IsStepOf c m (answer m ctx (deliver ctx o))
  answer-IsStepOf c m ctx (returned k v) w l b =
      settle-IsStepOf c m (after_call (with_r0 ctx v)) (schedule_tail k (schedule k.sched)) w
        (tail-IsLawful c m.kernel k l) tt
  answer-IsStepOf c m ctx (parked k sw) w l b =
      settle-IsStepOf c m (waiting ctx) (switched k sw) w l b
  answer-IsStepOf c m ctx (spinning k) w l b = record {
    lawful = l;
    well = kept_conts c m k m.conts looping w l w.window (λ i e. inl e);
  }

  pub trap-IsStepOf :
      (c : ℕ) (m : Machine D) (fuel : ℕ) (ctx : ExceptionContext)
      → IsWell m
      → m.kernel.sched.current ≡ some c
      → ((i : ℕ) → reg ctx i < u32_mod)
      → IsStepOf c m (trap fuel ctx m)
  unfolding trap syscall_dispatch
  trap-IsStepOf c m fuel ctx w cur regs =
      answer-IsStepOf c m ctx (call fuel m.kernel ctx) w
        (record {
          safe = call-IsSafe fuel m.kernel ctx c w.sound cur regs;
          trace = call-Follows fuel m.kernel ctx;
        })
        (call-Waits fuel m.kernel ctx regs)

  pub fault-IsStepOf :
      (c : ℕ) (m : Machine D) (f : Fault) (ctx : ExceptionContext)
      → IsWell m
      → m.kernel.sched.current ≡ some c
      → fault_from_user ctx ≡ true
      → IsStepOf c m (fault f ctx m)
  unfolding fault
  fault-IsStepOf c m f ctx w cur e =
      let q = handle_fault-IsKill f m.kernel ctx c w.sound e cur in
      settle-IsStepOf c m dying (handle_fault f m.kernel ctx) w q.lawful q.retires

  mode-IsStepOf :
      (c : ℕ) (m : Machine D) (mode : Mode) → IsWell m → IsStepOf c m (record m { mode = mode })
  mode-IsStepOf c m mode w =
      let l = same-IsLawful c m.kernel w.sound in
      record { lawful = l; well = kept_conts c m m.kernel m.conts mode w l w.window (λ i e. inl e) }

  -- Control goes on at the continuation of the current process.
  resume_at-IsStepOf :
      (c fuel : ℕ) (m : Machine D) (cont : Cont)
      → IsWell m
      → m.kernel.sched.current ≡ some c
      → m.conts c ≡ cont
      → IsStepOf c m (resume_at fuel m cont)
  resume_at-IsStepOf c fuel m fresh w cur e = mode-IsStepOf c m user w
  resume_at-IsStepOf c fuel m (after_call ctx) w cur e = mode-IsStepOf c m user w
  resume_at-IsStepOf c fuel m after_interrupt w cur e = mode-IsStepOf c m user w
  resume_at-IsStepOf c fuel m (waiting ctx) w cur e =
      let (lo, hi) = w.window c ctx e in
      let o = read_loop fuel m.kernel (reg ctx 1) (reg ctx 2) 0 in
      answer-IsStepOf c m ctx o w
        (record {
          safe =
              read_loop-IsSafe c m.kernel fuel m.kernel (reg ctx 1) (reg ctx 2) 0 cur
                (same_mem-IsSafe c m.kernel m.kernel w.sound refl) lo hi;
          trace = read_loop-Follows fuel m.kernel (reg ctx 1) (reg ctx 2) 0;
        })
        (any-Waits (InWindow ctx) o (lo, hi))
  resume_at-IsStepOf c fuel m dying w cur e = absurd ((w.retired c e).off cur)

  pub resume-IsStepOf :
      (c fuel : ℕ) (m : Machine D)
      → IsWell m
      → m.kernel.sched.current ≡ some c
      → IsStepOf c m (resume fuel m)
  unfolding resume
  resume-IsStepOf c fuel m w cur =
      subst (λ (o : Option ℕ). IsStepOf c m (resume_from fuel m o)) (sym cur)
        (resume_at-IsStepOf c fuel m (m.conts c) w cur refl)

  pub user_store-IsStepOf :
      (c va x : ℕ) (m : Machine D)
      → IsWell m
      → m.kernel.sched.current ≡ some c
      → user_virt_base ≤ va
      → va < user_virt_base + user_region_size
      → IsStepOf c m (user_store va x m)
  unfolding user_store
  user_store-IsStepOf c va x m w cur lo hi =
      let k = with_user_mem m.kernel (poke (user_mem m.kernel) va x) in
      let l : IsLawful c m.kernel k = record {
        safe = record {
          sound = record { sched = w.sound.sched; ring = w.sound.ring };
          confined = record { others = λ j v ne. ground arith; outside = λ v o. ground arith };
        };
        trace = Follows-refl m.kernel.sched;
      } in
      record { lawful = l; well = kept_conts c m k m.conts m.mode w l w.window (λ i e. inl e) }

  pub interrupted-IsStepOf :
      (c : ℕ) (m : Machine D) (o : Option (Intc D × Kernel))
      → IsWell m
      → IsQuietResult m.kernel o
      → IsStepOf c m (interrupted m (after_irq o))
  interrupted-IsStepOf c m none w q = mode-IsStepOf c m looping w
  interrupted-IsStepOf c m (some (i, k)) w q =
      let l : IsLawful c m.kernel k = record {
        safe = same_mem-IsSafe c m.kernel k q.sound q.memory;
        trace = q.trace;
      } in
      let w' : IsWell (record m { intc = i }) = record {
        sound = w.sound;
        active = w.active;
        window = w.window;
        retired = w.retired;
      } in
      let r =
        settle-IsStepOf c (record m { intc = i }) after_interrupt
          (schedule_tail k (schedule k.sched)) w' (tail-IsLawful c m.kernel k l) tt in
      record { lawful = r.lawful; well = r.well }
