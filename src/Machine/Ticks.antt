-- ===== src/Machine/Ticks.antt =====
-- The steps of the machine as entries of the scheduler.
use refix_os.Common.{ℕ, ◌≡◌, Option, some, ◌⊎◌, true, inl, ◌<◌, subst, inr, sym, refl, none, List}
use refix_os.Kernel.{Kernel, log}
use refix_os.Machine.{
  fault, trap, Machine, resume, Cont, interrupted, settle, answer, waiting, after_interrupt,
  resume_at, after_call, resume_from, fresh, dying, interrupt_at, Step, stores, traps, user_store,
  faults, interrupts, resumes,
}
use refix_os.Machine.Well.{IsWell}
use refix_os.Syscall.Dispatch.{syscall_dispatch, ExceptionContext, reg, deliver, call, with_r0}
use refix_os.Exception.Faults.{Fault, handle_fault, data_abort, prefetch_abort, undefined}
use refix_os.Syscall.Outcome.{Outcome, returned, parked, spinning}
use refix_os.Irq.Core.{Intc, IntcOps, irq_dispatch}
use refix_os.Machine.Onwards.{HasOther}
use refix_os.Sched.Turns.{KernelEntry, enter, waits, ends, ended}
use refix_os.Machine.Entered.{Enters, timer_after, call-Enters, read_loop-Enters, Completes}
use refix_os.Exception.{
  after_irq, fault_from_user, schedule_tail, user_fault_kill, halt_forever, handle_data_abort,
  kill_current, handle_prefetch_abort, after_kill, handle_undefined, handle_irq,
}
use refix_os.Sched.{schedule, Sched, Switch, scheduler_request_resched}
use refix_os.Syscall.Read.{read_loop}
use refix_os.Syscall.Control.{request_resched}
use refix_os.Machine.Served.{CompletesResult, HasTicks, irq_dispatch-Completes}
use refix_os.Irq.Bus.{Bus}
use refix_os.Mmu.{Board}
use refix_os.Irq.Handlers.{run_handler}

-- A step that leaves the scheduler and the timer alone, or is one of the scheduler's entries.
abbrev pub IsEntry : Kernel → Kernel → Type 0
IsEntry k k' =
    ((k'.sched ≡ k.sched) × (k'.timer ≡ k.timer))
    ⊎ ((e : KernelEntry) × (k'.sched ≡ enter k.sched e) × (k'.timer ≡ timer_after e k.timer))

module _ {D : Type 0} where
  tail-IsEntry :
      (m : Machine D) (cont : Cont) (k k0 : Kernel)
      → Completes k0 k
      → IsEntry k0 (settle m cont (schedule_tail k (schedule k.sched))).kernel
  tail-IsEntry m cont k k0 (e, s, t) = cases (schedule k.sched) s
    where
      cases :
          (q : Sched × Switch)
          → q.0 ≡ enter k0.sched e
          → IsEntry k0 (settle m cont (schedule_tail k q)).kernel
      cases (r, none) h = inr (e, h, t)
      cases (r, some sw) h = inr (e, h, t)

  answer-IsEntry :
      (m : Machine D) (ctx : ExceptionContext) (o : Outcome) (k0 : Kernel)
      → Enters k0 o
      → IsEntry k0 (answer m ctx (deliver ctx o)).kernel
  answer-IsEntry m ctx (returned k v) k0 r = tail-IsEntry m (after_call (with_r0 ctx v)) k k0 r
  answer-IsEntry m ctx (parked k sw) k0 (s, t) = inr (waits, s, t)
  answer-IsEntry m ctx (spinning k) k0 r = absurd r

  trap-IsEntry :
      (c : ℕ) (m : Machine D) (fuel : ℕ) (ctx : ExceptionContext)
      → IsWell m
      → m.kernel.sched.current ≡ some c
      → HasOther m.kernel.sched c
      → reg ctx 2 < fuel
      → IsEntry m.kernel (trap fuel ctx m).kernel
  unfolding trap syscall_dispatch
  trap-IsEntry c m fuel ctx w cur o fu =
      answer-IsEntry m ctx (call fuel m.kernel ctx) m.kernel
        (call-Enters fuel m.kernel ctx c w.sound cur o fu)

  interrupted-IsEntry :
      (m : Machine D) (o : Option (Intc D × Kernel))
      → CompletesResult m.kernel o
      → IsEntry m.kernel (interrupted m (after_irq o)).kernel
  interrupted-IsEntry m none r = inl (refl, refl)
  interrupted-IsEntry m (some (i, k)) r =
      tail-IsEntry (record m { intc = i }) after_interrupt k m.kernel r

  resume_at-IsEntry :
      (c fuel : ℕ) (m : Machine D) (cont : Cont)
      → IsWell m
      → m.kernel.sched.current ≡ some c
      → HasOther m.kernel.sched c
      → m.conts c ≡ cont
      → ((ctx : ExceptionContext) → cont ≡ waiting ctx → reg ctx 2 < fuel)
      → IsEntry m.kernel (resume_at fuel m cont).kernel
  resume_at-IsEntry c fuel m fresh w cur o e fu = inl (refl, refl)
  resume_at-IsEntry c fuel m (after_call ctx) w cur o e fu = inl (refl, refl)
  resume_at-IsEntry c fuel m after_interrupt w cur o e fu = inl (refl, refl)
  resume_at-IsEntry c fuel m (waiting ctx) w cur o e fu =
      answer-IsEntry m ctx (read_loop fuel m.kernel (reg ctx 1) (reg ctx 2) 0) m.kernel
        (read_loop-Enters fuel m.kernel c (reg ctx 1) (reg ctx 2) w.sound cur o (fu ctx refl))
  resume_at-IsEntry c fuel m dying w cur o e fu = absurd ((w.retired c e).off cur)

  resume-IsEntry :
      (c fuel : ℕ) (m : Machine D)
      → IsWell m
      → m.kernel.sched.current ≡ some c
      → HasOther m.kernel.sched c
      → ((ctx : ExceptionContext) → m.conts c ≡ waiting ctx → reg ctx 2 < fuel)
      → IsEntry m.kernel (resume fuel m).kernel
  unfolding resume
  resume-IsEntry c fuel m w cur o fu =
      subst (λ q. IsEntry m.kernel (resume_from fuel m q).kernel) (sym cur)
        (resume_at-IsEntry c fuel m (m.conts c) w cur o refl fu)

  killed-IsEntry :
      (m : Machine D) (k0 k : Kernel) (q : Sched × Switch)
      → q.0 ≡ enter k0.sched ends
      → k.timer ≡ k0.timer
      → IsEntry k0 (settle m dying (after_kill k q)).kernel
  unfolding halt_forever log
  killed-IsEntry m k0 k (s, none) h t = inr (ends, h, t)
  killed-IsEntry m k0 k (s, some sw) h t = inr (ends, h, t)

  user_fault_kill-IsEntry :
      (m : Machine D) (k : Kernel) (kind : List ℕ)
      → IsEntry k (settle m dying (user_fault_kill k kind)).kernel
  unfolding user_fault_kill kill_current log
  user_fault_kill-IsEntry m k kind =
      let (s, t) = cases k.sched.current in
      let dead = request_resched (kill_current k k.sched.current kind) in
      killed-IsEntry m k dead (schedule dead.sched) s t
    where
      cases :
          (o : Option ℕ)
          → ((schedule (request_resched (kill_current k o kind)).sched).0
              ≡ (schedule (scheduler_request_resched (ended k.sched o))).0)
            × ((request_resched (kill_current k o kind)).timer ≡ k.timer)
      cases none = (refl, refl)
      cases (some p) = (refl, refl)

  fault-IsEntry :
      (m : Machine D) (f : Fault) (ctx : ExceptionContext)
      → fault_from_user ctx ≡ true
      → IsEntry m.kernel (fault f ctx m).kernel
  unfolding fault handle_fault handle_data_abort handle_prefetch_abort handle_undefined log
  fault-IsEntry m (data_abort dfsr dfar) ctx e = rw e (user_fault_kill-IsEntry m _ _)
  fault-IsEntry m (prefetch_abort ifsr ifar) ctx e = rw e (user_fault_kill-IsEntry m _ _)
  fault-IsEntry m undefined ctx e = rw e (user_fault_kill-IsEntry m _ _)

module _ {D : Type 0} (bus : Bus D) (ops : IntcOps D) (b : Board) where
  -- The fuel of a call and of a wait that goes on is above the size of the buffer.
  abbrev pub IsFueled : {m m' : Machine D} → Step bus ops b m m' → Type 0
  IsFueled (stores m va x u lo hi) = Unit
  IsFueled (traps m fuel ctx u regs) = reg ctx 2 < fuel
  IsFueled (faults m f ctx u e) = Unit
  IsFueled (interrupts m fuel d u) = Unit
  IsFueled (resumes m fuel u) =
      (c : ℕ) (ctx : ExceptionContext) → m.conts c ≡ waiting ctx → reg ctx 2 < fuel

  -- While another process is READY or RUNNING, every step of the machine is an entry of the scheduler
  -- or leaves it alone, and the timer's entries are those that count a tick.
  pub Step-IsEntry :
      (c : ℕ) (m m' : Machine D) (s : Step bus ops b m m')
      → IsWell m
      → HasTicks m.kernel
      → m.kernel.sched.current ≡ some c
      → HasOther m.kernel.sched c
      → IsFueled s
      → IsEntry m.kernel m'.kernel
  unfolding interrupt_at handle_irq user_store
  Step-IsEntry c _ _ (stores m va x u lo hi) w h cur o fu = inl (refl, refl)
  Step-IsEntry c _ _ (traps m fuel ctx u regs) w h cur o fu = trap-IsEntry c m fuel ctx w cur o fu
  Step-IsEntry c _ _ (faults m f ctx u e) w h cur o fu = fault-IsEntry m f ctx e
  Step-IsEntry c _ _ (interrupts m fuel d u) w h cur o fu =
      let i = record (m.intc) { device = d } in
      interrupted-IsEntry m (irq_dispatch ops (run_handler bus fuel b) i m.kernel)
        (irq_dispatch-Completes bus ops fuel b i m.kernel h)
  Step-IsEntry c _ _ (resumes m fuel u) w h cur o fu = resume-IsEntry c fuel m w cur o (fu c)
