-- ===== src/Machine/Onwards.antt =====
-- The machine stops only when there is nobody else to run.
use refix_os.Machine.{
  Machine, Mode, Cont, user, switching, stopped, looping, settle, answer, waiting, fresh,
  after_call, after_interrupt, dying, resume_at, resume_from, resume, trap, fault, interrupted,
  interrupt_at, Step, stores, traps, faults, interrupts, resumes, user_store,
}
use refix_os.Machine.Calls.{Ends, call-Ends}
use refix_os.Machine.Well.{IsWell}
use refix_os.Syscall.Read.Blocking.{sleeps}
use refix_os.Syscall.Read.Transfer.{read_loop_transfers}
use refix_os.Syscall.Read.Rounds.{round_full}
use refix_os.Sched.Wakeup.{block_hands_over}
use refix_os.Sched.{Sched, is_runnable, state_of, Switch, schedule}
use refix_os.Common.{
  length, ℕ, ◌<◌, ◌≢◌, ◌≡◌, some, arith, true, suc, subst, sym, List, Option, [], inl, ◌⊎◌, ◌∙◌,
  none, ap, ◌∷◌, refl, inr, zero,
}
use refix_os.Kernel.{Kernel}
use refix_os.Kernel.Sound.{IsSound}
use refix_os.Proc.{num_processes}
use refix_os.Syscall.Read.{read_loop, sleep_or}
use refix_os.Irq.Bus.{Bus}
use refix_os.Uart.Ring.Refine.{contents}
use refix_os.Syscall.Dispatch.{syscall_dispatch, ExceptionContext, reg, deliver, call, with_r0}
use refix_os.Exception.Faults.{Fault, user_fault_contained}
use refix_os.Irq.Core.{IntcOps, Intc, irq_dispatch}
use refix_os.Exception.{fault_from_user, schedule_tail, handle_irq, after_irq}
use refix_os.Syscall.Outcome.{Outcome, returned, parked, spinning}
use refix_os.Mmu.{Board}
use refix_os.Irq.Preempt.{IsUart}
use refix_os.Irq.Ended.{dispatch_ends}
use refix_os.Irq.Transmit.{HasRoom}
use refix_os.Irq.Console.{transmit, transmit_ends}
use refix_os.Irq.Handlers.{run_handler}

-- Control is in user mode, or on its way to a process.
abbrev pub IsGoing : Mode → Type 0
IsGoing user = Unit
IsGoing switching = Unit
IsGoing stopped = ⊥
IsGoing looping = ⊥

-- Another process than c is READY or RUNNING.
pub record HasOther (s : Sched) (c : ℕ) : Type 0 where
  pub other : ℕ
  pub exists : other < num_processes
  pub differs : other ≢ c
  pub runs : is_runnable (state_of s other) ≡ true

pub nil_or_not : (q : List ℕ) → (q ≡ []) ⊎ (q ≢ [])
nil_or_not [] = inl refl
nil_or_not (c ∷ q) = inr (λ e. ground (arith, e))

-- sys_read then returns or gives the processor away.
read_loop-Ends :
    (fuel : ℕ) (k : Kernel) (c buf len : ℕ)
    → IsSound k
    → k.sched.current ≡ some c
    → HasOther k.sched c
    → len < fuel
    → Ends Unit ⊥ (read_loop fuel k buf len 0)
read_loop-Ends zero k c buf len v cur o fu = absurd (omega arith)
read_loop-Ends (suc fuel) k c buf zero v cur o fu =
    subst (Ends Unit ⊥) (sym (round_full fuel k buf 0 0 (omega arith))) tt
read_loop-Ends (suc fuel) k c buf (suc len) v cur o fu = elim (nil_or_not (contents k.ring)) [
  | inl e ↦
      let (n, h, _, _) = block_hands_over k.sched c o.other v.sched cur o.exists o.differs o.runs in
      subst (Ends Unit ⊥)
        (sym (
          sleeps fuel k 0 buf (suc len) v e (omega arith)
          ∙ ap (λ q. sleep_or k q (λ k'. read_loop fuel k' buf (suc len) 0)) h))
        tt
  | inr ne ↦
      subst (Ends Unit ⊥) (sym (read_loop_transfers (suc fuel) k c buf (suc len) cur v.ring ne fu))
        tt
]

module _ {D : Type 0} where
  tail_goes :
      (m : Machine D) (cont : Cont) (k : Kernel) (q : Sched × Switch)
      → IsGoing (settle m cont (schedule_tail k q)).mode
  tail_goes m cont k (s, none) = tt
  tail_goes m cont k (s, some sw) = tt

  answer_goes :
      (m : Machine D) (ctx : ExceptionContext) (o : Outcome)
      → Ends Unit ⊥ o
      → IsGoing (answer m ctx (deliver ctx o)).mode
  answer_goes m ctx (returned k v) e = tail_goes m (after_call (with_r0 ctx v)) k (schedule k.sched)
  answer_goes m ctx (parked k sw) e = tt
  answer_goes m ctx (spinning k) e = e

  trap_goes :
      (c : ℕ) (m : Machine D) (fuel : ℕ) (ctx : ExceptionContext)
      → IsWell m
      → m.kernel.sched.current ≡ some c
      → HasOther m.kernel.sched c
      → reg ctx 2 < fuel
      → IsGoing (trap fuel ctx m).mode
  unfolding trap syscall_dispatch
  trap_goes c m fuel ctx w cur o fu = answer_goes m ctx (call fuel m.kernel ctx) (
      call-Ends Unit ⊥ fuel m.kernel ctx
        (λ e. read_loop-Ends fuel m.kernel c (reg ctx 1) (reg ctx 2) w.sound cur o fu))

  fault_goes :
      (c : ℕ) (m : Machine D) (f : Fault) (ctx : ExceptionContext)
      → IsWell m
      → m.kernel.sched.current ≡ some c
      → HasOther m.kernel.sched c
      → fault_from_user ctx ≡ true
      → IsGoing (fault f ctx m).mode
  unfolding fault
  fault_goes c m f ctx w cur o e =
      let (n, r) =
        user_fault_contained f m.kernel ctx c o.other w.sound e cur o.exists o.differs o.runs in
      subst (λ h. IsGoing (settle m dying h).mode) (sym r.switch) tt

  interrupted_goes :
      (m : Machine D) (o : Option (Intc D × Kernel))
      → o ≢ none
      → IsGoing (interrupted m (after_irq o)).mode
  interrupted_goes m none ne = absurd (ne refl)
  interrupted_goes m (some (i, k)) ne =
      tail_goes (record m { intc = i }) after_interrupt k (schedule k.sched)

  resume_at_goes :
      (c fuel : ℕ) (m : Machine D) (cont : Cont)
      → IsWell m
      → m.kernel.sched.current ≡ some c
      → HasOther m.kernel.sched c
      → m.conts c ≡ cont
      → ((ctx : ExceptionContext) → cont ≡ waiting ctx → reg ctx 2 < fuel)
      → IsGoing (resume_at fuel m cont).mode
  resume_at_goes c fuel m fresh w cur o e fu = tt
  resume_at_goes c fuel m (after_call ctx) w cur o e fu = tt
  resume_at_goes c fuel m after_interrupt w cur o e fu = tt
  resume_at_goes c fuel m (waiting ctx) w cur o e fu =
      answer_goes m ctx (read_loop fuel m.kernel (reg ctx 1) (reg ctx 2) 0)
        (read_loop-Ends fuel m.kernel c (reg ctx 1) (reg ctx 2) w.sound cur o (fu ctx refl))
  resume_at_goes c fuel m dying w cur o e fu = absurd ((w.retired c e).off cur)

  resume_goes :
      (c fuel : ℕ) (m : Machine D)
      → IsWell m
      → m.kernel.sched.current ≡ some c
      → HasOther m.kernel.sched c
      → ((ctx : ExceptionContext) → m.conts c ≡ waiting ctx → reg ctx 2 < fuel)
      → IsGoing (resume fuel m).mode
  unfolding resume
  resume_goes c fuel m w cur o fu =
      subst (λ q. IsGoing (resume_from fuel m q).mode) (sym cur)
        (resume_at_goes c fuel m (m.conts c) w cur o refl fu)

module _ {D : Type 0} (bus : Bus D) (ops : IntcOps D) (b : Board) where
  -- The fuel of a step is enough: above the size of the buffer for a call and for a wait that goes
  -- on, and above the number of bytes in the UART for an interrupt.
  abbrev pub HasFuel :
      (bytes : D → List ℕ) (c : ℕ) {m m' : Machine D} → Step bus ops b m m' → Type 0
  HasFuel bytes c (stores m va x u lo hi) = Unit
  HasFuel bytes c (traps m fuel ctx u regs) = reg ctx 2 < fuel
  HasFuel bytes c (faults m f ctx u e) = Unit
  HasFuel bytes c (interrupts m fuel d u) = length (bytes (ops.get_active d).1) < fuel
  HasFuel bytes c (resumes m fuel u) =
      (ctx : ExceptionContext) → m.conts c ≡ waiting ctx → reg ctx 2 < fuel

  next_goes :
      (bytes : D → List ℕ) (c : ℕ) (m m' : Machine D) (s : Step bus ops b m m')
      → IsUart b bus bytes
      → IsWell m
      → m.kernel.sched.current ≡ some c
      → HasOther m.kernel.sched c
      → HasFuel bytes c s
      → IsGoing m'.mode
  unfolding interrupt_at handle_irq user_store
  next_goes bytes c _ _ (stores m va x u lo hi) chip w cur o fu = subst IsGoing (sym u) tt
  next_goes bytes c _ _ (traps m fuel ctx u regs) chip w cur o fu =
      trap_goes c m fuel ctx w cur o fu
  next_goes bytes c _ _ (faults m f ctx u e) chip w cur o fu = fault_goes c m f ctx w cur o e
  next_goes bytes c _ _ (interrupts m fuel d u) chip w cur o fu =
      interrupted_goes m
        (irq_dispatch ops (run_handler bus fuel b) (record (m.intc) { device = d }) m.kernel)
        (dispatch_ends bus ops b bytes fuel (record (m.intc) { device = d }) m.kernel chip fu)
  next_goes bytes c _ _ (resumes m fuel u) chip w cur o fu = resume_goes c fuel m w cur o fu

  -- While another process is READY or RUNNING no step stops the machine: after a store, a system call,
  -- a fault, an interrupt or the continuation of a process, control is in user mode or on its way to
  -- a process, and neither in halt_forever nor in a loop that does not end. A call and a wait that
  -- goes on have fuel above the size of the buffer; the UART behaves by its data sheet, and an
  -- interrupt has fuel above the bytes in it. A step itself has no waits for the transmitter: what it
  -- has printed goes out through the console to the end as well, from any state of a chip that gets
  -- rid of its bytes, with more polls than it can say busy.
  pub Step-IsGoing :
      (bytes : D → List ℕ) (wait : D → ℕ) (limit polls c : ℕ) (m m' : Machine D) (d : D)
      (s : Step bus ops b m m')
      → IsUart b bus bytes
      → HasRoom b bus wait limit
      → limit < polls
      → IsWell m
      → m.kernel.sched.current ≡ some c
      → HasOther m.kernel.sched c
      → HasFuel bytes c s
      → IsGoing m'.mode × (d' : D) × (transmit bus polls b m.kernel m'.kernel d ≡ some d')
  Step-IsGoing bytes wait limit polls c m m' d s chip room p w cur o fu =
      let (d', e) = transmit_ends bus polls b wait limit m.kernel m'.kernel d room p in
      (next_goes bytes c m m' s chip w cur o fu, d', e)
