-- ===== src/Machine/Isolation.antt =====
-- What no sequence of traps, faults, interrupts and switches can do.
use refix_os.Machine.{
  Machine, interrupt_at, Steps, Step, stores, traps, faults, interrupts, resumes, done, onwards,
}
use refix_os.Common.{ℕ, ◌≡◌, some, sym, refl, ◌∙◌, ap}
use refix_os.Exception.{handle_irq}
use refix_os.Sched.History.{IsRetired, Follows-IsRetired}
use refix_os.Kernel.Safe.{IsConfined}
use refix_os.Irq.Bus.{Bus}
use refix_os.Irq.Core.{IntcOps, irq_dispatch}
use refix_os.Mmu.{Board}
use refix_os.Machine.Interrupts.{irq_dispatch-IsQuiet}
use refix_os.Irq.Handlers.{run_handler}
use refix_os.Machine.Well.{IsWell, IsStepOf}
use refix_os.Machine.Handlers.{
  user_store-IsStepOf, trap-IsStepOf, fault-IsStepOf, interrupted-IsStepOf, resume-IsStepOf,
}

module _ {D : Type 0} (bus : Bus D) (ops : IntcOps D) (b : Board) where
  Step-IsStepOf :
      (c : ℕ) {m m' : Machine D}
      → Step bus ops b m m'
      → IsWell m
      → m.kernel.sched.current ≡ some c
      → IsStepOf c m m'
  unfolding interrupt_at handle_irq
  Step-IsStepOf c (stores m va x u lo hi) w cur = user_store-IsStepOf c va x m w cur lo hi
  Step-IsStepOf c (traps m fuel ctx u regs) w cur = trap-IsStepOf c m fuel ctx w cur regs
  Step-IsStepOf c (faults m f ctx u e) w cur = fault-IsStepOf c m f ctx w cur e
  Step-IsStepOf c (interrupts m fuel d u) w cur =
      let i = record (m.intc) { device = d } in
      interrupted-IsStepOf c m (irq_dispatch ops (run_handler bus fuel b) i m.kernel) w
        (irq_dispatch-IsQuiet bus ops fuel b i m.kernel w.sound)
  Step-IsStepOf c (resumes m fuel u) w cur = resume-IsStepOf c fuel m w cur

  -- Every step keeps the invariant of the machine and changes no memory but that of the process that
  -- was current before it, inside its user window: stores of the process, system calls, faults in user
  -- mode, interrupts, and the continuation of whatever the process was switched away from.
  pub only_current_changes :
      (c : ℕ) (m m' : Machine D)
      → Step bus ops b m m'
      → IsWell m
      → m.kernel.sched.current ≡ some c
      → IsWell m' × IsConfined c m.kernel m'.kernel
  only_current_changes c m m' s w cur =
      let r = Step-IsStepOf c s w cur in (r.well, r.lawful.safe.confined)

  -- However the machine goes on, a process that is dead and not current stays so, and its memory is
  -- never changed again.
  pub retired_for_good :
      (m n : Machine D) (i : ℕ)
      → Steps bus ops b m n
      → IsWell m
      → IsRetired m.kernel.sched i
      → IsRetired n.kernel.sched i × ((va : ℕ) → n.kernel.mem i va ≡ m.kernel.mem i va)
  retired_for_good _ _ i (done m) w d = (d, λ va. refl)
  retired_for_good _ _ i (onwards m o n s t) w d =
      let (c, cur) = w.active in
      let r = Step-IsStepOf c s w cur in
      let d' = Follows-IsRetired m.kernel.sched o.kernel.sched i r.lawful.trace w.sound.sched d in
      let (e, same) = retired_for_good o n i t r.well d' in
      (e, λ va. same va ∙ r.lawful.safe.confined.others i va (λ q. d.off (cur ∙ ap some (sym q))))
