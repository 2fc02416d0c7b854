-- ===== src/Machine/Well.antt =====
-- The invariant of the machine, and when a handler keeps it.
use refix_os.Machine.{
  Machine, Cont, after_call, Mode, waiting, dying, fresh, after_interrupt, settle, user, stopped,
  looping, switching,
}
use refix_os.Common.{
  ℕ, ◌≡◌, some, ◌⊎◌, inl, inr, subst, sym, if◌then◌else◌, ◌==◌, Bool-cases, arith,
}
use refix_os.Kernel.Sound.{IsSound}
use refix_os.Machine.Lawful.{IsLawful, handled_kernel}
use refix_os.Exception.{Handled, resumed, halted, hung, switched}
use refix_os.Kernel.{Kernel}
use refix_os.Syscall.Dispatch.{ExceptionContext}
use refix_os.Machine.Calls.{InWindow}
use refix_os.Machine.Killed.{Retires}
use refix_os.Sched.History.{IsRetired, Follows-IsActive, Follows-IsRetired}

-- The invariant of the machine. A process that waits in sys_read has its buffer in the user window, and
-- one that user_fault_kill has left behind is dead and off the processor.
pub record IsWell {D : Type 0} (m : Machine D) : Type 0 where
  pub sound : IsSound m.kernel
  pub active : (c : ℕ) × (m.kernel.sched.current ≡ some c)
  pub window : (i : ℕ) (ctx : ExceptionContext) → m.conts i ≡ waiting ctx → InWindow ctx
  pub retired : (i : ℕ) → m.conts i ≡ dying → IsRetired m.kernel.sched i

-- A step that starts with process c on the processor.
pub record IsStepOf {D : Type 0} (c : ℕ) (m m' : Machine D) : Type 0 where
  pub lawful : IsLawful c m.kernel m'.kernel
  pub well : IsWell m'

-- What a continuation may count on when the handler has ended in h.
abbrev pub Backs : Cont → Handled → Type 0
Backs fresh h = Unit
Backs (after_call ctx) h = Unit
Backs after_interrupt h = Unit
Backs (waiting ctx) h = InWindow ctx
Backs dying h = Retires h

module _ {D : Type 0} where
  -- The continuations that stay behind stay backed.
  pub kept_conts :
      (c : ℕ) (m : Machine D) (k : Kernel) (conts : ℕ → Cont) (mode : Mode)
      → IsWell m
      → IsLawful c m.kernel k
      → ((i : ℕ) (ctx : ExceptionContext) → conts i ≡ waiting ctx → InWindow ctx)
      → ((i : ℕ) → conts i ≡ dying → (m.conts i ≡ dying) ⊎ IsRetired k.sched i)
      → IsWell (record m { kernel = k; conts = conts; mode = mode })
  kept_conts c m k conts mode w l win ret = record {
    sound = l.safe.sound;
    active = Follows-IsActive m.kernel.sched k.sched l.trace w.sound.sched w.active;
    window = win;
    retired = λ i e. elim (ret i e) [
      | inl o ↦ Follows-IsRetired m.kernel.sched k.sched i l.trace w.sound.sched (w.retired i o)
      | inr r ↦ r
    ];
  }

  -- The machine after a handler that did what it may.
  pub settle-IsStepOf :
      (c : ℕ) (m : Machine D) (cont : Cont) (h : Handled)
      → IsWell m
      → IsLawful c m.kernel (handled_kernel h)
      → Backs cont h
      → IsStepOf c m (settle m cont h)
  settle-IsStepOf c m cont (resumed k) w l b = record {
    lawful = l;
    well = kept_conts c m k m.conts user w l w.window (λ i e. inl e);
  }
  settle-IsStepOf c m cont (halted k) w l b = record {
    lawful = l;
    well = kept_conts c m k m.conts stopped w l w.window (λ i e. inl e);
  }
  settle-IsStepOf c m cont (hung k) w l b = record {
    lawful = l;
    well = kept_conts c m k m.conts looping w l w.window (λ i e. inl e);
  }
  settle-IsStepOf c m cont (switched k (prev, next)) w l b = record {
    lawful = l;
    well =
        kept_conts c m k (λ i. if i == prev then cont else m.conts i) switching w l
          (λ i ctx e. elim (Bool-cases (i == prev)) [
            | inl q ↦ window_of cont ctx b (ground (arith, e, q))
            | inr q ↦ w.window i ctx (ground (arith, e, q))
          ])
          (λ i e. elim (Bool-cases (i == prev)) [
            | inl q ↦ inr (retired_of cont b (ground (arith, e, q)) (ground (arith, q)))
            | inr q ↦ inl (ground (arith, e, q))
          ]);
  }
    where
      window_of :
          (cont : Cont) (ctx : ExceptionContext)
          → Backs cont (switched k (prev, next))
          → cont ≡ waiting ctx
          → InWindow ctx
      window_of cont ctx b e = subst (λ (x : Cont). Backs x (switched k (prev, next))) e b

      retired_of :
          (cont : Cont)
          → Backs cont (switched k (prev, next))
          → cont ≡ dying
          → {i : ℕ} → i ≡ prev
          → IsRetired k.sched i
      retired_of cont b e {i} q =
          subst (λ (j : ℕ). IsRetired k.sched j) (sym q)
            (subst (λ (x : Cont). Backs x (switched k (prev, next))) e b)
