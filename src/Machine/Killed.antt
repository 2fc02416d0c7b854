-- ===== src/Machine/Killed.antt =====
-- The process that a fault handler leaves behind.
use refix_os.Sched.Invariant
use refix_os.Uart.Ring.Refine
use refix_os.Exception.{
  Handled, halt_forever, switched, resumed, halted, hung, after_kill, handle_data_abort,
  handle_prefetch_abort, user_fault_kill, handle_undefined, fault_from_user,
}
use refix_os.Common.{
  ℕ, ◌≡◌, some, true, none, Option-cases, inl, inr, arith, List, subst, refl, sym, ◌∙◌,
}
use refix_os.Kernel.{Kernel, log}
use refix_os.Sched.{Sched, Switch, state_of, schedule, scheduler_tick}
use refix_os.Sched.History.{IsRetired, step, Follows, killed-Follows}
use refix_os.Machine.Lawful.{IsLawful, handled_kernel}
use refix_os.Syscall.Outcome.{with_sched}
use refix_os.Proc.{dead}
use refix_os.Sched.Spec.{chosen, chosen_facts}
use refix_os.Sched.Decision.{schedule-decision}
use refix_os.Exception.Faults.{
  handle_fault, retired, Fault, kill_eq, retired-IsValid, data_abort, prefetch_abort, undefined,
}
use refix_os.Kernel.Sound.{IsSound}
use refix_os.Syscall.Dispatch.{ExceptionContext}
use refix_os.Kernel.Safe.{IsSafe, same_mem-IsSafe}
use refix_os.Sched.Invariant.{schedule-IsValid}

-- What the continuation of user_fault_kill may count on: if the handler switched away from process p,
-- p is dead and is no longer the current process.
abbrev pub Retires : Handled → Type 0
Retires (switched k (p, n)) = IsRetired k.sched p
Retires (resumed k) = Unit
Retires (halted k) = Unit
Retires (hung k) = Unit

after_kill-Retires :
    (k : Kernel) (s : Sched) (c : ℕ)
    → Invariant.IsValid s
    → s.current ≡ some c
    → s.need_reschedule ≡ true
    → state_of s c ≡ dead
    → Retires (after_kill k (schedule s))
unfolding halt_forever
after_kill-Retires k s c v cur due gone = elim (Option-cases (chosen s c)) [
  | inl q ↦ rw (schedule-decision s v, cur, due, q) tt
  | inr (n, q) ↦
      let f = chosen_facts s c n (v.current_in c cur) v.hint_in q in
      rw (schedule-decision s v, cur, due, q)
        (record { gone = ground (arith, gone, f.1); off = λ h. ground arith })
]

-- What the handler of a fault in user mode does with process c, which was running.
pub record IsKill (c : ℕ) (k0 : Kernel) (h : Handled) : Type 0 where
  pub lawful : IsLawful c k0 (handled_kernel h)
  pub retires : Retires h

after_kill-IsLawful :
    (c : ℕ) (k0 k : Kernel) (p : Sched × Switch)
    → IsLawful c k0 (with_sched k p.0)
    → IsLawful c k0 (handled_kernel (after_kill k p))
unfolding halt_forever log
after_kill-IsLawful c k0 k (s, none) v = record {
  safe = record {
    sound = record { sched = v.safe.sound.sched; ring = v.safe.sound.ring };
    confined = record { others = v.safe.confined.others; outside = v.safe.confined.outside };
  };
  trace = v.trace;
}
after_kill-IsLawful c k0 k (s, some sw) v = v

retired-Follows : (s : Sched) (c : ℕ) → Follows s (schedule (retired s c)).0
unfolding step scheduler_tick
retired-Follows s c = killed-Follows s c

user_fault_kill-IsKill :
    (c : ℕ) (k0 k : Kernel) (kind : List ℕ)
    → IsSound k
    → k.sched.current ≡ some c
    → k.sched ≡ k0.sched
    → k.mem ≡ k0.mem
    → IsKill c k0 (user_fault_kill k kind)
user_fault_kill-IsKill c k0 k kind v cur es em =
    let (k', e, m, r) = kill_eq k kind c cur in
    let w = retired-IsValid k.sched c v.sched in
    let t : Sched = (schedule (retired k.sched c)).0 in
    let safe : IsSafe c k0 (with_sched k' t) =
      same_mem-IsSafe c k0 (with_sched k' t)
        (record {
          sched = schedule-IsValid (retired k.sched c) w;
          ring = subst Refine.IsValid (sym r) v.ring;
        })
        (m ∙ em) in
    rw e (record {
      lawful =
          after_kill-IsLawful c k0 k' (schedule (retired k.sched c)) (record {
            safe = safe;
            trace = subst (λ s. Follows s t) es (retired-Follows k.sched c);
          });
      retires = after_kill-Retires k' (retired k.sched c) c w cur refl (retired_dead k.sched c);
    })
  where
    retired_dead : (s : Sched) (c : ℕ) → state_of (retired s c) c ≡ dead
    retired_dead s c = ground arith

-- A fault in user mode, whichever it is.
pub handle_fault-IsKill :
    (f : Fault) (k : Kernel) (ctx : ExceptionContext) (c : ℕ)
    → IsSound k
    → fault_from_user ctx ≡ true
    → k.sched.current ≡ some c
    → IsKill c k (handle_fault f k ctx)
unfolding handle_fault handle_data_abort handle_prefetch_abort handle_undefined log
handle_fault-IsKill (data_abort dfsr dfar) k ctx c v e cur = rw e (
    user_fault_kill-IsKill c k (log k _ _) _ (record { sched = v.sched; ring = v.ring }) cur refl
      refl)
handle_fault-IsKill (prefetch_abort ifsr ifar) k ctx c v e cur = rw e (
    user_fault_kill-IsKill c k (log k _ _) _ (record { sched = v.sched; ring = v.ring }) cur refl
      refl)
handle_fault-IsKill undefined k ctx c v e cur = rw e (
    user_fault_kill-IsKill c k (log k _ _) _ (record { sched = v.sched; ring = v.ring }) cur refl
      refl)
