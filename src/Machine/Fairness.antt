-- ===== src/Machine/Fairness.antt =====
-- How long a process that could run waits, over the steps of the machine and the kernel's own tick counter.
use refix_os.Common.{
  ℕ, ◌≡◌, ◌<◌, arith, some, ◌≢◌, none, ◌∙◌, ◌⊎◌, inl, ap, inr, add32, sym, subst, refl,
}
use refix_os.Timer.{timer_tick, Timer}
use refix_os.Sched.Turns.{
  KernelEntry, tick_of, at_kill, IsWaiting, at_tick, at_input, calls, yields, waits, ends, enter,
}
use refix_os.Irq.Bus.{Bus}
use refix_os.Irq.Core.{IntcOps}
use refix_os.Mmu.{Board}
use refix_os.Machine.Entered.{timer_after}
use refix_os.Machine.{Machine, Steps, done, Step, onwards}
use refix_os.Proc.{num_processes, blocked}
use refix_os.Machine.Well.{IsWell}
use refix_os.Sched.{Sched, state_of}
use refix_os.Machine.Served.{HasTicks}
use refix_os.Machine.Onwards.{HasOther}
use refix_os.Sched.Turns.Early.{IsEarly, enter-IsEarly}
use refix_os.Machine.Ticks.{IsFueled, IsEntry, Step-IsEntry}
use refix_os.Sched.Turns.Last.{IsNext, IsLast, enter-IsLast}
use refix_os.Sched.Turns.Ticked.{tick_or_not, tick_hands}
use refix_os.Machine.Isolation.{only_current_changes}

no_tick : (e : KernelEntry) (t : Timer) → tick_of e ≡ 0 → timer_after e t ≡ t
no_tick at_tick t q = absurd (omega (arith, q))
no_tick at_input t q = refl
no_tick calls t q = refl
no_tick yields t q = refl
no_tick waits t q = refl
no_tick ends t q = refl
no_tick (at_kill i) t q = refl

handler_kept : (e : KernelEntry) (t : Timer) → (timer_after e t).user_handler ≡ t.user_handler
unfolding timer_tick
handler_kept at_tick t = refl
handler_kept at_input t = refl
handler_kept calls t = refl
handler_kept yields t = refl
handler_kept waits t = refl
handler_kept ends t = refl
handler_kept (at_kill i) t = refl

module _ {D : Type 0} (bus : Bus D) (ops : IntcOps D) (b : Board) where
  -- At every moment of a run process i could run and does not, and each step has fuel enough.
  abbrev pub IsPassedOver : ℕ → {m n : Machine D} → Steps bus ops b m n → Type 0
  IsPassedOver i (done m) = IsWaiting i m.kernel.sched
  IsPassedOver i (onwards m n o s t) =
      IsWaiting i m.kernel.sched × IsFueled bus ops b s × IsPassedOver i t

  now :
      (i : ℕ) {m n : Machine D} (t : Steps bus ops b m n)
      → IsPassedOver i t
      → IsWaiting i m.kernel.sched
  now i (done m) p = p
  now i (onwards m n o s t) p = p.0

  module _ (i : ℕ) (li : i < num_processes) where
    other : (s : Sched) (c : ℕ) → s.current ≡ some c → IsWaiting i s → HasOther s c
    other s c cur p = record {
      other = i;
      exists = li;
      differs = λ q. p.not_current (cur ∙ ap some (sym q));
      runs = p.could;
    }

    entry :
        (c : ℕ) (m o : Machine D) (s : Step bus ops b m o)
        → IsWell m
        → HasTicks m.kernel
        → m.kernel.sched.current ≡ some c
        → IsWaiting i m.kernel.sched
        → IsFueled bus ops b s
        → IsWell o × HasTicks o.kernel × IsEntry m.kernel o.kernel
    entry c m o s w h cur p fu =
        let r = Step-IsEntry bus ops b c m o s w h cur (other m.kernel.sched c cur p) fu in
        ((only_current_changes bus ops b c m o s w cur).0, handler r, r)
      where
        handler : IsEntry m.kernel o.kernel → HasTicks o.kernel
        handler (inl (same, t)) = ap (λ (q : Timer). q.user_handler) t ∙ h
        handler (inr (e, same, t)) =
            ap (λ (q : Timer). q.user_handler) t ∙ handler_kept e m.kernel.timer ∙ h

    last_run :
        (c : ℕ) {m n : Machine D} (t : Steps bus ops b m n)
        → IsWell m
        → HasTicks m.kernel
        → i ≢ c
        → IsNext i c
        → IsLast c m.kernel.sched
        → IsPassedOver i t
        → n.kernel.timer ≡ m.kernel.timer
    last_run c (done m) w h ne next k p = refl
    last_run c (onwards m o n s t) w h ne next k p =
        let (w', h', r) = entry c m o s w h k.current p.0 p.1 in
        elim r [
          | inl (same, e) ↦ last_run c t w' h' ne next (subst (IsLast c) (sym same) k) p.2 ∙ e
          | inr (x, same, e) ↦
              let (none_here, k') =
                enter-IsLast m.kernel.sched c i x w.sound.sched ne next p.0
                  (subst (IsWaiting i) same (now i t p.2)) k in
              last_run c t w' h' ne next (subst (IsLast c) (sym same) k') p.2
              ∙ e
              ∙ no_tick x m.kernel.timer none_here
        ]

    early_run :
        (c : ℕ) {m n : Machine D} (t : Steps bus ops b m n)
        → IsWell m
        → HasTicks m.kernel
        → IsEarly c m.kernel.sched
        → IsPassedOver i t
        → (n.kernel.timer ≡ m.kernel.timer) ⊎ (n.kernel.timer ≡ (timer_tick m.kernel.timer).0)
    early_run c (done m) w h k p = inl refl
    early_run c (onwards m o n s t) w h k p =
        let (w', h', r) = entry c m o s w h k.current p.0 p.1 in
        let ne : i ≢ c = λ q. p.0.not_current (k.current ∙ ap some (sym q)) in
        elim r [
          | inl (same, e) ↦
              subst (λ u. (n.kernel.timer ≡ u) ⊎ (n.kernel.timer ≡ (timer_tick u).0)) e
                (early_run c t w' h' (subst (IsEarly c) (sym same) k) p.2)
          | inr (x, same, e) ↦
              let after = subst (IsWaiting i) same (now i t p.2) in
              elim (tick_or_not x) [
                | inl q ↦
                    let (l, nl, next, last) =
                      tick_hands m.kernel.sched c i w.sound.sched li ne p.0
                        (subst (λ y. IsWaiting i (enter m.kernel.sched y)) q after) k in
                    inr (
                      last_run l t w' h' nl next
                        (subst (IsLast l) (sym (same ∙ ap (enter m.kernel.sched) q)) last) p.2
                      ∙ e
                      ∙ ap (λ y. timer_after y m.kernel.timer) q)
                | inr q ↦
                    let (l, k') =
                      enter-IsEarly m.kernel.sched c i x w.sound.sched li ne p.0.could after.could
                        k in
                    subst (λ u. (n.kernel.timer ≡ u) ⊎ (n.kernel.timer ≡ (timer_tick u).0))
                      (e ∙ no_tick x m.kernel.timer q)
                      (early_run l t w' h' (subst (IsEarly l) (sym same) k') p.2)
              ]
        ]

  -- Nobody starves on the whole machine: while a process could run and is not current, at every moment of a run
  -- of stores, system calls, faults, interrupts and switches, the kernel's tick counter goes up
  -- by one at most. At the start no wake-up is pending, the current process is not asleep, and the timer has
  -- scheduler_tick as its handler; each step has fuel enough.
  pub ticked_once :
      (m n : Machine D) (t : Steps bus ops b m n) (i c : ℕ)
      → IsWell m
      → HasTicks m.kernel
      → i < num_processes
      → m.kernel.sched.current ≡ some c
      → m.kernel.sched.wake_hint ≡ none
      → state_of m.kernel.sched c ≢ blocked
      → IsPassedOver i t
      → (n.kernel.timer.tick_count ≡ m.kernel.timer.tick_count)
        ⊎ (n.kernel.timer.tick_count ≡ add32 m.kernel.timer.tick_count 1)
  unfolding timer_tick
  ticked_once m n t i c w h li cur hint awake p =
      elim (early_run i li c t w h (record { current = cur; no_hint = hint; awake = awake }) p) [
        | inl e ↦ inl (ap (λ (q : Timer). q.tick_count) e)
        | inr e ↦ inr (ap (λ (q : Timer). q.tick_count) e)
      ]
