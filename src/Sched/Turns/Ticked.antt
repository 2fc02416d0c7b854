-- ===== src/Sched/Turns/Ticked.antt =====
-- Whom a timer interrupt gives the processor to while a process that could run waits.
use refix_os.Common.{ℕ, ◌≡◌, some, ◌<◌, ◌⊎◌, ◌≢◌, inl, true, inr, arith, ◌∙◌, ap, sym, subst, refl}
use refix_os.Sched.{scheduler_tick, Sched, state_of, is_runnable}
use refix_os.Sched.Turns.{
  KernelEntry, tick_of, IsWaiting, enter, scheduled, at_tick, at_kill, at_input, calls, yields,
  waits, ends,
}
use refix_os.Sched.Invariant.{IsValid, scheduler_tick-IsValid}
use refix_os.Proc.{num_processes, blocked}
use refix_os.Sched.Turns.Early.{IsEarly}
use refix_os.Sched.Decision.{hand_over}
use refix_os.Sched.Turns.Last.{IsNext, IsLast}
use refix_os.Sched.Spec.{others, cleared, chosen, first_runnable, or_else, preferred, chosen_facts}
use refix_os.Sched.Progress.{ring_turn}

-- Of three processes only the last can sleep on input when one could run and another has just run.
handed_reader :
    (t : Sched) (c i b r : ℕ)
    → ((r : ℕ) → t.blocked_reader ≡ some r → r < num_processes)
    → t.blocked_reader ≡ some r
    → c < num_processes
    → i < num_processes
    → b < num_processes
    → i ≢ c
    → i ≢ b
    → b ≢ c
    → is_runnable (state_of t i) ≡ true
    → state_of t c ≢ blocked
    → state_of (hand_over (cleared t) c (some b)).0 r ≡ blocked
    → r ≡ b
handed_reader t c i b r inside e lc li lb ic ib bc run awake z =
    let lr = inside r e in
    let not_i : r ≢ i = λ q. ground (arith, z, q, run, ic, ib) in
    let not_c : r ≢ c = λ q. ground (arith, z, q, awake, bc) in
    ground (arith, lr, not_i, not_c, ic, ib, bc)

-- The first tick, from c with i behind it, gives the processor to the last one before i.
pub tick_hands :
    (s : Sched) (c i : ℕ)
    → IsValid s
    → i < num_processes
    → i ≢ c
    → IsWaiting i s
    → IsWaiting i (enter s at_tick)
    → IsEarly c s
    → (b : ℕ) × (i ≢ b) × IsNext i b × IsLast b (enter s at_tick)
unfolding scheduler_tick
tick_hands s c i v li ne p q k =
    let t = scheduler_tick s in
    let eq : enter s at_tick ≡ (hand_over (cleared t) c (chosen t c)).0 =
      scheduled t c (scheduler_tick-IsValid v) k.current in
    let plain : chosen t c ≡ first_runnable t (others c) =
      ap (λ h. or_else (preferred t c h) (first_runnable t (others c))) k.no_hint in
    elim (ring_turn t c i (v.current_in c k.current) li p.could ne) [
      | inl first ↦ absurd (
          q.not_current
            (ap (λ u. u.current) (eq ∙ ap (λ o. (hand_over (cleared t) c o).0) (plain ∙ first))))
      | inr (b, first, later) ↦
          let handed = eq ∙ ap (λ o. (hand_over (cleared t) c o).0) (plain ∙ first) in
          let facts = chosen_facts t c b (v.current_in c k.current) v.hint_in (plain ∙ first) in
          let i_not_b : i ≢ b = λ e. q.not_current (ap (λ u. u.current) handed ∙ ap some (sym e)) in
          (
            b,
            i_not_b,
            later,
            subst (IsLast b) (sym handed) (record {
              current = refl;
              no_hint = refl;
              awake = λ r e z.
                  handed_reader t c i b r v.reader_in e (v.current_in c k.current) li facts.0 ne
                    i_not_b facts.1 p.could k.awake z;
            }),
          )
    ]

pub tick_or_not : (e : KernelEntry) → (e ≡ at_tick) ⊎ (tick_of e ≡ 0)
tick_or_not at_tick = inl refl
tick_or_not at_input = inr refl
tick_or_not calls = inr refl
tick_or_not yields = inr refl
tick_or_not waits = inr refl
tick_or_not ends = inr refl
tick_or_not (at_kill i) = inr refl
