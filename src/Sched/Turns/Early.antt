-- ===== src/Sched/Turns/Early.antt =====
-- What an entry does while nothing is known of the process whose turn it is.
use refix_os.Common.{
  ℕ, ◌≡◌, some, ◌<◌, ◌≢◌, none, false, true, arith, ◌∙◌, Bool-cases, ◌==◌, inl, subst, ==_iff, sym,
  inr, ap, refl,
}
use refix_os.Sched.{
  scheduler_tick, Sched, scheduler_wake_reader, scheduler_request_resched, is_runnable, state_of,
  schedule,
}
use refix_os.Sched.History.{step, step-IsRetired, reschedules}
use refix_os.Sched.Invariant.{IsValid, set_dead-IsValid, request_resched-IsValid}
use refix_os.Sched.Turns.{
  KernelEntry, before, enter, before-current, before-IsValid, killed, enter_eq, scheduled, at_kill,
  at_tick, at_input, calls, yields, waits, ends,
}
use refix_os.Proc.{num_processes, blocked}
use refix_os.Sched.Handover.{due_hands_over}
use refix_os.Sched.Decision.{decision}

-- Process c has the processor, and is not asleep.
pub record IsEarly (c : ℕ) (s : Sched) : Type 0 where
  pub current : s.current ≡ some c
  pub no_hint : s.wake_hint ≡ none
  pub awake : state_of s c ≢ blocked

scheduled-IsEarly :
    (t : Sched) (c i : ℕ)
    → IsValid t
    → t.current ≡ some c
    → i < num_processes
    → i ≢ c
    → is_runnable (state_of t i) ≡ true
    → (t.need_reschedule ≡ false → IsEarly c t)
    → (n : ℕ) × IsEarly n (schedule t).0
scheduled-IsEarly t c i v cur li ne run idle = elim (Bool-cases t.need_reschedule) [
  | inl due ↦
      let (n, h) = due_hands_over t c i v cur due li ne run in
      (
        n,
        subst (λ q. IsEarly n q.0) (sym h.equal)
            (record { current = refl; no_hint = refl; awake = λ e. ground arith }),
      )
  | inr not_due ↦ (
    c,
    subst (IsEarly c) (sym (scheduled t c v cur ∙ ap (λ d. (decision t (some c) d).0) not_due))
        (idle not_due),
  )
]

-- Before schedule, an entry other than the at_tick's leaves things as they were or asks for a rescheduling.
before-IsEarly :
    (s : Sched) (c : ℕ) (e : KernelEntry)
    → IsEarly c s
    → (before s c e).need_reschedule ≡ false
    → IsEarly c (before s c e)
unfolding scheduler_tick scheduler_wake_reader scheduler_request_resched
before-IsEarly s c at_tick k h = absurd (ground (arith, h))
before-IsEarly s c at_input k h = record {
  current = ground (arith, k.current, h);
  no_hint = ground (arith, k.no_hint, h);
  awake = λ q. k.awake (ground (arith, q, h));
}
before-IsEarly s c calls k h = k
before-IsEarly s c yields k h = absurd (ground (arith, h))
before-IsEarly s c waits k h = absurd (ground (arith, h))
before-IsEarly s c ends k h = absurd (ground (arith, h))
before-IsEarly s c (at_kill i) k h = absurd (ground (arith, h))

-- A process that is killed off the processor is dead behind schedule, too.
killed_for_good :
    (s : Sched) (c i : ℕ)
    → IsValid s
    → i ≢ c
    → s.current ≡ some c
    → is_runnable (state_of (enter s (at_kill i)) i) ≢ true
unfolding step scheduler_request_resched
killed_for_good s c i v ne cur run =
    let t = scheduler_request_resched (killed s i) in
    let off : s.current ≢ some i = λ e. ground (arith, e, cur, ne) in
    let d =
      step-IsRetired t i reschedules (request_resched-IsValid (set_dead-IsValid s i v))
        (record { gone = ground arith; off = off }) in
    ground (arith, d.gone, run)

-- So process i is not touched before schedule by an entry behind which it could run.
pub before_could :
    (s : Sched) (c i : ℕ) (e : KernelEntry)
    → IsValid s
    → i ≢ c
    → s.current ≡ some c
    → is_runnable (state_of s i) ≡ true
    → is_runnable (state_of (enter s e) i) ≡ true
    → is_runnable (state_of (before s c e) i) ≡ true
unfolding scheduler_tick scheduler_wake_reader scheduler_request_resched
before_could s c i at_tick v ne cur run after = run
before_could s c i at_input v ne cur run after = ground (arith, run)
before_could s c i calls v ne cur run after = run
before_could s c i yields v ne cur run after = run
before_could s c i waits v ne cur run after = ground (arith, run, ne)
before_could s c i ends v ne cur run after = ground (arith, run, ne)
before_could s c i (at_kill j) v ne cur run after = elim (Bool-cases (i == j)) [
  | inl e ↦
      let same : i ≡ j = (==_iff i j).0 e in
      absurd (
        killed_for_good s c i v ne cur
          (subst (λ q. is_runnable (state_of (enter s (at_kill q)) i) ≡ true) (sym same) after))
  | inr e ↦ ground (arith, run, e)
]

pub enter-IsEarly :
    (s : Sched) (c i : ℕ) (e : KernelEntry)
    → IsValid s
    → i < num_processes
    → i ≢ c
    → is_runnable (state_of s i) ≡ true
    → is_runnable (state_of (enter s e) i) ≡ true
    → IsEarly c s
    → (n : ℕ) × IsEarly n (enter s e)
enter-IsEarly s c i e v li ne run after k =
    let cur = before-current s c e ∙ k.current in
    let (n, r) =
      scheduled-IsEarly (before s c e) c i (before-IsValid s c e k.current v) cur li ne
        (before_could s c i e v ne k.current run after) (before-IsEarly s c e k) in
    (n, subst (IsEarly n) (sym (enter_eq s c e k.current)) r)
