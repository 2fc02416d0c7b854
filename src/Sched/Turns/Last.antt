-- ===== src/Sched/Turns/Last.antt =====
-- What an entry does while the last process before the one that waits has the processor.
use refix_os.Common.{
  ℕ, ◌≡◌, some, ◌≢◌, true, none, false, refl, arith, Option-cases, Bool-cases, inl, subst, ap, inr,
  sym, ◌∙◌,
}
use refix_os.Sched.{
  scheduler_tick, wake_from, Sched, scheduler_wake_reader, is_runnable, scheduler_request_resched,
  state_of, schedule,
}
use refix_os.Sched.Invariant.{IsValid}
use refix_os.Proc.{is_blocked, blocked}
use refix_os.Sched.Turns.{
  KernelEntry, IsWaiting, before, enter, tick_of, enter_eq, scheduled, before-IsValid,
  before-current, at_kill, at_tick, at_input, calls, yields, waits, ends,
}
use refix_os.Sched.Spec.{others, chosen, preferred, first_runnable, or_else, cleared}
use refix_os.Sched.Turns.Early.{before_could}
use refix_os.Sched.Decision.{decision, hand_over}

-- Process b has the processor, and nobody else sleeps on input.
pub record IsLast (b : ℕ) (s : Sched) : Type 0 where
  pub current : s.current ≡ some b
  pub no_hint : s.wake_hint ≡ none
  pub awake : (r : ℕ) → s.blocked_reader ≡ some r → state_of s r ≡ blocked → r ≡ b

-- Whoever is chosen next behind process b is process i.
abbrev pub IsNext : ℕ → ℕ → Type 0
IsNext i b = (t : Sched) → is_runnable (state_of t i) ≡ true → first_runnable t (others b) ≡ some i

-- With process i next behind b, b goes on until i is current.
scheduled_last :
    (t : Sched) (b i : ℕ)
    → IsValid t
    → t.current ≡ some b
    → chosen t b ≡ some i
    → (schedule t).0.current ≢ some i
    → (t.need_reschedule ≡ false) × ((schedule t).0 ≡ t)
scheduled_last t b i v cur next not_i = elim (Bool-cases t.need_reschedule) [
  | inl due ↦ absurd (
      not_i (
        ap (λ q. q.current) (scheduled t b v cur ∙ ap (λ d. (decision t (some b) d).0) due)
        ∙ ap (λ o. (hand_over (cleared t) b o).0.current) next))
  | inr not_due ↦ (not_due, scheduled t b v cur ∙ ap (λ d. (decision t (some b) d).0) not_due)
]

-- The hint that a wake-up leaves is for process b itself, so that it is not taken.
last_preferred :
    (s : Sched) (b : ℕ) (e : KernelEntry)
    → IsLast b s
    → preferred (before s b e) b (before s b e).wake_hint ≡ none
unfolding scheduler_tick scheduler_wake_reader scheduler_request_resched
last_preferred s b at_tick k = ground (arith, k.no_hint)
last_preferred s b at_input k = elim (Option-cases s.blocked_reader) [
  | inl q ↦ ground (arith, q, k.no_hint)
  | inr (r, q) ↦ elim (Bool-cases (is_blocked (state_of s r))) [
    | inl z ↦ let same : r ≡ b = k.awake r q (ground (arith, z)) in ground (arith, q, z, same)
    | inr z ↦ ground (arith, q, z, k.no_hint)
  ]
]
last_preferred s b calls k = ground (arith, k.no_hint)
last_preferred s b yields k = ground (arith, k.no_hint)
last_preferred s b waits k = ground (arith, k.no_hint)
last_preferred s b ends k = ground (arith, k.no_hint)
last_preferred s b (at_kill i) k = ground (arith, k.no_hint)

unwoken : (s : Sched) (r : ℕ) → is_blocked (state_of s r) ≡ false → wake_from s (some r) ≡ s
unfolding wake_from
unwoken s r z = rw z refl

before-IsLast :
    (s : Sched) (b : ℕ) (e : KernelEntry)
    → IsLast b s
    → (before s b e).need_reschedule ≡ false
    → (tick_of e ≡ 0) × IsLast b (before s b e)
unfolding scheduler_tick scheduler_wake_reader scheduler_request_resched wake_from
before-IsLast s b at_tick k h = absurd (ground (arith, h))
before-IsLast s b at_input k h = elim (Option-cases s.blocked_reader) [
  | inl q ↦ (refl, subst (IsLast b) (sym (ap (wake_from s) q)) k)
  | inr (r, q) ↦ elim (Bool-cases (is_blocked (state_of s r))) [
    | inl z ↦ absurd (ground (arith, h, q, z))
    | inr z ↦ (refl, subst (IsLast b) (sym (ap (wake_from s) q ∙ unwoken s r z)) k)
  ]
]
before-IsLast s b calls k h = (refl, k)
before-IsLast s b yields k h = absurd (ground (arith, h))
before-IsLast s b waits k h = absurd (ground (arith, h))
before-IsLast s b ends k h = absurd (ground (arith, h))
before-IsLast s b (at_kill i) k h = absurd (ground (arith, h))

pub enter-IsLast :
    (s : Sched) (b i : ℕ) (e : KernelEntry)
    → IsValid s
    → i ≢ b
    → IsNext i b
    → IsWaiting i s
    → IsWaiting i (enter s e)
    → IsLast b s
    → (tick_of e ≡ 0) × IsLast b (enter s e)
enter-IsLast s b i e v ne next p q k =
    let t = before s b e in
    let eq = enter_eq s b e k.current in
    let could = before_could s b i e v ne k.current p.could q.could in
    let choice : chosen t b ≡ some i =
      ap (λ o. or_else o (first_runnable t (others b))) (last_preferred s b e k) ∙ next t could in
    let (idle, same) =
      scheduled_last t b i (before-IsValid s b e k.current v) (before-current s b e ∙ k.current)
        choice (subst (λ u. u.current ≢ some i) eq q.not_current) in
    let (none_here, r) = before-IsLast s b e k idle in
    (none_here, subst (IsLast b) (sym (eq ∙ same)) r)
