-- ===== src/Machine/Lawful.antt =====
-- What a step may do to the kernel on behalf of process c: keep it sound, confine itself to the memory
-- that process c can write, and treat the scheduler by its operations alone.
use refix_os.Sched.Invariant
use refix_os.Exception.{Handled, resumed, schedule_tail, switched, halted, hung}
use refix_os.Sched.History.{step, Follows, Follows-step, reschedules, Follows-trans, Follows-refl}
use refix_os.Common.{ℕ, some, none, refl}
use refix_os.Kernel.{Kernel}
use refix_os.Sched.{Sched, Switch, schedule}
use refix_os.Kernel.Safe.{IsSafe, same_mem-IsSafe}
use refix_os.Syscall.Outcome.{with_sched}
use refix_os.Sched.Invariant.{schedule-IsValid}
use refix_os.Kernel.Sound.{IsSound}

pub record IsLawful (c : ℕ) (k k' : Kernel) : Type 0 where
  pub safe : IsSafe c k k'
  pub trace : Follows k.sched k'.sched

abbrev pub handled_kernel : Handled → Kernel
handled_kernel (resumed k) = k
handled_kernel (switched k sw) = k
handled_kernel (halted k) = k
handled_kernel (hung k) = k

-- A kernel with the same memory and ring.
with_sched-IsLawful :
    (c : ℕ) (k0 k : Kernel) (s : Sched)
    → IsLawful c k0 k
    → Invariant.IsValid s
    → Follows k.sched s
    → IsLawful c k0 (with_sched k s)
with_sched-IsLawful c k0 k s v w f = record {
  safe = record {
    sound = record { sched = w; ring = v.safe.sound.ring };
    confined = record { others = v.safe.confined.others; outside = v.safe.confined.outside };
  };
  trace = Follows-trans k0.sched k.sched s v.trace f;
}

tail_of :
    (c : ℕ) (k0 k : Kernel) (p : Sched × Switch)
    → IsLawful c k0 (with_sched k p.0)
    → IsLawful c k0 (handled_kernel (schedule_tail k p))
tail_of c k0 k (s, none) v = v
tail_of c k0 k (s, some sw) v = v

schedule-Follows : (s : Sched) → Follows s (schedule s).0
unfolding step
schedule-Follows s = Follows-step s reschedules

pub tail-IsLawful :
    (c : ℕ) (k0 k : Kernel)
    → IsLawful c k0 k
    → IsLawful c k0 (handled_kernel (schedule_tail k (schedule k.sched)))
tail-IsLawful c k0 k v = tail_of c k0 k (schedule k.sched) (
    with_sched-IsLawful c k0 k (schedule k.sched).0 v (schedule-IsValid k.sched v.safe.sound.sched)
      (schedule-Follows k.sched))

-- Nothing has happened to the kernel.
pub same-IsLawful : (c : ℕ) (k : Kernel) → IsSound k → IsLawful c k k
same-IsLawful c k v = record { safe = same_mem-IsSafe c k k v refl; trace = Follows-refl k.sched }
