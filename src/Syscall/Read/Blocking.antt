-- ===== src/Syscall/Read/Blocking.antt =====
-- sys_read with no byte waiting.
use refix_os.Syscall.Read.{read_loop, sleep_or, sys_read}
use refix_os.Common.{ℕ, ◌≡◌, [], some, ◌<◌, suc, ◌≢◌, true, false, refl, ◌∙◌, arith, ap, zero}
use refix_os.Kernel.{Kernel}
use refix_os.Kernel.Sound.{IsSound}
use refix_os.Uart.Ring.Refine.{contents, pop-nil}
use refix_os.Proc.{num_processes, blocked}
use refix_os.Sched.{is_runnable, state_of, scheduler_block_on_input, Sched, asleep}
use refix_os.Syscall.Read.Rounds.{round_asleep, sys_read_enters}
use refix_os.Syscall.Outcome.{spinning, with_sched, parked}
use refix_os.Syscall.Pointer.{valid_user_ptr}
use refix_os.Sched.Spec.{cleared}
use refix_os.Sched.Wakeup.{block_hands_over, block_alone}
use refix_os.Sched.Invariant.{cleared-IsValid, asleep-IsValid}
use refix_os.Sched.Decision.{hand_over}

-- The round in which the ring is empty.
pub sleeps :
    (fuel : ℕ) (k : Kernel) (fd buf len : ℕ)
    → IsSound k
    → contents k.ring ≡ []
    → 0 < len
    → read_loop (suc fuel) k buf len 0
      ≡ sleep_or k (scheduler_block_on_input k.sched) (λ k'. read_loop fuel k' buf len 0)
sleeps fuel k fd buf len v e pos = round_asleep fuel k buf len 0 pos refl (pop-nil k.ring v.ring e)

-- With the ring empty and another process READY or RUNNING, sys_read puts its caller to sleep: it is
-- BLOCKED, in the reader's slot and without the processor, and `context_switch` is called for a
-- process that was runnable. Nothing outside the scheduler changes.
pub sys_read_parks :
    (fuel : ℕ) (k : Kernel) (c i fd buf len : ℕ)
    → IsSound k
    → contents k.ring ≡ []
    → k.sched.current ≡ some c
    → i < num_processes
    → i ≢ c
    → is_runnable (state_of k.sched i) ≡ true
    → 0 < len
    → valid_user_ptr buf len ≡ true
    → (n : ℕ) × (s : Sched) × (sys_read (suc fuel) k fd buf len ≡ parked (with_sched k s) (c, n))
      × (is_runnable (state_of k.sched n) ≡ true)
      × (n ≢ c)
      × (s.current ≡ some n)
      × (s.blocked_reader ≡ some c)
      × (state_of s c ≡ blocked)
sys_read_parks fuel k c i fd buf len v e cur li ne run pos ok =
    let (n, h, r, m) = block_hands_over k.sched c i v.sched cur li ne run in
    (
      n,
      (hand_over (cleared (asleep k.sched c)) c (some n)).0,
      sys_read_enters (suc fuel) k fd buf len pos ok
          ∙ sleeps fuel k fd buf len v e pos
          ∙ ap (λ o. sleep_or k o (λ k'. read_loop fuel k' buf len 0)) h,
      r,
      m,
      refl,
      refl,
      ground arith,
    )

loop_hangs :
    (fuel : ℕ) (k : Kernel) (c fd buf len : ℕ)
    → IsSound k
    → contents k.ring ≡ []
    → k.sched.current ≡ some c
    → ((i : ℕ) → i ≢ c → is_runnable (state_of k.sched i) ≡ false)
    → 0 < len
    → (k' : Kernel) × (read_loop fuel k buf len 0 ≡ spinning k')
unfolding read_loop
loop_hangs zero k c fd buf len v e cur off pos = (k, refl)
loop_hangs (suc fuel) k c fd buf len v e cur off pos =
    let next = with_sched k (cleared (asleep k.sched c)) in
    let (k', h) =
      loop_hangs fuel next c fd buf len
        (record { sched = cleared-IsValid _ (asleep-IsValid k.sched c cur v.sched); ring = v.ring })
        e cur (λ i ne. ground (arith, off i ne)) pos in
    (
      k',
      sleeps fuel k fd buf len v e pos
          ∙ ap (λ o. sleep_or k o (λ k'. read_loop fuel k' buf len 0))
              (block_alone k.sched c v.sched cur off)
          ∙ h,
    )

-- With the ring empty and no other process READY or RUNNING, sys_read never returns and never gives
-- the processor away, whatever the fuel: nobody else can run, and a byte is delivered by an
-- interrupt, which the loop does not take.
pub sys_read_hangs :
    (fuel : ℕ) (k : Kernel) (c fd buf len : ℕ)
    → IsSound k
    → contents k.ring ≡ []
    → k.sched.current ≡ some c
    → ((i : ℕ) → i ≢ c → is_runnable (state_of k.sched i) ≡ false)
    → 0 < len
    → valid_user_ptr buf len ≡ true
    → (k' : Kernel) × (sys_read fuel k fd buf len ≡ spinning k')
sys_read_hangs fuel k c fd buf len v e cur off pos ok =
    let (k', h) = loop_hangs fuel k c fd buf len v e cur off pos in
    (k', sys_read_enters fuel k fd buf len pos ok ∙ h)
